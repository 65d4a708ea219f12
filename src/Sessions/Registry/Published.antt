-- ===== src/Sessions/Registry/Published.antt =====
-- The registry of src/core/session-store.ts as a map from a name to its last completed value: writes
-- of registrations and their undoing do not change it.
use gptqueue.Prelude.{
  String, Bool, true, false, Option, none, some, List, [], ◌∷◌, ◌≡◌, inl, inr, refl, ap, sym, subst,
  ◌∙◌, if◌then◌else◌, str_eq, str_eq_iff, str_eq_refl, lookup, Bool-cases,
}
use gptqueue.Sessions.Registry.{
  Names, to_restore, RegistryEvent, write, undo, publish, after_event, after_events,
}
use gptqueue.Sessions.Registry.Laws.{
  SteadyAt, name_of, write-completed, undo-completed, publish-completed, event-Alike,
  Alike-SteadyAt,
}

-- The value of `name` that the events have published last.
unfoldable pub published : String → Option String → List RegistryEvent → Option String
published name o [] = o
published name o (publish n v ∷ es) = published name (if str_eq n name then some v else o) es
published name o (write n v ∷ es) = published name o es
published name o (undo n v ∷ es) = published name o es

module _ (provisional : String → Bool) where
  -- A registration writes and undoes values of one kind, and publishes values of another.
  abbrev pub AreTold : List RegistryEvent → Type 0
  AreTold [] = Unit
  AreTold (write n v ∷ es) = (provisional v ≡ true) × AreTold es
  AreTold (undo n v ∷ es) = (provisional v ≡ true) × AreTold es
  AreTold (publish n v ∷ es) = (provisional v ≡ false) × AreTold es

  -- The completed value after an event: a publication of the name sets it.
  abbrev set_by : String → RegistryEvent → Option String → Option String
  set_by name (publish n v) o = if str_eq n name then some v else o
  set_by name _ o = o

  abbrev IsTold : RegistryEvent → Type 0
  IsTold (write n v) = provisional v ≡ true
  IsTold (undo n v) = provisional v ≡ true
  IsTold (publish n v) = provisional v ≡ false

  abbrev Follows : String → RegistryEvent → Names → Type 0
  Follows name e st =
      SteadyAt provisional name (after_event e st)
      × (to_restore name (after_event e st) ≡ set_by name e (to_restore name st))

  own-Follows :
      (e : RegistryEvent) (st : Names)
      → IsTold e
      → SteadyAt provisional (name_of provisional e) st
      → Follows (name_of provisional e) e st
  unfolding after_event
  own-Follows (write n v) st told s = write-completed provisional n v st told s
  own-Follows (undo n v) st told s = undo-completed provisional n v st told s
  own-Follows (publish n v) st told s =
      let (steady, same) = publish-completed provisional n v st told in
      (steady, same ∙ ap (λ b. if b then some v else to_restore n st) (sym (str_eq_refl n)))

  other-set_by :
      (name : String) (e : RegistryEvent) (o : Option String)
      → str_eq (name_of provisional e) name ≡ false
      → set_by name e o ≡ o
  other-set_by name (write n v) o h = refl
  other-set_by name (undo n v) o h = refl
  other-set_by name (publish n v) o h = rw h refl

  event-Follows :
      (name : String) (e : RegistryEvent) (st : Names)
      → IsTold e
      → SteadyAt provisional name st
      → Follows name e st
  event-Follows name e st told s = elim (Bool-cases (str_eq (name_of provisional e) name)) [
    | inl own ↦
        subst (λ n. SteadyAt provisional n st → Follows n e st)
          ((str_eq_iff (name_of provisional e) name).0 own) (own-Follows e st told) s
    | inr other ↦
        let (steady, same) =
          Alike-SteadyAt provisional name st (after_event e st)
            (event-Alike provisional name e st other) s in
        (steady, same ∙ sym (other-set_by name e (to_restore name st) other))
  ]

  published-set_by :
      (name : String) (e : RegistryEvent) (es : List RegistryEvent) (o : Option String)
      → published name o (e ∷ es) ≡ published name (set_by name e o) es
  unfolding published
  published-set_by name (write n v) es o = refl
  published-set_by name (undo n v) es o = refl
  published-set_by name (publish n v) es o = refl

  AreTold-parts :
      (e : RegistryEvent) (es : List RegistryEvent) → AreTold (e ∷ es) → IsTold e × AreTold es
  AreTold-parts (write n v) es h = h
  AreTold-parts (undo n v) es h = h
  AreTold-parts (publish n v) es h = h

  events-completed :
      (name : String) (es : List RegistryEvent) (st : Names)
      → AreTold es
      → SteadyAt provisional name st
      → to_restore name (after_events es st) ≡ published name (to_restore name st) es
  unfolding after_events published
  events-completed name [] st told s = refl
  events-completed name (e ∷ es) st told s =
      let (own, rest) = AreTold-parts e es told in
      let (steady, same) = event-Follows name e st own s in
      events-completed name es (after_event e st) rest steady
      ∙ ap (λ o. published name o es) same
      ∙ sym (published-set_by name e es (to_restore name st))

abbrev pub no_names : Names
no_names = record { registry = []; pending = []; restore = [] }

-- From an empty registry, after any writes, undone writes and publications in any order, the value
-- that a name would be restored to is the one that was published last for it, if published values and
-- those of registrations in progress are told apart.
pub events-published :
    (provisional : String → Bool) (name : String) (es : List RegistryEvent)
    → AreTold provisional es
    → to_restore name (after_events es no_names) ≡ published name none es
unfolding lookup
events-published provisional name es told =
    events-completed provisional name es no_names told (inl (refl, refl, tt))
