-- ===== src/Sessions/Registry/Laws.antt =====
-- What one script on the registry of src/core/session-store.ts does to the completed value of a name.
use gptqueue.Prelude.{
  put, String, Bool, true, false, Option, none, some, ◌≡◌, ◌⊎◌, inl, inr, refl, sym, subst,
  if◌then◌else◌, str_eq, str_eq_refl, lookup, lookup-put, lookup-remove, Dict, ap, Bool-cases,
  arith, remove, str_eq_iff, ◌∙◌,
}
use gptqueue.Sessions.Registry.{
  Names, same, set_or_delete, to_restore, write_provisional, publish_registration, RegistryEvent,
  write, undo, publish, after_event, is_value, undo_registry_write, undone,
}

lookup-set_or_delete :
    (name : String) (o : Option String) (m : Dict String) → lookup name (set_or_delete name o m) ≡ o
lookup-set_or_delete name none m = rw (lookup-remove name name m, str_eq_refl name) refl
lookup-set_or_delete name (some v) m = rw (lookup-put name name v m, str_eq_refl name) refl

module _ (provisional : String → Bool) where
  abbrev pub IsCompleted : Option String → Type 0
  IsCompleted none = Unit
  IsCompleted (some v) = provisional v ≡ false

  -- Of the three values of a name: nothing is pending, or what is pending is what is registered.
  abbrev pub IsSteady : Option String → Option String → Option String → Type 0
  IsSteady a p r =
      (p ≡ none) × (r ≡ none) × IsCompleted a
      ⊎ ((v : String) × (a ≡ some v) × (p ≡ some v) × (provisional v ≡ true)) × IsCompleted r

  abbrev completed : Option String → Option String → Option String → Option String
  completed a p r = if same a p then r else a

  completed-IsCompleted : (a p r : Option String) → IsSteady a p r → IsCompleted (completed a p r)
  completed-IsCompleted a p r (inl (no_p, no_r, done)) =
      subst (λ q. IsCompleted (completed a q r)) (sym no_p) (alone a done)
    where
      alone : (b : Option String) → IsCompleted b → IsCompleted (completed b none r)
      alone none d = tt
      alone (some v) d = d
  completed-IsCompleted a p r (inr ((v, is_a, is_p, told), done)) =
      subst (λ b. IsCompleted (completed b p r)) (sym is_a)
        (subst (λ q. IsCompleted (completed (some v) q r)) (sym is_p)
          (subst (λ b. IsCompleted (if b then r else some v)) (sym (str_eq_refl v)) done))

  abbrev pub SteadyAt : String → Names → Type 0
  SteadyAt name st =
      IsSteady (lookup name st.registry) (lookup name st.pending) (lookup name st.restore)

  lookup-other :
      (n name : String) (o : Option String) (m : Dict String)
      → str_eq n name ≡ false
      → lookup name (set_or_delete n o m) ≡ lookup name m
  lookup-other n name none m h = rw (lookup-remove n name m, h) refl
  lookup-other n name (some v) m h = rw (lookup-put n name v m, h) refl

  -- What an event does to the completed value of its own name.
  pub write-completed :
      (name v : String) (st : Names)
      → provisional v ≡ true
      → SteadyAt name st
      → SteadyAt name (write_provisional name v st)
        × (to_restore name (write_provisional name v st) ≡ to_restore name st)
  unfolding write_provisional
  write-completed name v st told s =
      rw
        (
          lookup-put name name v st.registry,
          lookup-put name name v st.pending,
          str_eq_refl name,
          lookup-set_or_delete name (to_restore name st) st.restore,
          str_eq_refl v,
        )
        (inr ((v, refl, refl, told), completed-IsCompleted _ _ _ s), refl)

  pub publish-completed :
      (name v : String) (st : Names)
      → provisional v ≡ false
      → SteadyAt name (publish_registration name v st)
        × (to_restore name (publish_registration name v st) ≡ some v)
  unfolding publish_registration
  publish-completed name v st told =
      rw
        (
          lookup-put name name v st.registry,
          lookup-remove name name st.pending,
          lookup-remove name name st.restore,
          str_eq_refl name,
        )
        (inl (refl, refl, told), refl)

  not_value :
      (a : Option String) (v : String) → IsCompleted a → provisional v ≡ true → is_value a v ≡ false
  not_value none v done told = refl
  not_value (some w) v done told = elim (Bool-cases (str_eq w v)) [
    | inl eq ↦ absurd (clash (ap provisional ((str_eq_iff w v).0 eq)))
    | inr ne ↦ ne
  ]
    where
      clash : provisional w ≡ provisional v → ⊥
      clash e = ground (arith, e, done, told)

  undo_misses :
      (name v : String) (st : Names)
      → is_value (lookup name st.registry) v ≡ false
      → is_value (lookup name st.pending) v ≡ false
      → (undo_registry_write name v st).0 ≡ st
  unfolding undo_registry_write
  undo_misses name v st h k = rw (h, k) refl

  abbrev Undone : String → String → Names → Type 0
  Undone name v st =
      SteadyAt name (undo_registry_write name v st).0
      × (to_restore name (undo_registry_write name v st).0 ≡ to_restore name st)

  undo_missed :
      (name v : String) (st : Names)
      → SteadyAt name st
      → is_value (lookup name st.registry) v ≡ false
      → is_value (lookup name st.pending) v ≡ false
      → Undone name v st
  undo_missed name v st s h k =
      subst (λ x. SteadyAt name x × (to_restore name x ≡ to_restore name st))
        (sym (undo_misses name v st h k)) (s, refl)

  unpaired : (o : Option String) → (if same o none then none else o) ≡ o
  unpaired none = refl
  unpaired (some v) = refl

  undo_hits :
      (name v w : String) (st : Names)
      → lookup name st.registry ≡ some w
      → lookup name st.pending ≡ some w
      → str_eq w v ≡ true
      → IsCompleted (lookup name st.restore)
      → Undone name v st
  unfolding undo_registry_write
  undo_hits name v w st a p eq done =
      rw
        (
          a,
          p,
          eq,
          str_eq_refl w,
          lookup-remove name name st.pending,
          lookup-remove name name st.restore,
          str_eq_refl name,
          lookup-set_or_delete name (lookup name st.restore) st.registry,
        )
        (inl (refl, refl, done), unpaired (lookup name st.restore))

  pub undo-completed :
      (name v : String) (st : Names) → provisional v ≡ true → SteadyAt name st → Undone name v st
  undo-completed name v st told (inl (no_p, no_r, done)) =
      undo_missed name v st (inl (no_p, no_r, done))
        (not_value (lookup name st.registry) v done told) (ap (λ p. is_value p v) no_p)
  undo-completed name v st told (inr ((w, a, p, t), done)) = elim (Bool-cases (str_eq w v)) [
    | inl eq ↦ undo_hits name v w st a p eq done
    | inr ne ↦
        undo_missed name v st (inr ((w, a, p, t), done)) (ap (λ o. is_value o v) a ∙ ne)
          (ap (λ o. is_value o v) p ∙ ne)
  ]

  -- An event leaves the values of the other names as they are.
  abbrev pub name_of : RegistryEvent → String
  name_of (write n v) = n
  name_of (undo n v) = n
  name_of (publish n v) = n

  abbrev pub Alike : String → Names → Names → Type 0
  Alike name st st' =
      (lookup name st'.registry ≡ lookup name st.registry)
      × (lookup name st'.pending ≡ lookup name st.pending)
      × (lookup name st'.restore ≡ lookup name st.restore)

  pub event-Alike :
      (name : String) (e : RegistryEvent) (st : Names)
      → str_eq (name_of e) name ≡ false
      → Alike name st (after_event e st)
  unfolding after_event write_provisional undo_registry_write publish_registration
  event-Alike name (write n v) st h = (
    lookup-other n name (some v) st.registry h,
    lookup-other n name (some v) st.pending h,
    lookup-other n name (to_restore n st) st.restore h,
  )
  event-Alike name (publish n v) st h = (
    lookup-other n name (some v) st.registry h,
    lookup-other n name none st.pending h,
    lookup-other n name none st.restore h,
  )
  event-Alike name (undo n v) st h = undone-Alike (is_value (lookup n st.registry) v)
    where
      either :
          (b : Bool)
          → lookup name (if b then remove n st.pending else st.pending) ≡ lookup name st.pending
      either true = lookup-other n name none st.pending h
      either false = refl

      undone-Alike : (b : Bool) → Alike name st (undone b n v st).0
      undone-Alike true = (
        lookup-other n name (lookup n st.restore) st.registry h,
        lookup-other n name none st.pending h,
        lookup-other n name none st.restore h,
      )
      undone-Alike false = (refl, either (is_value (lookup n st.pending) v), refl)

  pub Alike-SteadyAt :
      (name : String) (st st' : Names)
      → Alike name st st'
      → SteadyAt name st
      → SteadyAt name st' × (to_restore name st' ≡ to_restore name st)
  Alike-SteadyAt name st st' (a, p, r) s = rw (a, p, r) (s, refl)

-- A registration that is undone right after its write leaves the name with its last completed value
-- and nothing pending.
pub undo-write :
    (name value : String) (st : Names)
    → (lookup name (undo_registry_write name value (write_provisional name value st)).0.registry
        ≡ to_restore name st)
      × (lookup name (undo_registry_write name value (write_provisional name value st)).0.pending
          ≡ none)
      × ((undo_registry_write name value (write_provisional name value st)).1 ≡ true)
unfolding undo_registry_write write_provisional
undo-write name value st =
    subst
      (λ b.
        (lookup name (undone b name value (write_provisional name value st)).0.registry
          ≡ to_restore name st)
        × (lookup name (undone b name value (write_provisional name value st)).0.pending ≡ none)
        × ((undone b name value (write_provisional name value st)).1 ≡ true))
      (sym hit)
      (
        lookup-set_or_delete name (lookup name (write_provisional name value st).restore)
              (put name value st.registry)
            ∙ lookup-set_or_delete name (to_restore name st) st.restore,
        rw (lookup-remove name name (put name value st.pending), str_eq_refl name) refl,
        refl,
      )
  where
    hit : is_value (lookup name (put name value st.registry)) value ≡ true
    hit = rw (lookup-put name name value st.registry, str_eq_refl name, str_eq_refl value) refl
