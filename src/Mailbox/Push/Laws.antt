-- ===== src/Mailbox/Push/Laws.antt =====
-- What one push of src/core/mailbox-store.ts does, and that mailboxes stay within the bound.
use gptqueue.Prelude.{
  ℕ, zero, suc, ◌+◌, ◌≤◌, ◌<◌, String, Bool, true, false, some, List, [], ◌∷◌, ◌++◌, ◌≡◌, ◌⊎◌, ◌||◌,
  inl, inr, refl, ap, sym, subst, ◌∙◌, if◌then◌else◌, leb, leb_iff, str_eq, length, length-append,
  lookup, put, lookup-put, Dict, Bool-cases, arith,
}
use gptqueue.Json.{JsonCodec}
use gptqueue.Mailbox.{
  QueueMessage, Header, State, queue_of, or_empty, message_value, wrong_type, request_key, is_wrong,
  or_absent,
}
use gptqueue.Mailbox.Keys.{wrong_type_iff}
use gptqueue.Mailbox.Push.{
  Push, pushed, full, refused, has_wrong_key, delivered, bounded_push, answer, attempts, send,
}

-- No mailbox has more messages than the bound.
pub record IsBounded (bound : ℕ) (st : State) : Type 0 where
  pub entry : (name : String) → length (queue_of name st) ≤ bound

pub empty-put :
    (k j : String) (xs : List String) (qs : Dict (List String))
    → or_empty (lookup j (put k xs qs)) ≡ (if str_eq k j then xs else or_empty (lookup j qs))
empty-put k j xs qs = ap or_empty (lookup-put k j xs qs) ∙ either (str_eq k j)
  where
    either :
        (b : Bool)
        → or_empty (if b then some xs else lookup j qs) ≡ (if b then xs else or_empty (lookup j qs))
    either true = refl
    either false = refl

room_left : (a b : ℕ) → leb a b ≡ false → b < a
room_left a b h = ground arith

-- The mailbox's meta data, its events, or the key of the request holds something of another type.
abbrev pub HasWrongKey : QueueMessage → State → Type 0
HasWrongKey m st =
    (lookup m.to st.metas ≡ some wrong_type)
    ⊎ (lookup m.to st.events ≡ some wrong_type)
    ⊎ (lookup (request_key m) st.outstanding ≡ some wrong_type)

one_of :
    {P Q R : Type 0} (a b c : Bool)
    → (a ≡ true → P)
    → (b ≡ true → Q)
    → (c ≡ true → R)
    → (a || b || c) ≡ true
    → P ⊎ Q ⊎ R
one_of true b c f g h e = inl (f refl)
one_of false true c f g h e = inr (inl (g refl))
one_of false false true f g h e = inr (inr (h refl))
one_of false false false f g h e = absurd (ground arith)

none_of :
    {P Q R : Type 0} (a b c : Bool)
    → (P → a ≡ true)
    → (Q → b ≡ true)
    → (R → c ≡ true)
    → (a || b || c) ≡ false
    → ¬ (P ⊎ Q ⊎ R)
none_of a b c f g h e (inl p) = ground (arith, f p)
none_of a b c f g h e (inr (inl q)) = ground (arith, g q)
none_of a b c f g h e (inr (inr r)) = ground (arith, h r)

module _ (json : JsonCodec) (trimmed : List Header → List Header) (bound : ℕ) where
  abbrev pub text_of : QueueMessage → String
  text_of m = json.encode (message_value m)

  pub delivered-queue :
      (time : ℕ) (m : QueueMessage) (st : State) (name : String)
      → queue_of name (delivered json trimmed bound time m st)
        ≡ (if str_eq m.to name then queue_of m.to st ++ text_of m ∷ [] else queue_of name st)
  unfolding queue_of
  delivered-queue time m st name = empty-put m.to name _ st.queues

  -- Of a script's three answers, with what each tells.
  abbrev pub Outcomes : ℕ → QueueMessage → State → State × Push → Type 0
  Outcomes time m st (st', pushed) =
      (length (queue_of m.to st) < bound)
      × (¬ HasWrongKey m st)
      × (st' ≡ delivered json trimmed bound time m st)
  Outcomes time m st (st', full) = (bound ≤ length (queue_of m.to st)) × (st' ≡ st)
  Outcomes time m st (st', refused) =
      (length (queue_of m.to st) < bound) × HasWrongKey m st × (st' ≡ st)

  pub push-Outcomes :
      (time : ℕ) (m : QueueMessage) (st : State)
      → Outcomes time m st (bounded_push json trimmed bound time m st)
  unfolding bounded_push
  push-Outcomes time m st = elim (Bool-cases (leb bound (length (queue_of m.to st)))) [
    | inl no_room ↦ rw no_room ((leb_iff bound (length (queue_of m.to st))).0 no_room, refl)
    | inr room ↦ rw room (
        by_keys (room_left bound (length (queue_of m.to st)) room)
          (has_wrong_key json trimmed bound m st) refl)
  ]
    where
      by_keys :
          length (queue_of m.to st) < bound
          → (b : Bool) → has_wrong_key json trimmed bound m st ≡ b
          → Outcomes time m st
              (if b then (st, refused) else (delivered json trimmed bound time m st, pushed))
      by_keys room true e = (
        room,
        one_of (is_wrong (or_absent (lookup m.to st.metas)))
            (is_wrong (or_absent (lookup m.to st.events)))
            (is_wrong (or_absent (lookup (request_key m) st.outstanding)))
            (wrong_type_iff (lookup m.to st.metas)).0 (wrong_type_iff (lookup m.to st.events)).0
            (wrong_type_iff (lookup (request_key m) st.outstanding)).0 e,
        refl,
      )
      by_keys room false e = (
        room,
        none_of (is_wrong (or_absent (lookup m.to st.metas)))
            (is_wrong (or_absent (lookup m.to st.events)))
            (is_wrong (or_absent (lookup (request_key m) st.outstanding)))
            (wrong_type_iff (lookup m.to st.metas)).1 (wrong_type_iff (lookup m.to st.events)).1
            (wrong_type_iff (lookup (request_key m) st.outstanding)).1 e,
        refl,
      )

  pub push-IsBounded :
      (time : ℕ) (m : QueueMessage) (st : State)
      → IsBounded bound st
      → IsBounded bound (bounded_push json trimmed bound time m st).0
  push-IsBounded time m st b =
      by_push (bounded_push json trimmed bound time m st) (push-Outcomes time m st)
    where
      grown :
          (name : String) (c : Bool)
          → length (queue_of m.to st) < bound
          → length (if c then queue_of m.to st ++ text_of m ∷ [] else queue_of name st) ≤ bound
      grown name true room = omega (arith, length-append (queue_of m.to st) (text_of m ∷ []), room)
      grown name false room = b.entry name

      by_push : (p : State × Push) → Outcomes time m st p → IsBounded bound p.0
      by_push (st', pushed) (room, right, same) = record {
        entry = λ name.
            subst (λ q. length q ≤ bound)
              (sym (ap (queue_of name) same ∙ delivered-queue time m st name))
              (grown name (str_eq m.to name) room);
      }
      by_push (st', full) (no_room, same) = subst (IsBounded bound) (sym same) b
      by_push (st', refused) (room, wrong, same) = subst (IsBounded bound) (sym same) b

  module _ (others : ℕ → State → State) (time : ℕ → ℕ) where
    attempts-IsBounded :
        (more n : ℕ) (m : QueueMessage) (st : State)
        → ((k : ℕ) (s : State) → IsBounded bound s → IsBounded bound (others k s))
        → IsBounded bound st
        → IsBounded bound (attempts json trimmed bound others time more n m st).0
    unfolding attempts
    attempts-IsBounded zero n m st honest b = b
    attempts-IsBounded (suc more) n m st honest b =
        by_push (λ s c. attempts-IsBounded more (n + 1) m s honest c)
          (bounded_push json trimmed bound (time n) m (others n st))
          (push-IsBounded (time n) m (others n st) (honest n st b))
      where
        by_push :
            ((s : State)
              → IsBounded bound s
              → IsBounded bound (attempts json trimmed bound others time more (n + 1) m s).0)
            → (p : State × Push) → IsBounded bound p.0
            → IsBounded bound
                (answer json trimmed bound others time
                  (attempts json trimmed bound others time more (n + 1) m)
                  p).0
        by_push again (st', pushed) c = c
        by_push again (st', full) c = again st' c
        by_push again (st', refused) c = c

-- A send keeps every mailbox within the bound, if the other clients do.
pub send-IsBounded :
    (json : JsonCodec) (trimmed : List Header → List Header) (bound : ℕ)
    (others : ℕ → State → State) (time : ℕ → ℕ) (m : QueueMessage) (st : State)
    → ((k : ℕ) (s : State) → IsBounded bound s → IsBounded bound (others k s))
    → IsBounded bound st
    → IsBounded bound (send json trimmed bound others time m st).0
unfolding send
send-IsBounded json trimmed bound others time m st honest b =
    attempts-IsBounded json trimmed bound others time 10 0 m st honest b
