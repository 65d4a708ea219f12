-- ===== src/Mailbox/Push/Attempts.antt =====
-- The attempts of `send` of src/core/mailbox-store.ts, whatever other clients do between them.
use gptqueue.Prelude.{
  ℕ, zero, suc, ◌+◌, ◌≤◌, ◌<◌, String, Bool, true, false, List, [], ◌∷◌, ◌++◌, ◌≡◌, ◌⊎◌, inl, inr,
  refl, ap, sym, subst, ◌∙◌, if◌then◌else◌, str_eq, str_eq_iff, length, arith,
}
use mathlib.Core.List.{append-nil}
use gptqueue.Outcome.{Outcome, ok, throws}
use gptqueue.Json.{JsonCodec}
use gptqueue.Mailbox.{QueueMessage, Header, State, queue_of}
use gptqueue.Mailbox.Push.{Push, pushed, full, refused, bounded_push, answer, attempts, send}
use gptqueue.Mailbox.Push.Laws.{HasWrongKey, Outcomes, push-Outcomes, delivered-queue, text_of}

module _ (others : ℕ → State → State) where
  -- What the other clients make of `st` before the attempts from number `n` on, the first `k` of them,
  -- if these attempts change nothing.
  abbrev pub state_after : ℕ → ℕ → State → State
  state_after zero n st = st
  state_after (suc k) n st = state_after k (n + 1) (others n st)

  -- The mailbox `name` has no room at any of the `k` attempts from number `n` on.
  abbrev pub WasFull : (bound k n : ℕ) → String → State → Type 0
  WasFull bound zero n name st = Unit
  WasFull bound (suc k) n name st =
      (bound ≤ length (queue_of name (others n st))) × WasFull bound k (n + 1) name (others n st)

module _ (json : JsonCodec) (trimmed : List Header → List Header) (bound : ℕ)
    (others : ℕ → State → State) where
  -- How an attempt that finds room on `s` ends, with what the mailbox `name` then holds.
  abbrev pub EndsOn : QueueMessage → State → String → State × Outcome (Unit {0}) Bool → Type 0
  EndsOn m s name (st', a) =
      (¬ HasWrongKey m s)
        × (a ≡ ok true)
        × (queue_of name st'
            ≡ queue_of name s
              ++ (if str_eq m.to name then text_of json trimmed bound m ∷ [] else []))
      ⊎ HasWrongKey m s × (a ≡ throws) × (st' ≡ s)

  -- How `more` attempts from number `n` on end: at the first that finds room, or with none.
  abbrev pub Ends :
      (more n : ℕ) → QueueMessage → State → String → State × Outcome (Unit {0}) Bool → Type 0
  Ends more n m st name (st', a) =
      ((k : ℕ) × (k < more)
        × WasFull others bound k n m.to st
        × (length (queue_of m.to (state_after others (suc k) n st)) < bound)
        × EndsOn m (state_after others (suc k) n st) name (st', a))
      ⊎ WasFull others bound more n m.to st × (a ≡ ok false) × (st' ≡ state_after others more n st)

  grown_by :
      (q to_q : List String) (c : Bool) (x : String)
      → (c ≡ true → to_q ≡ q)
      → (if c then to_q ++ x ∷ [] else q) ≡ q ++ (if c then x ∷ [] else [])
  grown_by q to_q true x h = ap (λ l. l ++ x ∷ []) (h refl)
  grown_by q to_q false x h = sym (append-nil q)

  one_more :
      (more n : ℕ) (m : QueueMessage) (st : State) (name : String)
      (r : State × Outcome (Unit {0}) Bool)
      → bound ≤ length (queue_of m.to (others n st))
      → Ends more (n + 1) m (others n st) name r
      → Ends (suc more) n m st name r
  one_more more n m st name (st', a) no_room (inl (k, lt, was_full, room, ends)) =
      inl (suc k, omega (arith, lt), (no_room, was_full), room, ends)
  one_more more n m st name (st', a) no_room (inr (was_full, e, same)) =
      inr ((no_room, was_full), e, same)

  module _ (time : ℕ → ℕ) where
    attempts-Ends :
        (more n : ℕ) (m : QueueMessage) (st : State) (name : String)
        → Ends more n m st name (attempts json trimmed bound others time more n m st)
    unfolding attempts
    attempts-Ends zero n m st name = inr (tt, refl, refl)
    attempts-Ends (suc more) n m st name =
        by_push (λ s. attempts-Ends more (n + 1) m s name)
          (bounded_push json trimmed bound (time n) m (others n st))
          (push-Outcomes json trimmed bound (time n) m (others n st))
      where
        by_push :
            ((s : State)
              → Ends more
                  (n + 1)
                  m
                  s
                  name
                  (attempts json trimmed bound others time more (n + 1) m s))
            → (p : State × Push) → Outcomes json trimmed bound (time n) m (others n st) p
            → Ends (suc more) n m st name (
                answer json trimmed bound others time
                  (attempts json trimmed bound others time more (n + 1) m)
                  p)
        by_push again (st', pushed) (room, right, same) = inl (
          zero,
          omega arith,
          tt,
          room,
          inl (
            right,
            refl,
            ap (queue_of name) same
                ∙ delivered-queue json trimmed bound (time n) m (others n st) name
                ∙ grown_by (queue_of name (others n st)) (queue_of m.to (others n st))
                    (str_eq m.to name) (text_of json trimmed bound m)
                    (λ e. ap (λ k. queue_of k (others n st)) ((str_eq_iff m.to name).0 e)),
          ),
        )
        by_push again (st', full) (no_room, same) =
            one_more more n m st name (attempts json trimmed bound others time more (n + 1) m st')
              no_room
              (subst
                (λ s.
                  Ends more (n + 1) m s name
                    (attempts json trimmed bound others time more (n + 1) m st'))
                same (again st'))
        by_push again (st', refused) (room, wrong, same) =
            inl (zero, omega arith, tt, room, inr (wrong, refl, same))

-- Whatever other clients do before each of its at most ten attempts, a send ends at the first one that
-- finds fewer messages than the bound in the mailbox of the recipient: it has then appended the message
-- to that mailbox, once, and to no other, and answers true, or it throws and changes nothing where a
-- key that it needs has another type. Where none of the ten finds room, it answers false, and it has
-- changed nothing.
pub send-appends :
    (json : JsonCodec) (trimmed : List Header → List Header) (bound : ℕ)
    (others : ℕ → State → State) (time : ℕ → ℕ) (m : QueueMessage) (st : State) (name : String)
    → Ends json trimmed bound others 10 0 m st name (send json trimmed bound others time m st)
unfolding send
send-appends json trimmed bound others time m st name =
    attempts-Ends json trimmed bound others time 10 0 m st name
