-- ===== src/Mailbox/Push/Once.antt =====
-- That `sendIdempotent` of src/core/mailbox-store.ts sends once for a key.
use gptqueue.Prelude.{
  ℕ, zero, suc, ◌+◌, ◌≤◌, ◌<◌, String, Option, none, some, List, ◌≡◌, refl, subst, ◌∙◌, ltb_iff,
  str_eq_refl, lookup, lookup-put, arith,
}
use gptqueue.Outcome.{ok, err, throws}
use gptqueue.Json.{JsonCodec}
use gptqueue.Mailbox.{QueueMessage, Header, State}
use gptqueue.Mailbox.Push.{
  Push, pushed, refused, sent, duplicate, full, Reply, Sending, is_sent, remembered, push_unless,
  bounded_push, bounded_push_idempotent, reply, idempotent_attempts, send_idempotent,
}

module _ (json : JsonCodec) (trimmed : List Header → List Header) (bound : ℕ)
    (dedupe : String → String → String) (others : ℕ → State → State) (time : ℕ → ℕ) where
  -- What an answer of `sent` leaves behind, for a day from the time of some attempt.
  abbrev Remembers : String → QueueMessage → Sending json trimmed bound dedupe others time → Type 0
  Remembers key m (st, ok (sent, id)) =
      (id ≡ m.id)
      × ((n : ℕ) × (lookup key st.sent
            ≡ some (record { text = m.id; deadline = time n + 86400000 })))
  Remembers key m _ = Unit

  abbrev Replied : ℕ → String → QueueMessage → State × Reply json trimmed bound dedupe → Type 0
  Replied n key m (st, ok (some (sent, id))) =
      (id ≡ m.id)
      × (lookup key st.sent ≡ some (record { text = m.id; deadline = time n + 86400000 }))
  Replied n key m _ = Unit

  push-Replied :
      (n : ℕ) (key : String) (m : QueueMessage) (st : State)
      → Replied n key m (bounded_push_idempotent json trimmed bound dedupe (time n) key m st)
  unfolding bounded_push_idempotent
  push-Replied n key m st = by_key (is_sent json trimmed bound dedupe (time n) (lookup key st.sent))
    where
      by_push :
          (p : State × Push)
          → Replied n key m (remembered json trimmed bound dedupe (time n) key m p)
      by_push (st', pushed) = (
        refl,
        rw
            (
              lookup-put key key (record { text = m.id; deadline = time n + 86400000 }) st'.sent,
              str_eq_refl key,
            )
            refl,
      )
      by_push (st', Push.full) = tt
      by_push (st', refused) = tt

      by_key :
          (o : Option String)
          → Replied n key m (push_unless json trimmed bound dedupe (time n) key m o st)
      by_key none = by_push (bounded_push json trimmed bound (time n) m st)
      by_key (some id) = tt

  attempts-Remembers :
      (more n : ℕ) (key : String) (m : QueueMessage) (st : State)
      → Remembers key m (idempotent_attempts json trimmed bound dedupe others time more n key m st)
  unfolding idempotent_attempts
  attempts-Remembers zero n key m st = tt
  attempts-Remembers (suc more) n key m st =
      by_reply (λ s. attempts-Remembers more (n + 1) key m s)
        (bounded_push_idempotent json trimmed bound dedupe (time n) key m (others n st))
        (push-Replied n key m (others n st))
    where
      by_reply :
          ((s : State)
            → Remembers key m
                (idempotent_attempts json trimmed bound dedupe others time more (n + 1) key m s))
          → (p : State × Reply json trimmed bound dedupe) → Replied n key m p
          → Remembers key m (
              reply json trimmed bound dedupe others time
                (idempotent_attempts json trimmed bound dedupe others time more (n + 1) key m)
                p)
      by_reply again (st', ok (some (sent, id))) (same, there) = (same, (n, there))
      by_reply again (st', ok (some (duplicate, id))) h = tt
      by_reply again (st', ok (some (full, id))) h = tt
      by_reply again (st', ok none) h = again st'
      by_reply again (st', err e) h = tt
      by_reply again (st', throws) h = tt

  duplicate_found :
      (key id : String) (m : QueueMessage) (st : State) (deadline : ℕ)
      → lookup key (others 0 st).sent ≡ some (record { text = id; deadline = deadline })
      → time 0 < deadline
      → idempotent_attempts json trimmed bound dedupe others time 10 0 key m st
        ≡ (others 0 st, ok (duplicate, id))
  unfolding idempotent_attempts bounded_push_idempotent
  duplicate_found key id m st deadline there early =
      rw (there, (ltb_iff (time 0) deadline).1 early) refl

-- A message that was sent under a key is not sent again: within a day of the first attempt's time, a
-- further send by the same sender under that key changes nothing and answers the id of the first.
pub send_idempotent-once :
    (json : JsonCodec) (trimmed : List Header → List Header) (bound : ℕ)
    (dedupe : String → String → String) (others others' : ℕ → State → State) (time time' : ℕ → ℕ)
    (m m' : QueueMessage) (sender key id : String) (st st' : State)
    → send_idempotent json trimmed bound dedupe others time m sender key st ≡ (st', ok (sent, id))
    → ((n : ℕ) → time 0 ≤ time n)
    → time' 0 < time 0 + 86400000
    → lookup (dedupe sender key) (others' 0 st').sent ≡ lookup (dedupe sender key) st'.sent
    → send_idempotent json trimmed bound dedupe others' time' m' sender key st'
      ≡ (others' 0 st', ok (duplicate, m.id))
unfolding send_idempotent
send_idempotent-once json trimmed bound dedupe others others' time time' m m' sender key id st st' h
      later early kept =
    let (same, (n, there)) =
      subst (Remembers json trimmed bound dedupe others time (dedupe sender key) m) h
        (attempts-Remembers json trimmed bound dedupe others time 10 0 (dedupe sender key) m st) in
    duplicate_found json trimmed bound dedupe others' time' (dedupe sender key) m.id m' st'
      (time n + 86400000) (kept ∙ there) (omega (arith, early, later n))
