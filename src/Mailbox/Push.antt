-- ===== src/Mailbox/Push.antt =====
-- `send` and `sendIdempotent` of src/core/mailbox-store.ts with bounded-push.lua and
-- bounded-push-idempotent.lua. What a script decodes is the message, as the codec's law has it.
-- `trimmed` is what XADD with `MAXLEN ~ 1024` keeps; `dedupe` is the key of an idempotency key, with
-- `encodeURIComponent`; before attempt `n` other clients do `others n`, and it runs at `time n`.
pub mod Attempts
pub mod Laws
pub mod Once
use gptqueue.Prelude.{
  ℕ, zero, suc, ◌+◌, String, Bool, true, false, ◌&&◌, ◌||◌, Option, none, some, List, [], ◌∷◌, ◌++◌,
  if◌then◌else◌, ltb, leb, str_eq, length, Dict, lookup, put,
}
use gptqueue.Outcome.{Outcome, ok, err, throws}
use gptqueue.Json.{JsonCodec}
use gptqueue.Mailbox.{
  QueueMessage, Key, holds, Header, Expiring, State, queue_of, or_absent, is_wrong, sized, is_task,
  eligible, request_key, header_of, message_value,
}

-- What a push answers: 1, 0, or an error of the script.
pub data Push : Type 0 where
  pushed full refused : Push

abbrev pub unexpired : ℕ → Key Expiring → Option String
unexpired time (holds e) = if ltb time e.deadline then some e.text else none
unexpired time _ = none

abbrev pub is_owner : Option String → String → Bool
is_owner none name = false
is_owner (some owner) name = str_eq owner name

module _ (json : JsonCodec) (trimmed : List Header → List Header) (bound : ℕ) where
  abbrev pub add_event : Header → Key (List Header) → Key (List Header)
  add_event h (holds hs) = holds (trimmed (hs ++ h ∷ []))
  add_event h _ = holds (trimmed (h ∷ []))

  -- `notify`
  abbrev pub notifies : ℕ → QueueMessage → State → Bool
  notifies time m st =
      is_task m.kind
      || (eligible m
          && is_owner (unexpired time (or_absent (lookup (request_key m) st.outstanding))) m.from)

  abbrev pub notified : ℕ → QueueMessage → State → Dict (Key (List Header))
  notified time m st =
      if notifies time m st
      then put m.to (add_event (header_of m) (or_absent (lookup m.to st.events))) st.events
      else st.events

  -- `SET … EX 604800`
  abbrev pub asked : ℕ → QueueMessage → State → Dict (Key Expiring)
  asked time m st =
      if is_task m.kind
      then put (request_key m) (holds (record { text = m.to; deadline = time + 604800000 }))
          st.outstanding
      else st.outstanding

  abbrev pub delivered : ℕ → QueueMessage → State → State
  delivered time m st = record {
    queues = put m.to (queue_of m.to st ++ json.encode (message_value m) ∷ []) st.queues;
    metas =
        put m.to (sized (length (queue_of m.to st) + 1) (or_absent (lookup m.to st.metas)))
          st.metas;
    dead = st.dead;
    events = notified time m st;
    outstanding = asked time m st;
    sent = st.sent;
  }

  abbrev pub has_wrong_key : QueueMessage → State → Bool
  has_wrong_key m st =
      is_wrong (or_absent (lookup m.to st.metas))
      || is_wrong (or_absent (lookup m.to st.events))
      || is_wrong (or_absent (lookup (request_key m) st.outstanding))

  -- bounded-push.lua
  unfoldable pub bounded_push : ℕ → QueueMessage → State → State × Push
  unfolding queue_of eligible request_key
  bounded_push time m st =
      if leb bound (length (queue_of m.to st))
      then (st, full)
      else if has_wrong_key m st
      then (st, refused)
      else (delivered time m st, pushed)

  module _ (others : ℕ → State → State) (time : ℕ → ℕ) where
    abbrev pub answer :
        (State → State × Outcome (Unit {0}) Bool) → State × Push → State × Outcome (Unit {0}) Bool
    answer again (st, pushed) = (st, ok true)
    answer again (st, full) = again st
    answer again (st, refused) = (st, throws)

    -- The attempts from number `n` on, of which `more` are left.
    unfoldable pub attempts : ℕ → ℕ → QueueMessage → State → State × Outcome (Unit {0}) Bool
    unfolding bounded_push
    attempts zero n m st = (st, ok false)
    attempts (suc more) n m st =
        answer (attempts more (n + 1) m) (bounded_push (time n) m (others n st))

    unfoldable pub send : QueueMessage → State → State × Outcome (Unit {0}) Bool
    unfolding attempts
    send m st = attempts 10 0 m st

pub data SendStatus : Type 0 where
  sent duplicate full : SendStatus

module _ (json : JsonCodec) (trimmed : List Header → List Header) (bound : ℕ)
    (dedupe : String → String → String) where
  -- `none` asks for another attempt.
  abbrev pub Reply : Type 0
  Reply = Outcome (Unit {0}) (Option (SendStatus × String))

  abbrev pub is_sent : ℕ → Option Expiring → Option String
  is_sent time none = none
  is_sent time (some e) = if ltb time e.deadline then some e.text else none

  -- `SET … EX 86400`
  abbrev pub remembered : ℕ → String → QueueMessage → State × Push → State × Reply
  remembered time key m (st, pushed) = (
    record st { sent = put key (record { text = m.id; deadline = time + 86400000 }) st.sent },
    ok (some (sent, m.id)),
  )
  remembered time key m (st, Push.full) = (st, ok none)
  remembered time key m (st, refused) = (st, throws)

  abbrev pub push_unless : ℕ → String → QueueMessage → Option String → State → State × Reply
  push_unless time key m (some id) st = (st, ok (some (duplicate, id)))
  push_unless time key m none st = remembered time key m (bounded_push json trimmed bound time m st)

  -- bounded-push-idempotent.lua
  unfoldable pub bounded_push_idempotent : ℕ → String → QueueMessage → State → State × Reply
  unfolding bounded_push
  bounded_push_idempotent time key m st =
      push_unless time key m (is_sent time (lookup key st.sent)) st

  module _ (others : ℕ → State → State) (time : ℕ → ℕ) where
    abbrev pub Sending : Type 0
    Sending = State × Outcome (Unit {0}) (SendStatus × String)

    abbrev pub reply : (State → Sending) → State × Reply → Sending
    reply again (st, ok (some a)) = (st, ok a)
    reply again (st, ok none) = again st
    reply again (st, err e) = (st, err e)
    reply again (st, throws) = (st, throws)

    unfoldable pub idempotent_attempts : ℕ → ℕ → String → QueueMessage → State → Sending
    unfolding bounded_push_idempotent
    idempotent_attempts zero n key m st = (st, ok (full, m.id))
    idempotent_attempts (suc more) n key m st =
        reply (idempotent_attempts more (n + 1) key m)
          (bounded_push_idempotent (time n) key m (others n st))

    unfoldable pub send_idempotent : QueueMessage → (sender key : String) → State → Sending
    unfolding idempotent_attempts
    send_idempotent m sender key st = idempotent_attempts 10 0 (dedupe sender key) m st
