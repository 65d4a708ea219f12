-- ===== src/Claims/Scripts.antt =====
-- The other scripts of src/mcp-server/lua on claims: batch-claim, ack, renew, requeue and purge. A
-- script that Redis aborts, on a key of the wrong type, answers `raised`.
pub mod Laws
pub mod Renew
pub mod Letters
use gptqueue.Prelude.{
  ℕ, zero, suc, ◌+◌, ◌*◌, String, Bool, true, false, ◌&&◌, ◌||◌, not, Option, none, some, List, [],
  ◌∷◌, ◌++◌, if◌then◌else◌, ltb, leb, ◌==◌, str_eq, Dict, lookup, put, remove, take, drop, length,
  is_some,
}
use gptqueue.Value.{
  is_text, Value, str, obj, Fields, end, field, Items, prop, as_str, is_record, is_str,
}
use gptqueue.Claims.Codec.{TaskClaim, claim_value, Json, message_id, table_items, size_items, texts}
use gptqueue.Claims.State.{
  Slot, holds, wrong_type, Counter, State, zadd, zadd_xx, zrem, recover_count,
}
use gptqueue.Calendar.Text.{ms_from_iso, iso_from_ms}

-- claims-batch-claim.lua
pub data BatchClaim : Type 0 where
  nothing_pending at_ceiling raised : BatchClaim
  stored : String → BatchClaim

-- `maxConcurrent > 0` and as many claims outstanding; 0 stands for no limit.
abbrev pub is_full : ℕ → List (String × ℕ) → Bool
is_full max_concurrent index = ltb 0 max_concurrent && leb max_concurrent (length index)

module _ (json : Json) where
  abbrev pub materialize : State → TaskClaim → ℕ → List String → State × BatchClaim
  materialize st c score rest = (
    record st {
      claims = put c.claim_id (json.encode (claim_value c)) st.claims;
      index = zadd c.claim_id score st.index;
      inbox = holds rest;
    },
    stored (json.encode (claim_value c)),
  )

  abbrev pub claim_tasks : State → TaskClaim → ℕ → List String → List String → State × BatchClaim
  claim_tasks st c score [] rest = (st, nothing_pending)
  claim_tasks st c score (task ∷ tasks) rest =
      materialize st (record c { tasks = task ∷ tasks }) score rest

  abbrev pub claim_inbox : State → TaskClaim → ℕ → ℕ → Slot → State × BatchClaim
  claim_inbox st c score batch wrong_type = (st, raised)
  claim_inbox st c score batch (holds inbox) =
      claim_tasks st c score (take batch inbox) (drop batch inbox)

  -- `c` carries the first five arguments; its tasks are those that are popped.
  unfoldable pub batch_claim_script : TaskClaim → ℕ → ℕ → ℕ → State → State × BatchClaim
  batch_claim_script c score batch max_concurrent st =
      if is_full max_concurrent st.index
      then (st, at_ceiling)
      else claim_inbox st c score batch st.inbox

-- claims-ack.lua
pub data Ack : Type 0 where
  acked : ℕ → Ack
  unknown not_owner : Ack

-- DEL of the counter of each message with an id.
abbrev pub delete_key : Option String → String → Dict Counter → Dict Counter
delete_key none actor counters = counters
delete_key (some message) actor counters = remove (recover_count actor message) counters

unfoldable pub delete_counters : Json → String → List String → Dict Counter → Dict Counter
delete_counters json actor [] counters = counters
delete_counters json actor (task ∷ tasks) counters =
    delete_counters json actor tasks (delete_key (message_id json task) actor counters)

abbrev pub is_owner : Value → String → String → Bool
is_owner v actor session =
    is_text (prop "actor_id" v) actor && is_text (prop "session_id" v) session

module _ (json : Json) (claim_id actor session : String) where
  abbrev pub ack_owned : State → Value → Items → State × Ack
  ack_owned st v tasks =
      if is_owner v actor session
      then (
        record st {
          claims = remove claim_id st.claims;
          index = zrem claim_id st.index;
          counters = delete_counters json actor (texts tasks) st.counters;
        },
        acked (size_items tasks),
      )
      else (st, not_owner)

  abbrev pub ack_tasks : State → Value → Option Items → State × Ack
  ack_tasks st v none = (st, unknown)
  ack_tasks st v (some tasks) =
      if is_str (prop "claim_id" v) && is_str (prop "actor_id" v) && is_str (prop "session_id" v)
      then ack_owned st v tasks
      else (st, unknown)

  abbrev pub ack_decoded : State → Option Value → State × Ack
  ack_decoded st none = (st, unknown)
  ack_decoded st (some v) = ack_tasks st v (table_items (prop "tasks" v))

  abbrev pub ack_raw : State → Option String → State × Ack
  ack_raw st none = (st, unknown)
  ack_raw st (some raw) = ack_decoded st (json.decode raw)

  unfoldable pub ack_script : State → State × Ack
  unfolding delete_counters
  ack_script st = ack_raw st (lookup claim_id st.claims)
