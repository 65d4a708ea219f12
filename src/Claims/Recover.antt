-- ===== src/Claims/Recover.antt =====
-- src/mcp-server/lua/claims-recover.lua: the tasks of expired claims go back to the inbox, or to the
-- dead-letter queue once they have come back too often.
pub mod Counts
pub mod Expiry
pub mod Ledgers
pub mod Laws
use gptqueue.Prelude.{
  zero, suc, ℕ, ◌+◌, ◌^◌, String, Bool, true, false, Option, none, some, List, [], ◌∷◌, ◌++◌, all,
  if◌then◌else◌, ltb, Dict, lookup, put, remove, take,
}
use gptqueue.Value.{Value, as_str, prop, Items}
use gptqueue.Claims.Codec.{Json, message_id, table_items, texts}
use gptqueue.Claims.State.{
  Slot, holds, Counter, count, negative, unusable, State, zrem, expired, recover_count,
}
use gptqueue.Prelude.{suc}

pub record Item : Type 0 where
  pub task : String
  pub counter_key : Option String

pub record Entry : Type 0 where
  pub id : String
  pub tasks : List Item

module _ (json : Json) where
  -- A counter is kept for a message with an id, of a claim with an actor id.
  abbrev pub counter_key_of : Option String → Option String → Option String
  counter_key_of (some actor) (some message) = some (recover_count actor message)
  counter_key_of _ _ = none

  unfoldable pub items_of : Option String → List String → List Item
  items_of actor [] = []
  items_of actor (task ∷ tasks) =
      record { task = task; counter_key = counter_key_of actor (message_id json task) }
      ∷ items_of actor tasks

  abbrev pub items_of_tasks : Option String → Option Items → List Item
  items_of_tasks actor none = []
  items_of_tasks actor (some xs) = items_of actor (texts xs)

  -- An entry for a claim that cannot be read has no tasks.
  abbrev pub items_of_value : Option Value → List Item
  items_of_value none = []
  items_of_value (some v) =
      items_of_tasks (as_str (prop "actor_id" v)) (table_items (prop "tasks" v))

  abbrev pub items_of_stored : Option String → List Item
  items_of_stored none = []
  items_of_stored (some raw) = items_of_value (json.decode raw)

  -- Pass 1: the claims that have expired, decoded.
  unfoldable pub plan : Dict String → List String → List Entry
  unfolding items_of
  plan claims [] = []
  plan claims (id ∷ ids) =
      record { id = id; tasks = items_of_stored (lookup id claims) } ∷ plan claims ids

-- An integer of at most 18 digits, and no other text.
abbrev pub incrementable : Option Counter → Bool
incrementable none = true
incrementable (some (count n)) = ltb n (10 ^ 18)
incrementable (some (negative n)) = ltb (n + 1) (10 ^ 18)
incrementable (some unusable) = false

abbrev pub key_ok : Dict Counter → Option String → Bool
key_ok counters none = true
key_ok counters (some key) = incrementable (lookup key counters)

abbrev pub counters_ok : Dict Counter → List Entry → Bool
counters_ok counters = all (λ entry. all (λ item. key_ok counters item.counter_key) entry.tasks)

-- What pass 2 writes beside the claims and their index, with the two numbers that it returns.
pub record Ledger : Type 0 where
  pub inbox : List String
  pub dlq : List String
  pub counters : Dict Counter
  pub recovered : ℕ
  pub deadlettered : ℕ

-- The number that INCR answers; it is not called on an unusable counter.
abbrev pub incr : Option Counter → Counter
incr none = count 1
incr (some (count n)) = count (n + 1)
incr (some (negative zero)) = count 0
incr (some (negative (suc n))) = negative n
incr (some unusable) = unusable

abbrev pub is_over : ℕ → Counter → Bool
is_over cap (count n) = ltb cap n
is_over cap _ = false

abbrev pub requeued : String → Ledger → Ledger
requeued task l = record l { inbox = l.inbox ++ task ∷ []; recovered = l.recovered + 1 }

module _ (recover_cap dlq_max_length : ℕ) where
  -- LPUSH, LTRIM to the newest, DEL
  abbrev pub quarantined : String → String → Ledger → Ledger
  quarantined key task l = record l {
    dlq = take dlq_max_length (task ∷ l.dlq);
    counters = remove key l.counters;
    deadlettered = l.deadlettered + 1;
  }

  abbrev pub counted : String → String → Counter → Ledger → Ledger
  counted key task c l =
      if is_over recover_cap c
      then quarantined key task l
      else requeued task (record l { counters = put key c l.counters })

  abbrev pub recover_with : String → Option String → Ledger → Ledger
  recover_with task none l = requeued task l
  recover_with task (some key) l = counted key task (incr (lookup key l.counters)) l

  unfoldable pub recover_item : Item → Ledger → Ledger
  recover_item item l = recover_with item.task item.counter_key l

  unfoldable pub recover_items : List Item → Ledger → Ledger
  unfolding recover_item
  recover_items [] l = l
  recover_items (item ∷ items) l = recover_items items (recover_item item l)

  unfoldable pub recover_entries : List Entry → Ledger → Ledger
  unfolding recover_items
  recover_entries [] l = l
  recover_entries (entry ∷ entries) l = recover_entries entries (recover_items entry.tasks l)

-- HDEL and ZREM of every entry.
unfoldable pub drop_claims : List String → Dict String → Dict String
drop_claims [] claims = claims
drop_claims (id ∷ ids) claims = drop_claims ids (remove id claims)

unfoldable pub drop_index : List String → List (String × ℕ) → List (String × ℕ)
drop_index [] index = index
drop_index (id ∷ ids) index = drop_index ids (zrem id index)

-- `{ recovered, deadlettered }`, or -1: a destination holds the wrong type.
pub data Recovery : Type 0 where
  done : (recovered deadlettered : ℕ) → Recovery
  corrupt : Recovery

abbrev pub written : State → List String → Ledger → State × Recovery
written st ids l = (
  record st {
    claims = drop_claims ids st.claims;
    index = drop_index ids st.index;
    inbox = holds l.inbox;
    dlq = holds l.dlq;
    counters = l.counters;
  },
  done l.recovered l.deadlettered,
)

abbrev pub opened : Dict Counter → List String → List String → Ledger
opened counters inbox dlq = record {
  inbox = inbox;
  dlq = dlq;
  counters = counters;
  recovered = 0;
  deadlettered = 0;
}

module _ (recover_cap dlq_max_length : ℕ) where
  abbrev pub pass_2 : State → List String → List Entry → Slot → Slot → State × Recovery
  pass_2 st ids entries (holds inbox) (holds dlq) =
      if counters_ok st.counters entries
      then written st ids
          (recover_entries recover_cap dlq_max_length entries (opened st.counters inbox dlq))
      else (st, corrupt)
  pass_2 st ids entries _ _ = (st, corrupt)

  abbrev pub passes : Json → State → List String → State × Recovery
  passes json st [] = (st, done 0 0)
  passes json st (id ∷ ids) = pass_2 st (id ∷ ids) (plan json st.claims (id ∷ ids)) st.inbox st.dlq

  unfoldable pub recover_script : Json → ℕ → State → State × Recovery
  unfolding expired plan recover_entries drop_claims drop_index
  recover_script json now st = passes json st (expired now st.index)
