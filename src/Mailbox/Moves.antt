-- ===== src/Mailbox/Moves.antt =====
-- `receive`, `depth`, `ensureMailbox`, `deleteMailbox` and `migrateMessages` of
-- src/core/mailbox-store.ts, with migrate-messages.lua. A `receive` starts here at the moment at which
-- BLPOP answers; before the later calls of an operation other clients do `others n`.
pub mod Chunks
pub mod Laws
use gptqueue.Prelude.{
  ℕ, zero, suc, ◌+◌, ◌-◌, String, Bool, true, false, Option, none, some, List, [], ◌∷◌, ◌++◌,
  if◌then◌else◌, ◌||◌, ltb, ◌==◌, str_eq, length, take, drop, Dict, lookup, put, remove,
}
use gptqueue.Value.{Value}
use gptqueue.Outcome.{Outcome, ok, err, throws}
use gptqueue.Json.{JsonCodec}
use gptqueue.Mailbox.{
  Key, absent, holds, wrong_type, Meta, State, queue_of, or_absent, is_wrong, sized,
}

abbrev pub dlq_max_length : ℕ
dlq_max_length = 1000

-- LTRIM key 0 (bound - 1): a bound of 0 means the last index, and keeps all.
abbrev pub ltrim : ℕ → List String → List String
ltrim bound xs = if bound == 0 then xs else take bound xs

abbrev pub list_of : Key (List String) → List String
list_of (holds xs) = xs
list_of _ = []

-- LPUSH and LTRIM in a transaction: a key of another type is left as it is, and the answer, which
-- holds the errors, is not looked at.
abbrev pub parked : String → Key (List String) → Key (List String)
parked raw wrong_type = wrong_type
parked raw k = holds (ltrim dlq_max_length (raw ∷ list_of k))

module _ (json : JsonCodec) (others : ℕ → State → State) where
  abbrev pub park : String → String → State → State
  park name raw st = record st {
    dead = put name (parked raw (or_absent (lookup name st.dead))) st.dead;
  }

  abbrev pub resize_key :
      String → ℕ → Value → Key Meta → State → State × Outcome (Unit {0}) (Option Value)
  resize_key name n v wrong_type st = (st, throws)
  resize_key name n v k st = (record st { metas = put name (sized n k) st.metas }, ok (some v))

  abbrev pub resized : String → Value → State → State × Outcome (Unit {0}) (Option Value)
  resized name v st =
      resize_key name (length (queue_of name st)) v (or_absent (lookup name st.metas)) st

  abbrev pub parsed :
      String → String → Option Value → State → State × Outcome (Unit {0}) (Option Value)
  parsed name raw none st = (park name raw st, ok none)
  parsed name raw (some v) st = resized name v st

  abbrev pub popped : String → List String → State → State × Outcome (Unit {0}) (Option Value)
  popped name [] st = (st, ok none)
  popped name (raw ∷ rest) st =
      parsed name raw (json.decode raw) (others 1 (record st { queues = put name rest st.queues }))

  unfoldable pub receive : String → State → State × Outcome (Unit {0}) (Option Value)
  unfolding queue_of
  receive name st = let now = others 0 st in popped name (queue_of name now) now

  unfoldable pub depth : String → State → ℕ
  unfolding queue_of
  depth name st = length (queue_of name st)

  abbrev pub fresh_meta :
      ℕ → String → String → Key Meta → State → State × Outcome (Unit {0}) (Unit {0})
  fresh_meta bound created name wrong_type st = (st, throws)
  fresh_meta bound created name (holds m) st = (
    record st {
      metas =
          put name (holds (record m { max_size = some bound; created_at = some created })) st.metas;
    },
    ok tt,
  )
  fresh_meta bound created name absent st = (
    record st {
      metas =
          put name
            (holds
              (record { max_size = some bound; created_at = some created; current_size = none }))
            st.metas;
    },
    ok tt,
  )

  abbrev pub ensure_key :
      ℕ → String → String → Key Meta → State → State × Outcome (Unit {0}) (Unit {0})
  ensure_key bound created name absent st =
      let now = others 1 st in fresh_meta bound created name (or_absent (lookup name now.metas)) now
  ensure_key bound created name k st = (st, ok tt)

  -- `created` is the time at which the mailbox is made.
  unfoldable pub ensure_mailbox :
      ℕ → (created name : String) → State → State × Outcome (Unit {0}) (Unit {0})
  ensure_mailbox bound created name st =
      let now = others 0 st in ensure_key bound created name (or_absent (lookup name now.metas)) now

unfoldable pub delete_mailbox : String → State → State
delete_mailbox name st = record st { queues = remove name st.queues; metas = remove name st.metas }

abbrev pub chunk : ℕ
chunk = 256

-- RPUSH of a list in chunks; `more` bounds the number of chunks.
unfoldable pub rpush_chunks : ℕ → List String → List String → List String
rpush_chunks zero msgs dst = dst
rpush_chunks (suc more) [] dst = dst
rpush_chunks (suc more) msgs dst = rpush_chunks more (drop chunk msgs) (dst ++ take chunk msgs)

-- LPUSH of several elements: the last is then at the head.
unfoldable pub lpush : List String → List String → List String
lpush [] dst = dst
lpush (x ∷ xs) dst = lpush xs (x ∷ dst)

-- LPUSH in chunks of a list that is given from its tail.
unfoldable pub lpush_chunks : ℕ → List String → List String → List String
unfolding lpush
lpush_chunks zero msgs dst = dst
lpush_chunks (suc more) [] dst = dst
lpush_chunks (suc more) msgs dst = lpush_chunks more (drop chunk msgs) (lpush (take chunk msgs) dst)

unfoldable pub reverse : List String → List String
unfolding lpush
reverse xs = lpush xs []

abbrev pub moved_queues : String → String → List String → State → Dict (List String)
moved_queues src dst [] st = st.queues
moved_queues src dst (m ∷ ms) st =
    remove src (put dst (rpush_chunks (length (m ∷ ms)) (m ∷ ms) (queue_of dst st)) st.queues)

abbrev pub letters : String → Dict (Key (List String)) → List String
letters name dead = list_of (or_absent (lookup name dead))

abbrev pub moved_letters :
    String → String → ℕ → List String → Dict (Key (List String)) → Dict (Key (List String))
moved_letters src dst bound [] dead = dead
moved_letters src dst bound (m ∷ ms) dead = remove src (
    put dst
      (holds (ltrim bound (lpush_chunks (length (m ∷ ms)) (reverse (m ∷ ms)) (letters dst dead))))
      dead)

-- `bound` is absent where the dead letters stay.
abbrev pub moved_dead :
    String → String → Option ℕ → Dict (Key (List String)) → Dict (Key (List String))
moved_dead src dst none dead = dead
moved_dead src dst (some bound) dead = moved_letters src dst bound (letters src dead) dead

abbrev pub has_wrong_dead : String → String → Option ℕ → State → Bool
has_wrong_dead src dst none st = false
has_wrong_dead src dst (some bound) st =
    is_wrong (or_absent (lookup src st.dead)) || is_wrong (or_absent (lookup dst st.dead))

-- What the script answers; -1 is `claimed`.
pub data Moved : Type 0 where
  count : ℕ → Moved
  claimed refused : Moved

abbrev pub is_positive : Option ℕ → Bool
is_positive none = false
is_positive (some n) = ltb 0 n

-- migrate-messages.lua. `claims` is the size of the source's claims index, if its key is given.
unfoldable pub migrate_script : String → String → Option ℕ → Option ℕ → State → State × Moved
unfolding queue_of rpush_chunks lpush_chunks reverse
migrate_script src dst claims bound st =
    if str_eq src dst
    then (st, count 0)
    else if is_positive claims
    then (st, claimed)
    else if has_wrong_dead src dst bound st
    then (st, refused)
    else (
      record st {
        queues = moved_queues src dst (queue_of src st) st;
        dead = moved_dead src dst bound st.dead;
      },
      count (length (queue_of src st)),
    )

abbrev pub migration : State × Moved → State × Outcome (Unit {0}) ℕ
migration (st, count n) = (st, ok n)
migration (st, claimed) = (st, throws)
migration (st, refused) = (st, throws)

unfoldable pub migrate_messages :
    String → String → Option ℕ → Option ℕ → State → State × Outcome (Unit {0}) ℕ
unfolding migrate_script
migrate_messages src dst claims bound st = migration (migrate_script src dst claims bound st)
