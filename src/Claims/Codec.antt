-- ===== src/Claims/Codec.antt =====
-- How claims and messages are read from JSON, in src/core/task-claim-store.ts (`parseTaskClaim`) and
-- in the scripts claims-*.lua. The JSON codecs themselves, `JSON.parse` and `cjson`, are the
-- parameter `Json`; so are the clock texts of `Date`, the parameter `Clock`.
pub mod Laws
use gptqueue.Prelude.{ℕ, String, Option, none, some, List, [], ◌∷◌, ◌≡◌}
use gptqueue.Value.{
  Value, str, arr, obj, Items, nil, cons, end, field, prop, as_str, as_nonempty, str_items, of_strs,
}

pub record TaskClaim : Type 0 where
  pub claim_id : String
  pub actor_id : String
  pub session_id : String
  pub claimed_at : String
  pub expires_at : String
  pub tasks : List String

-- `cjson` encodes a table without elements as an object.
abbrev pub tasks_value : List String → Value
tasks_value [] = obj end
tasks_value (t ∷ ts) = arr (of_strs (t ∷ ts))

-- The table that claims-batch-claim.lua encodes.
abbrev pub claim_value : TaskClaim → Value
claim_value c = obj (
    field "claim_id" (str c.claim_id) (
      field "actor_id" (str c.actor_id) (
        field "session_id" (str c.session_id) (
          field "claimed_at" (str c.claimed_at)
            (field "expires_at" (str c.expires_at) (field "tasks" (tasks_value c.tasks) end))))))

-- `decode` is `none` where the text is no JSON. What a script encodes of a claim decodes to it.
pub record Json : Type 0 where
  pub encode : Value → String
  pub decode : String → Option Value
  pub decode-encode : (c : TaskClaim) → decode (encode (claim_value c)) ≡ some (claim_value c)

-- `date_parse` is `Date.parse`, with `none` for NaN; `to_iso` is `new Date(ms).toISOString()`, with
-- `none` for a RangeError.
pub record Clock : Type 0 where
  pub date_parse : String → Option ℕ
  pub to_iso : ℕ → Option String
  pub parse-to_iso : (ms : ℕ) (s : String) → to_iso ms ≡ some s → date_parse s ≡ some ms

infixl 5 ◌>>=◌
abbrev ◌>>=◌ {ℓ κ} : {A : Type ℓ} {B : Type κ} → Option A → (A → Option B) → Option B
none >>= f = none
some a >>= f = f a

abbrev pub tasks_of_value : Value → Option (List String)
tasks_of_value (arr xs) = str_items xs
tasks_of_value _ = none

-- `parseTaskClaim`, after `JSON.parse`. Its checks that the value is an object and that each field
-- has its type are those of the fields: only an object has any.
unfoldable pub claim_of_value : Value → Option TaskClaim
claim_of_value v = do
  claim_id ← as_str (prop "claim_id" v)
  actor_id ← as_str (prop "actor_id" v)
  session_id ← as_str (prop "session_id" v)
  claimed_at ← as_str (prop "claimed_at" v)
  expires_at ← as_str (prop "expires_at" v)
  tasks ← tasks_of_value (prop "tasks" v)
  some (record {
    claim_id = claim_id;
    actor_id = actor_id;
    session_id = session_id;
    claimed_at = claimed_at;
    expires_at = expires_at;
    tasks = tasks;
  })

-- The elements that `ipairs` visits, and that `#` counts, of a field that is a table: an object
-- has none. `none` if it is no table.
abbrev pub table_items : Value → Option Items
table_items (arr xs) = some xs
table_items (obj fs) = some nil
table_items _ = none

abbrev pub size_items : Items → ℕ
size_items nil = 0
size_items (cons x xs) = Prim.Native.Nat.suc (size_items xs)

-- The texts among the elements of `tasks`. A stored claim with other elements is read as without
-- them.
abbrev pub texts : Items → List String
texts nil = []
texts (cons (str s) xs) = s ∷ texts xs
texts (cons _ xs) = texts xs

module _ (json : Json) where
  open json use {decode}

  unfoldable pub parse_task_claim : String → Option TaskClaim
  unfolding claim_of_value
  parse_task_claim raw = decode raw >>= claim_of_value

  -- The message id of a task: a non-empty text under `id` of a decoded table.
  unfoldable pub message_id : String → Option String
  message_id task = do msg ← decode task; as_nonempty (prop "id" msg)
