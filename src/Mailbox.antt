-- ===== src/Mailbox.antt =====
-- The messages of src/core/types.ts and the Redis keys that src/core/mailbox-store.ts works on. A key
-- that another type may hold, and whose type a script tests, is a `Key`; an absent list is the empty
-- list.
pub mod Keys
pub mod Push
pub mod Moves
pub mod Receives
use Prim.Native.String.{◌++◌}
use gptqueue.Prelude.{
  ℕ, ◌+◌, ◌*◌, String, Bool, true, false, not, ◌&&◌, ◌||◌, Option, none, some, List, [],
  if◌then◌else◌, ltb, str_eq, is_empty_text, Dict, lookup, put, remove,
}
use gptqueue.Value.{Value, obj, field, end, str}
use gptqueue.Json.{optional}

pub data MessageType : Type 0 where
  task result status error ping : MessageType

-- `metadata` is a value of any type; `none` where the field is absent.
pub record QueueMessage : Type 0 where
  pub id : String
  pub from : String
  pub to : String
  pub timestamp : String
  pub kind : MessageType
  pub content : String
  pub metadata : Option Value
  pub in_reply_to : Option String

abbrev pub kind_text : MessageType → String
kind_text task = "task"
kind_text result = "result"
kind_text status = "status"
kind_text error = "error"
kind_text ping = "ping"

abbrev pub str_value : Option String → Option Value
str_value none = none
str_value (some s) = some (str s)

-- What `JSON.stringify` is given.
unfoldable pub message_value : QueueMessage → Value
message_value m = obj (
    field "id" (str m.id) (
      field "from" (str m.from) (
        field "to" (str m.to) (
          field "timestamp" (str m.timestamp) (
            field "type" (str (kind_text m.kind)) (
              field "payload"
                (obj (
                  field "content" (str m.content) (
                    optional "metadata" m.metadata
                      (optional "in_reply_to" (str_value m.in_reply_to) end))))
                end))))))

-- A Redis key: absent, of the type that its users expect, or of another type.
pub data Key (A : Type 0) : Type 0 where
  absent : Key A
  holds : A → Key A
  wrong_type : Key A

-- The hash `gptq:meta:<name>`.
pub record Meta : Type 0 where
  pub max_size : Option ℕ
  pub created_at : Option String
  pub current_size : Option ℕ

-- An entry of the stream of inbox events.
pub record Header : Type 0 where
  pub message_id : String
  pub kind : MessageType
  pub timestamp : String
  pub from : String
  pub to : String
  pub in_reply_to : String

-- A text with the instant, in milliseconds, at which Redis lets it expire.
pub record Expiring : Type 0 where
  pub text : String
  pub deadline : ℕ

pub record State : Type 0 where
  -- gptq:q:<name>
  pub queues : Dict (List String)
  -- gptq:meta:<name>
  pub metas : Dict (Key Meta)
  -- gptq:dlq:<name>
  pub dead : Dict (Key (List String))
  -- gptq:inbox-events:<name>
  pub events : Dict (Key (List Header))
  -- gptq:outstanding:<agent>:<request>
  pub outstanding : Dict (Key Expiring)
  -- gptq:idempotency:<sender>:<key>
  pub sent : Dict Expiring

abbrev pub or_empty : Option (List String) → List String
or_empty none = []
or_empty (some xs) = xs

-- LRANGE 0 -1
unfoldable pub queue_of : String → State → List String
queue_of name st = or_empty (lookup name st.queues)

abbrev pub or_absent : {A : Type 0} → Option (Key A) → Key A
or_absent none = absent
or_absent (some k) = k

abbrev pub is_wrong : {A : Type 0} → Key A → Bool
is_wrong wrong_type = true
is_wrong _ = false

abbrev pub no_meta : Meta
no_meta = record { max_size = none; created_at = none; current_size = none }

abbrev pub meta_of : Key Meta → Meta
meta_of (holds m) = m
meta_of _ = no_meta

-- `HSET … current_size n`
abbrev pub sized : ℕ → Key Meta → Key Meta
sized n k = holds (record (meta_of k) { current_size = some n })

abbrev pub outstanding_key : String → String → String
outstanding_key agent request = agent ++ (":" ++ request)

-- `message.payload.in_reply_to || …`
abbrev pub or_else : Option String → String → String
or_else none s = s
or_else (some r) s = if is_empty_text r then s else r

abbrev pub is_task : MessageType → Bool
is_task task = true
is_task _ = false

abbrev pub is_answer : MessageType → Bool
is_answer result = true
is_answer error = true
is_answer _ = false

abbrev pub is_reply : Option String → Bool
is_reply none = false
is_reply (some r) = not (is_empty_text r)

-- `eligible`
unfoldable pub eligible : QueueMessage → Bool
eligible m = is_task m.kind || (is_answer m.kind && is_reply m.in_reply_to)

-- The key of the request that a message makes or answers.
unfoldable pub request_key : QueueMessage → String
request_key m =
    if is_task m.kind
    then outstanding_key m.from m.id
    else outstanding_key m.to (or_else m.in_reply_to m.id)

abbrev pub header_of : QueueMessage → Header
header_of m = record {
  message_id = m.id;
  kind = m.kind;
  timestamp = m.timestamp;
  from = m.from;
  to = m.to;
  in_reply_to = or_else m.in_reply_to String.[];
}
