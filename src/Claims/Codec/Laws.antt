-- ===== src/Claims/Codec/Laws.antt =====
-- A claim that a script stores is read back by src/core/task-claim-store.ts.
use gptqueue.Prelude.{
  is_empty, false, arith, suc, String, some, List, [], ◌∷◌, ◌≡◌, refl, ap, length,
}
use gptqueue.Value.{of_strs, str_items-of_strs}
use gptqueue.Claims.Codec.{
  TaskClaim, claim_value, tasks_value, tasks_of_value, table_items, Json, claim_of_value,
  parse_task_claim, size_items, texts,
}

tasks_of-tasks_value :
    (ts : List String) → is_empty ts ≡ false → tasks_of_value (tasks_value ts) ≡ some ts
tasks_of-tasks_value [] h = absurd (ground arith)
tasks_of-tasks_value (t ∷ ts) h = str_items-of_strs (t ∷ ts)

claim_of-claim_value :
    (c : TaskClaim) → is_empty c.tasks ≡ false → claim_of_value (claim_value c) ≡ some c
unfolding claim_of_value
claim_of-claim_value c h = rw (tasks_of-tasks_value c.tasks h) refl

-- `parseTaskClaim` reads a claim of at least one task off what the scripts store for it, every field
-- and task.
pub parse-encode :
    (json : Json) (c : TaskClaim)
    → is_empty c.tasks ≡ false
    → parse_task_claim json (json.encode (claim_value c)) ≡ some c
unfolding parse_task_claim
parse-encode json c h = rw (json.decode-encode c) (claim_of-claim_value c h)

-- A script finds the tasks of a claim, also where there are none.
pub table_items-tasks_value : (ts : List String) → table_items (tasks_value ts) ≡ some (of_strs ts)
table_items-tasks_value [] = refl
table_items-tasks_value (t ∷ ts) = refl

pub texts-of_strs : (ss : List String) → texts (of_strs ss) ≡ ss
texts-of_strs [] = refl
texts-of_strs (s ∷ ss) = ap (◌∷◌ s) (texts-of_strs ss)

pub size-of_strs : (ss : List String) → size_items (of_strs ss) ≡ length ss
size-of_strs [] = refl
size-of_strs (s ∷ ss) = ap suc (size-of_strs ss)
