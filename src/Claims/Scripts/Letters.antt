-- ===== src/Claims/Scripts/Letters.antt =====
-- src/mcp-server/lua/claims-requeue.lua and claims-purge.lua: a dead letter goes back to the inbox,
-- and the durable claim state of an actor is deleted.
pub mod Laws
use gptqueue.Prelude.{
  ℕ, String, Bool, false, Option, none, some, List, [], ◌∷◌, ◌++◌, if◌then◌else◌, str_eq, Dict,
  lookup, remove, length,
}
use gptqueue.Value.{Value, as_str, prop, Items}
use gptqueue.Claims.Codec.{Json, table_items, texts}
use gptqueue.Claims.State.{Slot, holds, wrong_type, State}
use gptqueue.Claims.Scripts.{delete_counters}

pub data Requeue : Type 0 where
  moved absent raised : Requeue

abbrev pub is_message : Option String → String → Bool
is_message none id = false
is_message (some s) id = str_eq s id

-- LREM key 1 payload
unfoldable pub lrem : String → List String → List String
lrem payload [] = []
lrem payload (p ∷ ps) = if str_eq p payload then ps else p ∷ lrem payload ps

module _ (json : Json) where
  abbrev pub id_of_value : Option Value → Option String
  id_of_value none = none
  id_of_value (some v) = as_str (prop "id" v)

  -- The first entry whose envelope has the id.
  unfoldable pub find_letter : String → List String → Option String
  find_letter id [] = none
  find_letter id (p ∷ ps) =
      if is_message (id_of_value (json.decode p)) id then some p else find_letter id ps

  abbrev pub push_letter : State → String → List String → String → Slot → State × Requeue
  push_letter st key dlq payload wrong_type = (st, raised)
  push_letter st key dlq payload (holds inbox) = (
    record st {
      inbox = holds (inbox ++ payload ∷ []);
      dlq = holds (lrem payload dlq);
      counters = remove key st.counters;
    },
    moved,
  )

  abbrev pub move_letter : State → String → List String → Option String → State × Requeue
  move_letter st key dlq none = (st, absent)
  move_letter st key dlq (some payload) = push_letter st key dlq payload st.inbox

  abbrev pub requeue_from : State → String → String → Slot → State × Requeue
  requeue_from st key id wrong_type = (st, raised)
  requeue_from st key id (holds dlq) = move_letter st key dlq (find_letter id dlq)

  unfoldable pub requeue_script : String → String → State → State × Requeue
  unfolding find_letter lrem
  requeue_script key id st = requeue_from st key id st.dlq

  abbrev pub texts_of : Option Items → List String
  texts_of none = []
  texts_of (some xs) = texts xs

  abbrev pub tasks_of_value : Option Value → List String
  tasks_of_value none = []
  tasks_of_value (some v) = texts_of (table_items (prop "tasks" v))

  abbrev pub tasks_of_stored : Option String → List String
  tasks_of_stored none = []
  tasks_of_stored (some raw) = tasks_of_value (json.decode raw)

  -- The messages of the claims that the index names.
  unfoldable pub claimed_tasks : Dict String → List (String × ℕ) → List String
  claimed_tasks claims [] = []
  claimed_tasks claims ((id, score) ∷ index) =
      tasks_of_stored (lookup id claims) ++ claimed_tasks claims index

  unfoldable pub delete_claims : List (String × ℕ) → Dict String → Dict String
  delete_claims [] claims = claims
  delete_claims ((id, score) ∷ index) claims = delete_claims index (remove id claims)

  abbrev pub letters : Slot → List String
  letters (holds dlq) = dlq
  letters wrong_type = []

  -- `purge_actor_claims`; the event and trace streams that it also deletes are not in `State`.
  unfoldable pub purge_script : String → State → State × ℕ
  unfolding claimed_tasks delete_claims delete_counters
  purge_script actor st = (
    record st {
      claims = delete_claims st.index st.claims;
      index = [];
      dlq = holds [];
      counters =
          delete_counters json actor (claimed_tasks st.claims st.index ++ letters st.dlq)
            st.counters;
    },
    length st.index,
  )
