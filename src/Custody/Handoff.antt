-- ===== src/Custody/Handoff.antt =====
-- `admitHandoffRecord` and its helpers in src/core/custody-model.ts. `Object.freeze` and the copies
-- that are frozen have no counterpart: the values of the model are immutable.
pub mod Fields
pub mod Laws
use gptqueue.Prelude.{
  ℕ, String, Bool, true, false, not, ◌&&◌, Option, none, some, List, [], ◌∷◌, if◌then◌else◌, str_eq,
  is_empty_text, ◌==◌,
}
use gptqueue.Value.{
  Value, undefined, null, bool, num, other_num, str, arr, obj, Items, nil, cons, prop, is_record,
  as_str, as_nonempty, str_items, cons_some,
}
use gptqueue.Outcome.{Outcome, ok, ◌>>=◌, ◌>>◌, guard, or_err, or_throw}

pub data Author : Type 0 where
  origin successor_reconstructed : Author

pub data TreeState : Type 0 where
  clean dirty : TreeState

pub record HandoffRecord : Type 0 where
  pub authored_by : Author
  pub repo_head : String
  pub tracked_tree_state : TreeState
  pub untracked_inventory : List String
  pub unfinished_work : String
  pub hazards : List String
  pub next_step : String

pub data CustodyErrorCode : Type 0 where
  invalid_version missing_head invalid_tree_state dirty_tree_without_inventory : CustodyErrorCode
  invalid_inventory missing_unfinished_work invalid_authored_by missing_next_step : CustodyErrorCode
  already_held forfeited_requires_takeover invalid_custodian : CustodyErrorCode
  takeover_requires_inventory takeover_requires_forfeited not_held : CustodyErrorCode
  invalid_timestamp : CustodyErrorCode

-- `value === 1`
abbrev pub is_one : Value → Bool
is_one (num n) = n == 1
is_one _ = false

abbrev pub tree_of : String → Option TreeState
tree_of s = if str_eq s "clean" then some clean else if str_eq s "dirty" then some dirty else none

abbrev pub as_tree : Value → Option TreeState
as_tree (str s) = tree_of s
as_tree _ = none

abbrev pub author_of : String → Option Author
author_of s =
    if str_eq s "origin"
    then some origin
    else if str_eq s "successor_reconstructed"
    then some successor_reconstructed
    else none

abbrev pub as_author : Value → Option Author
as_author (str s) = author_of s
as_author _ = none

abbrev pub is_dirty : TreeState → Bool
is_dirty clean = false
is_dirty dirty = true

abbrev pub is_empty_inventory : Value → Bool
is_empty_inventory undefined = true
is_empty_inventory null = true
is_empty_inventory (arr nil) = true
is_empty_inventory _ = false

abbrev pub nonempty_items : Items → Option (List String)
nonempty_items nil = some []
nonempty_items (cons (str s) xs) = if is_empty_text s then none else cons_some s (nonempty_items xs)
nonempty_items (cons _ xs) = none

-- The entries of an inventory that `isInvalidInventory` does not reject.
abbrev pub as_inventory : Value → Option (List String)
as_inventory (arr xs) = nonempty_items xs
as_inventory _ = none

abbrev pub as_str_array : Value → Option (List String)
as_str_array (arr xs) = str_items xs
as_str_array _ = none

abbrev pub is_undefined : Value → Bool
is_undefined undefined = true
is_undefined _ = false

abbrev pub is_string_items : Items → Bool
is_string_items nil = true
is_string_items (cons (str s) xs) = is_string_items xs
is_string_items (cons _ xs) = false

abbrev pub is_string_array : Value → Bool
is_string_array undefined = true
is_string_array (arr xs) = is_string_items xs
is_string_array _ = false

-- The last step spreads `hazards`; a spread of `undefined` is a TypeError.
unfoldable pub admit_handoff_record : Value → Outcome CustodyErrorCode HandoffRecord
admit_handoff_record input = do
  guard (is_record input && is_one (prop "schema_version" input)) invalid_version
  head ← or_err (as_nonempty (prop "repo_head" input)) missing_head
  tree ← or_err (as_tree (prop "tracked_tree_state" input)) invalid_tree_state
  guard (not (is_dirty tree && is_empty_inventory (prop "untracked_inventory" input)))
      dirty_tree_without_inventory
  inventory ← or_err (as_inventory (prop "untracked_inventory" input)) invalid_inventory
  guard (is_string_array (prop "hazards" input)) invalid_inventory
  work ← or_err (as_nonempty (prop "unfinished_work" input)) missing_unfinished_work
  author ← or_err (as_author (prop "authored_by" input)) invalid_authored_by
  next ← or_err (as_nonempty (prop "next_step" input)) missing_next_step
  hazards ← or_throw (as_str_array (prop "hazards" input))
  ok (record {
    authored_by = author;
    repo_head = head;
    tracked_tree_state = tree;
    untracked_inventory = inventory;
    unfinished_work = work;
    hazards = hazards;
    next_step = next;
  })
