-- ===== src/Custody/Handoff/Laws.antt =====
-- What `admitHandoffRecord` of src/core/custody-model.ts admits, and where it fails.
use gptqueue.Prelude.{
  ℕ, String, Bool, true, not, ◌&&◌, Option, none, some, List, ◌≡◌, refl, ◌↔◌, arith, and_iff,
}
use gptqueue.Value.{
  Value, undefined, num, str, arr, obj, field, end, prop, is_record, as_nonempty, of_strs,
  str_items-of_strs,
}
use gptqueue.Outcome.{Outcome, ok, throws, ◌>>=◌, ◌>>◌, guard, or_err, or_throw}
use gptqueue.Custody.Handoff.{
  Author, origin, successor_reconstructed, TreeState, clean, dirty, HandoffRecord, CustodyErrorCode,
  invalid_inventory, is_one, as_tree, as_author, is_dirty, is_empty_inventory, as_inventory,
  as_str_array, is_string_array, admit_handoff_record, invalid_version, missing_head,
  invalid_tree_state, dirty_tree_without_inventory, missing_unfinished_work, invalid_authored_by,
  missing_next_step,
}
use gptqueue.Custody.Handoff.Fields.{
  tree_text, author_text, DescribesRest, Describes, as_nonempty_sound, as_nonempty_complete,
  as_tree_sound, as_author_sound, is_one_sound, nonempty_items_complete, as_inventory_sound,
  as_str_array_sound, is_string_items-of_strs, dirty_listed_sound, dirty_listed_complete,
}

-- The chain of guards over what it reads, and what it has read when it succeeds.
chain :
    Bool
    → Option String
    → Option TreeState
    → (TreeState → Bool)
    → Option (List String)
    → Bool
    → Option String
    → Option Author
    → Option String
    → Option (List String)
    → Outcome CustodyErrorCode HandoffRecord
chain version o_head o_tree listed o_inventory strings o_work o_author o_next o_hazards = do
  guard version invalid_version
  head ← or_err o_head missing_head
  tree ← or_err o_tree invalid_tree_state
  guard (listed tree) dirty_tree_without_inventory
  inventory ← or_err o_inventory invalid_inventory
  guard strings invalid_inventory
  work ← or_err o_work missing_unfinished_work
  author ← or_err o_author invalid_authored_by
  next ← or_err o_next missing_next_step
  hazards ← or_throw o_hazards
  ok (record {
    authored_by = author;
    repo_head = head;
    tracked_tree_state = tree;
    untracked_inventory = inventory;
    unfinished_work = work;
    hazards = hazards;
    next_step = next;
  })

chain-eq-ok :
    (version : Bool) (o_head : Option String) (o_tree : Option TreeState)
    (listed : TreeState → Bool) (o_inventory : Option (List String)) (strings : Bool)
    (o_work : Option String) (o_author : Option Author) (o_next : Option String)
    (o_hazards : Option (List String)) (h : HandoffRecord)
    → chain version o_head o_tree listed o_inventory strings o_work o_author o_next o_hazards ≡ ok h
    → (version ≡ true)
      × (o_head ≡ some h.repo_head)
      × (o_tree ≡ some h.tracked_tree_state)
      × (listed h.tracked_tree_state ≡ true)
      × (o_inventory ≡ some h.untracked_inventory)
      × (o_work ≡ some h.unfinished_work)
      × (o_author ≡ some h.authored_by)
      × (o_next ≡ some h.next_step)
      × (o_hazards ≡ some h.hazards)
unfolding chain
chain-eq-ok version o_head o_tree listed o_inventory strings o_work o_author o_next o_hazards h e =
    ground arith

is_record_of_prop : (v : Value) (k : String) (n : ℕ) → prop k v ≡ num n → is_record v ≡ true
is_record_of_prop (obj fs) k n e = refl
is_record_of_prop _ k n e = cc

admit_sound : (v : Value) (h : HandoffRecord) → admit_handoff_record v ≡ ok h → Describes v h
unfolding admit_handoff_record chain
admit_sound v h e =
    let (version, head, tree, listed, inventory, work, author, next, hazards) =
      chain-eq-ok (is_record v && is_one (prop "schema_version" v))
        (as_nonempty (prop "repo_head" v)) (as_tree (prop "tracked_tree_state" v))
        (λ t. not (is_dirty t && is_empty_inventory (prop "untracked_inventory" v)))
        (as_inventory (prop "untracked_inventory" v)) (is_string_array (prop "hazards" v))
        (as_nonempty (prop "unfinished_work" v)) (as_author (prop "authored_by" v))
        (as_nonempty (prop "next_step" v)) (as_str_array (prop "hazards" v)) h e in
    let (is_head, full_head) = as_nonempty_sound _ _ head in
    let (is_inventory, full_inventory) = as_inventory_sound _ _ inventory in
    let (is_work, full_work) = as_nonempty_sound _ _ work in
    let (is_next, full_next) = as_nonempty_sound _ _ next in
    record {
      rest = record {
        version = is_one_sound _ ((and_iff _ _).0 version).1;
        head = is_head;
        head_nonempty = full_head;
        tree = as_tree_sound _ _ tree;
        inventory = is_inventory;
        inventory_nonempty = full_inventory;
        dirty_listed = dirty_listed_sound _ _ _ listed is_inventory;
        work = is_work;
        work_nonempty = full_work;
        author = as_author_sound _ _ author;
        next = is_next;
        next_nonempty = full_next;
      };
      hazards = as_str_array_sound _ _ hazards;
    }

chain_complete :
    (version : Bool) (o_head : Option String) (o_tree : Option TreeState)
    (listed : TreeState → Bool) (o_inventory : Option (List String)) (strings : Bool)
    (o_work : Option String) (o_author : Option Author) (o_next : Option String)
    (o_hazards : Option (List String)) (h : HandoffRecord)
    → version ≡ true
    → o_head ≡ some h.repo_head
    → o_tree ≡ some h.tracked_tree_state
    → listed h.tracked_tree_state ≡ true
    → o_inventory ≡ some h.untracked_inventory
    → strings ≡ true
    → o_work ≡ some h.unfinished_work
    → o_author ≡ some h.authored_by
    → o_next ≡ some h.next_step
    → o_hazards ≡ some h.hazards
    → chain version o_head o_tree listed o_inventory strings o_work o_author o_next o_hazards ≡ ok h
unfolding chain
chain_complete version o_head o_tree listed o_inventory strings o_work o_author o_next o_hazards h
      e1 e2 e3 e4 e5 e6 e7 e8 e9 e10 =
    rw (e1, e2, e3, e4, e5, e6, e7, e8, e9, e10) refl

as_tree_complete : (t : TreeState) → as_tree (str (tree_text t)) ≡ some t
as_tree_complete clean = refl
as_tree_complete dirty = refl

as_author_complete : (a : Author) → as_author (str (author_text a)) ≡ some a
as_author_complete origin = refl
as_author_complete successor_reconstructed = refl

admit_complete : (v : Value) (h : HandoffRecord) → Describes v h → admit_handoff_record v ≡ ok h
unfolding admit_handoff_record chain
admit_complete v h d =
    chain_complete (is_record v && is_one (prop "schema_version" v))
      (as_nonempty (prop "repo_head" v)) (as_tree (prop "tracked_tree_state" v))
      (λ t. not (is_dirty t && is_empty_inventory (prop "untracked_inventory" v)))
      (as_inventory (prop "untracked_inventory" v)) (is_string_array (prop "hazards" v))
      (as_nonempty (prop "unfinished_work" v)) (as_author (prop "authored_by" v))
      (as_nonempty (prop "next_step" v)) (as_str_array (prop "hazards" v)) h
      (rw (is_record_of_prop v "schema_version" 1 d.version, d.version) refl)
      (rw d.head (as_nonempty_complete _ d.head_nonempty))
      (rw d.tree (as_tree_complete h.tracked_tree_state))
      (rw d.inventory (dirty_listed_complete _ _ d.dirty_listed))
      (rw d.inventory (nonempty_items_complete _ d.inventory_nonempty))
      (rw d.hazards (is_string_items-of_strs h.hazards))
      (rw d.work (as_nonempty_complete _ d.work_nonempty))
      (rw d.author (as_author_complete h.authored_by))
      (rw d.next (as_nonempty_complete _ d.next_nonempty))
      (rw d.hazards (str_items-of_strs h.hazards))

-- `admitHandoffRecord` returns the record `h` exactly for the values that describe `h`: version 1,
-- the texts of `h` in its fields, no empty entry where entries must not be empty, a non-empty
-- inventory if the tree is dirty, and an array of strings under `hazards`.
pub admit_iff : (v : Value) (h : HandoffRecord) → (admit_handoff_record v ≡ ok h) ↔ Describes v h
admit_iff v h = (admit_sound v h, admit_complete v h)

-- The value that a handoff record is written as.
abbrev pub to_value : HandoffRecord → Value
to_value h = obj (
    field "schema_version" (num 1) (
      field "authored_by" (str (author_text h.authored_by)) (
        field "repo_head" (str h.repo_head) (
          field "tracked_tree_state" (str (tree_text h.tracked_tree_state)) (
            field "untracked_inventory" (arr (of_strs h.untracked_inventory)) (
              field "unfinished_work" (str h.unfinished_work) (
                field "hazards" (arr (of_strs h.hazards))
                  (field "next_step" (str h.next_step) end))))))))

-- A record that `admitHandoffRecord` returned is admitted again, unchanged, from the value that it
-- is written as.
pub admit-to_value :
    (v : Value) (h : HandoffRecord)
    → admit_handoff_record v ≡ ok h
    → admit_handoff_record (to_value h) ≡ ok h
admit-to_value v h e =
    let d = admit_sound v h e in
    admit_complete (to_value h) h (record {
      rest = record {
        version = refl;
        head = refl;
        head_nonempty = d.head_nonempty;
        tree = refl;
        inventory = refl;
        inventory_nonempty = d.inventory_nonempty;
        dirty_listed = d.dirty_listed;
        work = refl;
        work_nonempty = d.work_nonempty;
        author = refl;
        next = refl;
        next_nonempty = d.next_nonempty;
      };
      hazards = refl;
    })

chain_throws :
    (version : Bool) (o_head : Option String) (o_tree : Option TreeState)
    (listed : TreeState → Bool) (o_inventory : Option (List String)) (strings : Bool)
    (o_work : Option String) (o_author : Option Author) (o_next : Option String) (h : HandoffRecord)
    → version ≡ true
    → o_head ≡ some h.repo_head
    → o_tree ≡ some h.tracked_tree_state
    → listed h.tracked_tree_state ≡ true
    → o_inventory ≡ some h.untracked_inventory
    → strings ≡ true
    → o_work ≡ some h.unfinished_work
    → o_author ≡ some h.authored_by
    → o_next ≡ some h.next_step
    → chain version o_head o_tree listed o_inventory strings o_work o_author o_next none ≡ throws
unfolding chain
chain_throws version o_head o_tree listed o_inventory strings o_work o_author o_next h e1 e2 e3 e4
      e5 e6 e7 e8 e9 =
    rw (e1, e2, e3, e4, e5, e6, e7, e8, e9) refl

-- A value that is right in every other field and has no `hazards` raises an exception in
-- `admitHandoffRecord`: it is neither admitted nor refused with an error code.
pub admit-hazards_undefined :
    (v : Value) (h : HandoffRecord)
    → DescribesRest v h
    → prop "hazards" v ≡ undefined
    → admit_handoff_record v ≡ throws
unfolding admit_handoff_record chain
admit-hazards_undefined v h d absent = rw absent (
    chain_throws (is_record v && is_one (prop "schema_version" v))
      (as_nonempty (prop "repo_head" v)) (as_tree (prop "tracked_tree_state" v))
      (λ t. not (is_dirty t && is_empty_inventory (prop "untracked_inventory" v)))
      (as_inventory (prop "untracked_inventory" v)) true (as_nonempty (prop "unfinished_work" v))
      (as_author (prop "authored_by" v)) (as_nonempty (prop "next_step" v)) h
      (rw (is_record_of_prop v "schema_version" 1 d.version, d.version) refl)
      (rw d.head (as_nonempty_complete _ d.head_nonempty))
      (rw d.tree (as_tree_complete h.tracked_tree_state))
      (rw d.inventory (dirty_listed_complete _ _ d.dirty_listed))
      (rw d.inventory (nonempty_items_complete _ d.inventory_nonempty)) refl
      (rw d.work (as_nonempty_complete _ d.work_nonempty))
      (rw d.author (as_author_complete h.authored_by))
      (rw d.next (as_nonempty_complete _ d.next_nonempty)))
