-- ===== src/Custody/Handoff/Fields.antt =====
-- What the fields of a handoff record say of the value it is read off: the helpers of
-- `admitHandoffRecord` in src/core/custody-model.ts.
use gptqueue.Prelude.{
  String, true, false, not, ◌&&◌, Option, none, some, List, [], ◌∷◌, ◌≡◌, refl, ap, ◌≢◌,
  is_empty_text, All, str_eq_iff, arith, Bool-cases, inl, inr, subst,
}
use gptqueue.Value.{
  Value, num, str, arr, Items, nil, cons, prop, as_nonempty, str_items, of_strs, cons_some,
}
use gptqueue.Custody.Handoff.{
  Author, origin, successor_reconstructed, TreeState, clean, dirty, HandoffRecord, is_one, as_tree,
  as_author, is_dirty, is_empty_inventory, nonempty_items, as_inventory, as_str_array,
  is_string_items,
}

abbrev pub tree_text : TreeState → String
tree_text clean = "clean"
tree_text dirty = "dirty"

abbrev pub author_text : Author → String
author_text origin = "origin"
author_text successor_reconstructed = "successor_reconstructed"

abbrev pub IsNonempty : String → Type 0
IsNonempty s = is_empty_text s ≡ false

-- What a value has to say, field by field, for a handoff record to be read off it: `hazards` apart.
pub record DescribesRest (v : Value) (h : HandoffRecord) : Type 0 where
  pub version : prop "schema_version" v ≡ num 1
  pub head : prop "repo_head" v ≡ str h.repo_head
  pub head_nonempty : IsNonempty h.repo_head
  pub tree : prop "tracked_tree_state" v ≡ str (tree_text h.tracked_tree_state)
  pub inventory : prop "untracked_inventory" v ≡ arr (of_strs h.untracked_inventory)
  pub inventory_nonempty : All IsNonempty h.untracked_inventory
  pub dirty_listed : h.tracked_tree_state ≡ dirty → h.untracked_inventory ≢ []
  pub work : prop "unfinished_work" v ≡ str h.unfinished_work
  pub work_nonempty : IsNonempty h.unfinished_work
  pub author : prop "authored_by" v ≡ str (author_text h.authored_by)
  pub next : prop "next_step" v ≡ str h.next_step
  pub next_nonempty : IsNonempty h.next_step

pub record Describes (v : Value) (h : HandoffRecord) : Type 0 where
  pub rest : DescribesRest v h
  pub open rest use *
  pub hazards : prop "hazards" v ≡ arr (of_strs h.hazards)

pub as_nonempty_sound :
    (v : Value) (s : String) → as_nonempty v ≡ some s → (v ≡ str s) × IsNonempty s
as_nonempty_sound (str t) s e = ground arith
as_nonempty_sound _ s e = cc

pub as_nonempty_complete : (s : String) → IsNonempty s → as_nonempty (str s) ≡ some s
as_nonempty_complete s e = rw e refl

pub as_tree_sound : (v : Value) (t : TreeState) → as_tree v ≡ some t → v ≡ str (tree_text t)
as_tree_sound (str s) t e = ground (arith, str_eq_iff s "clean", str_eq_iff s "dirty")
as_tree_sound _ t e = cc

pub as_author_sound : (v : Value) (a : Author) → as_author v ≡ some a → v ≡ str (author_text a)
as_author_sound (str s) a e =
    ground (arith, str_eq_iff s "origin", str_eq_iff s "successor_reconstructed")
as_author_sound _ a e = cc

pub is_one_sound : (v : Value) → is_one v ≡ true → v ≡ num 1
is_one_sound (num n) e = ground arith
is_one_sound _ e = cc

pub cons_some-eq-some :
    (s : String) (o : Option (List String)) (ss : List String)
    → cons_some s o ≡ some ss
    → (tl : List String) × (o ≡ some tl) × (s ∷ tl ≡ ss)
cons_some-eq-some s (some tl) ss e = (tl, refl, ground arith)
cons_some-eq-some s none ss e = cc

pub nonempty_items_sound :
    (xs : Items) (ss : List String)
    → nonempty_items xs ≡ some ss
    → (xs ≡ of_strs ss) × All IsNonempty ss
nonempty_items_sound nil [] e = (refl, tt)
nonempty_items_sound nil (s ∷ ss) e = cc
nonempty_items_sound (cons (str s) xs) ss e = elim (Bool-cases (is_empty_text s)) [
  | inl empty ↦ cc (rw empty at e)
  | inr full ↦
      let (tl, found, same) = cons_some-eq-some s (nonempty_items xs) ss (rw full at e) in
      let (here, later) = nonempty_items_sound xs tl found in
      subst (λ l. (cons (str s) xs ≡ of_strs l) × All IsNonempty l) same
        (ap (cons (str s)) here, (full, later))
]
nonempty_items_sound (cons _ xs) ss e = cc

pub nonempty_items_complete :
    (ss : List String) → All IsNonempty ss → nonempty_items (of_strs ss) ≡ some ss
nonempty_items_complete [] a = refl
nonempty_items_complete (s ∷ ss) (here, later) = rw (here, nonempty_items_complete ss later) refl

pub as_inventory_sound :
    (v : Value) (ss : List String)
    → as_inventory v ≡ some ss
    → (v ≡ arr (of_strs ss)) × All IsNonempty ss
as_inventory_sound (arr xs) ss e =
    let (same, full) = nonempty_items_sound xs ss e in (ap arr same, full)
as_inventory_sound _ ss e = cc

pub str_items_sound : (xs : Items) (ss : List String) → str_items xs ≡ some ss → xs ≡ of_strs ss
str_items_sound nil [] e = refl
str_items_sound nil (s ∷ ss) e = cc
str_items_sound (cons (str s) xs) ss e =
    let (tl, found, same) = cons_some-eq-some s (str_items xs) ss e in
    subst (λ l. cons (str s) xs ≡ of_strs l) same (ap (cons (str s)) (str_items_sound xs tl found))
str_items_sound (cons _ xs) ss e = cc

pub as_str_array_sound :
    (v : Value) (ss : List String) → as_str_array v ≡ some ss → v ≡ arr (of_strs ss)
as_str_array_sound (arr xs) ss e = ap arr (str_items_sound xs ss e)
as_str_array_sound _ ss e = cc

pub is_string_items-of_strs : (ss : List String) → is_string_items (of_strs ss) ≡ true
is_string_items-of_strs [] = refl
is_string_items-of_strs (s ∷ ss) = is_string_items-of_strs ss

pub dirty_listed_sound :
    (t : TreeState) (v : Value) (ss : List String)
    → not (is_dirty t && is_empty_inventory v) ≡ true
    → v ≡ arr (of_strs ss)
    → t ≡ dirty
    → ss ≢ []
dirty_listed_sound clean v ss g e d = cc
dirty_listed_sound dirty v ss g e d = λ none_listed. cc (rw (e, none_listed) at g)

pub dirty_listed_complete :
    (t : TreeState) (ss : List String)
    → (t ≡ dirty → ss ≢ [])
    → not (is_dirty t && is_empty_inventory (arr (of_strs ss))) ≡ true
dirty_listed_complete clean ss d = refl
dirty_listed_complete dirty [] d = absurd (d refl refl)
dirty_listed_complete dirty (s ∷ ss) d = refl
