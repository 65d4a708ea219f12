-- ===== src/Value.antt =====
-- Values that arrive as `unknown` in the TypeScript sources: what `JSON.parse` returns, or what a
-- caller hands over unchecked. The tests are those that the sources make on such values.
use gptqueue.Prelude.{
  ℕ, String, Bool, true, false, Option, none, some, List, [], ◌∷◌, if◌then◌else◌, str_eq,
  is_empty_text, ◌≡◌, refl,
}

mutual
  pub data Value : Type 0 where
    undefined : Value
    null : Value
    bool : Bool → Value
    -- A non-negative integer, and any other number.
    num : ℕ → Value
    other_num : Value
    str : String → Value
    arr : Items → Value
    obj : Fields → Value

  pub data Fields : Type 0 where
    end : Fields
    field : (name : String) (value : Value) (rest : Fields) → Fields

  pub data Items : Type 0 where
    cons : (first : Value) (rest : Items) → Items
    nil : Items

abbrev pub field_of : String → Fields → Value
field_of k end = undefined
field_of k (field j v fs) = if str_eq j k then v else field_of k fs

-- `value.k`, where `value` has passed `typeof value === "object" && value !== null`: an array has
-- no field of the names that the sources ask for.
abbrev pub prop : String → Value → Value
prop k (obj fs) = field_of k fs
prop k _ = undefined

-- `typeof value === "object" && value !== null`
abbrev pub is_record : Value → Bool
is_record (obj fs) = true
is_record (arr xs) = true
is_record _ = false

abbrev pub as_str : Value → Option String
as_str (str s) = some s
as_str _ = none

abbrev pub is_str : Value → Bool
is_str (str s) = true
is_str _ = false

-- `value === t`, for a text `t`.
abbrev pub is_text : Value → String → Bool
is_text (str s) t = str_eq s t
is_text _ t = false

-- `typeof value === "string" && value.length > 0`
abbrev pub as_nonempty : Value → Option String
as_nonempty (str s) = if is_empty_text s then none else some s
as_nonempty _ = none

abbrev pub cons_some : String → Option (List String) → Option (List String)
cons_some s none = none
cons_some s (some ss) = some (s ∷ ss)

-- An array whose entries are all strings; `none` for anything else.
abbrev pub str_items : Items → Option (List String)
str_items nil = some []
str_items (cons (str s) xs) = cons_some s (str_items xs)
str_items (cons _ xs) = none

abbrev pub of_strs : List String → Items
of_strs [] = nil
of_strs (s ∷ ss) = cons (str s) (of_strs ss)

pub str_items-of_strs : (ss : List String) → str_items (of_strs ss) ≡ some ss
str_items-of_strs [] = refl
str_items-of_strs (s ∷ ss) = rw (str_items-of_strs ss)
