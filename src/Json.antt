-- ===== src/Json.antt =====
-- `JSON.parse` and `JSON.stringify`, with `cjson` in the scripts, as the parameter of the stores: what
-- is written of a value that JSON can hold is read as that value.
use gptqueue.Prelude.{◌≤◌, String, Option, none, some, List, [], ◌∷◌, ◌≡◌}
use gptqueue.Value.{
  Value, undefined, null, bool, num, other_num, str, arr, obj, Items, nil, cons, Fields, end, field,
  of_strs,
}

-- Neither `undefined`, which JSON leaves out, nor a number that a double may not hold.
abbrev mutual
  pub IsJson : Value → Type 0
  IsJson undefined = ⊥
  IsJson null = Unit
  IsJson (bool b) = Unit
  IsJson (num n) = n ≤ 9007199254740991
  IsJson other_num = ⊥
  IsJson (str s) = Unit
  IsJson (arr xs) = AreJson xs
  IsJson (obj fs) = HaveJson fs

  pub AreJson : Items → Type 0
  AreJson nil = Unit
  AreJson (cons v xs) = IsJson v × AreJson xs

  pub HaveJson : Fields → Type 0
  HaveJson end = Unit
  HaveJson (field k v fs) = IsJson v × HaveJson fs

pub record JsonCodec : Type 0 where
  pub encode : Value → String
  pub decode : String → Option Value
  pub decode-encode : (v : Value) → IsJson v → decode (encode v) ≡ some v

pub strs-AreJson : (ss : List String) → AreJson (of_strs ss)
strs-AreJson [] = tt
strs-AreJson (s ∷ ss) = (tt, strs-AreJson ss)

-- A field that is there only if it has a value, as in `...(x === undefined ? {} : { k: x })`.
abbrev pub optional : String → Option Value → Fields → Fields
optional k none fs = fs
optional k (some v) fs = field k v fs
