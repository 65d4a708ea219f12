-- ===== src/Tests/Codec.antt =====
-- A text format for every value, which stands for JSON in the concrete runs of the stores.
use Prim.Native.Char.{code}
use gptqueue.Prelude.{
  ℕ, String, true, false, Option, none, some, List, [], ◌∷◌, ◌≡◌, refl, ap, ◌∙◌, if◌then◌else◌,
  ◌==◌,
}
use gptqueue.Value.{
  Value, undefined, null, bool, num, other_num, str, arr, obj, Items, nil, cons, Fields, end, field,
}
use gptqueue.Json.{JsonCodec}
use gptqueue.Tests.Fixtures.{write, read, read-write, unary, count, count-unary}

pub data Token : Type 0 where
  nothing nought yes no other list pair record_of last : Token
  number : ℕ → Token
  text name : String → Token

-- The tokens of a value in prefix order, before those that follow.
abbrev mutual
  put : Value → List Token → List Token
  put undefined rest = nothing ∷ rest
  put null rest = nought ∷ rest
  put (bool true) rest = yes ∷ rest
  put (bool false) rest = no ∷ rest
  put (num n) rest = number n ∷ rest
  put other_num rest = other ∷ rest
  put (str s) rest = text s ∷ rest
  put (arr xs) rest = list ∷ put_items xs rest
  put (obj fs) rest = record_of ∷ put_fields fs rest

  put_items : Items → List Token → List Token
  put_items nil rest = last ∷ rest
  put_items (cons v xs) rest = pair ∷ put v (put_items xs rest)

  put_fields : Fields → List Token → List Token
  put_fields end rest = last ∷ rest
  put_fields (field k v fs) rest = name k ∷ put v (put_fields fs rest)

-- What has been read, with an end as both of the empty sequences.
pub data Part : Type 0 where
  whole : Value → Part
  parts : Items → Part
  entries : Fields → Part
  stop : Part

abbrev items_of : Part → Items
items_of (parts xs) = xs
items_of _ = nil

abbrev fields_of : Part → Fields
fields_of (entries fs) = fs
fields_of _ = end

abbrev value_of : Part → Value
value_of (whole v) = v
value_of _ = undefined

abbrev step : Token → List Part → List Part
step nothing st = whole undefined ∷ st
step nought st = whole null ∷ st
step yes st = whole (bool true) ∷ st
step no st = whole (bool false) ∷ st
step (number n) st = whole (num n) ∷ st
step other st = whole other_num ∷ st
step (text s) st = whole (str s) ∷ st
step last st = stop ∷ st
step list (xs ∷ st) = whole (arr (items_of xs)) ∷ st
step record_of (fs ∷ st) = whole (obj (fields_of fs)) ∷ st
step pair (v ∷ xs ∷ st) = parts (cons (value_of v) (items_of xs)) ∷ st
step (name k) (v ∷ fs ∷ st) = entries (field k (value_of v) (fields_of fs)) ∷ st
step _ st = st

abbrev run : List Token → List Part
run [] = []
run (t ∷ ts) = step t (run ts)

abbrev part_of_items : Items → Part
part_of_items nil = stop
part_of_items (cons v xs) = parts (cons v xs)

abbrev part_of_fields : Fields → Part
part_of_fields end = stop
part_of_fields (field k v fs) = entries (field k v fs)

items_of-part : (xs : Items) → items_of (part_of_items xs) ≡ xs
items_of-part nil = refl
items_of-part (cons v xs) = refl

fields_of-part : (fs : Fields) → fields_of (part_of_fields fs) ≡ fs
fields_of-part end = refl
fields_of-part (field k v fs) = refl

mutual
  pub run-put : (v : Value) (rest : List Token) → run (put v rest) ≡ whole v ∷ run rest
  run-put undefined rest = refl
  run-put null rest = refl
  run-put (bool true) rest = refl
  run-put (bool false) rest = refl
  run-put (num n) rest = refl
  run-put other_num rest = refl
  run-put (str s) rest = refl
  run-put (arr xs) rest =
      ap (step list) (run-put_items xs rest)
      ∙ ap (λ ys. whole (arr ys) ∷ run rest) (items_of-part xs)
  run-put (obj fs) rest =
      ap (step record_of) (run-put_fields fs rest)
      ∙ ap (λ gs. whole (obj gs) ∷ run rest) (fields_of-part fs)

  run-put_items :
      (xs : Items) (rest : List Token) → run (put_items xs rest) ≡ part_of_items xs ∷ run rest
  run-put_items nil rest = refl
  run-put_items (cons v xs) rest =
      ap (step pair)
        (run-put v (put_items xs rest) ∙ ap (λ st. whole v ∷ st) (run-put_items xs rest))
      ∙ ap (λ ys. parts (cons v ys) ∷ run rest) (items_of-part xs)

  run-put_fields :
      (fs : Fields) (rest : List Token) → run (put_fields fs rest) ≡ part_of_fields fs ∷ run rest
  run-put_fields end rest = refl
  run-put_fields (field k v fs) rest =
      ap (step (name k))
        (run-put v (put_fields fs rest) ∙ ap (λ st. whole v ∷ st) (run-put_fields fs rest))
      ∙ ap (λ gs. entries (field k v gs) ∷ run rest) (fields_of-part fs)

abbrev spell : Token → String
spell nothing = "u"
spell nought = "z"
spell yes = "t"
spell no = "f"
spell other = "o"
spell list = "l"
spell pair = "p"
spell record_of = "r"
spell last = "e"
spell (number n) = String.◌∷◌ "n" (unary n)
spell (text s) = String.◌∷◌ "s" s
spell (name k) = String.◌∷◌ "k" k

abbrev token_at : ℕ → String → Token
token_at c rest =
    if c == b'z'
    then nought
    else if c == b't'
    then yes
    else if c == b'f'
    then no
    else if c == b'o'
    then other
    else if c == b'l'
    then list
    else if c == b'p'
    then pair
    else if c == b'r'
    then record_of
    else if c == b'e'
    then last
    else if c == b'n'
    then number (count rest)
    else if c == b's'
    then text rest
    else if c == b'k'
    then name rest
    else nothing

abbrev token_of : String → Token
token_of String.[] = nothing
token_of (String.◌∷◌ c rest) = token_at (code c) rest

token_of-spell : (t : Token) → token_of (spell t) ≡ t
token_of-spell nothing = refl
token_of-spell nought = refl
token_of-spell yes = refl
token_of-spell no = refl
token_of-spell other = refl
token_of-spell list = refl
token_of-spell pair = refl
token_of-spell record_of = refl
token_of-spell last = refl
token_of-spell (number n) = ap number (count-unary n)
token_of-spell (text s) = refl
token_of-spell (name k) = refl

abbrev spell_all : List Token → List String
spell_all [] = []
spell_all (t ∷ ts) = spell t ∷ spell_all ts

abbrev tokens_of : List String → List Token
tokens_of [] = []
tokens_of (s ∷ ss) = token_of s ∷ tokens_of ss

pub tokens_of-spell : (ts : List Token) → tokens_of (spell_all ts) ≡ ts
tokens_of-spell [] = refl
tokens_of-spell (t ∷ ts) =
    ap (λ x. x ∷ tokens_of (spell_all ts)) (token_of-spell t)
    ∙ ap (λ xs. t ∷ xs) (tokens_of-spell ts)

abbrev only : List Part → Option Value
only (whole v ∷ []) = some v
only _ = none

abbrev pub json : JsonCodec
json = record {
  encode = λ v. write (spell_all (put v []));
  decode = λ s. only (run (tokens_of (read true s)));
  decode-encode = λ v is_json.
      ap (λ ss. only (run (tokens_of ss))) (read-write (spell_all (put v [])))
      ∙ ap (λ ts. only (run ts)) (tokens_of-spell (put v []))
      ∙ ap only (run-put v []);
}
