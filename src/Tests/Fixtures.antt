-- ===== src/Tests/Fixtures.antt =====
-- A text format that stands for JSON, and a clock, for the concrete runs: what the models ask of
-- `JSON.parse`, `cjson` and `Date` can be had.
use Prim.Native.Char.{Char, code}
use gptqueue.Prelude.{
  ℕ, zero, suc, String, Bool, true, false, Option, none, some, List, [], ◌∷◌, ◌≡◌, refl, ap, ◌∙◌,
  if◌then◌else◌, ◌==◌, ltb, ltb_iff, Bool-cases, inl, inr, arith,
}
use gptqueue.Value.{
  Value, Items, obj, field, end, str, num, prop, as_str, str_items, str_items-of_strs,
}
use gptqueue.Claims.Codec.{TaskClaim, claim_value, table_items, Clock}
use gptqueue.Claims.Codec.Laws.{table_items-tasks_value}
use gptqueue.Calendar.Text.{iso_from_ms, ms_from_iso}
use gptqueue.Calendar.Text.Laws.{ms-iso}
use gptqueue.Wake.{lease_value, Spawn}
use gptqueue.Claims.Codec
use gptqueue.Wake

-- Each character of a text behind a `1`, and a `0` at its end.
abbrev pub quote : String → String → String
quote String.[] rest = String.◌∷◌ "0" rest
quote (String.◌∷◌ c s) rest = String.◌∷◌ "1" (String.◌∷◌ c (quote s rest))

abbrev pub write : List String → String
write [] = String.[]
write (s ∷ ss) = quote s (write ss)

abbrev push : Char → List String → List String
push c [] = []
push c (s ∷ ss) = String.◌∷◌ c s ∷ ss

abbrev mark : Bool → List String → List String
mark true ss = String.[] ∷ ss
mark false ss = ss

-- Reads at a mark, or at a character behind a `1`.
abbrev pub read : Bool → String → List String
read at_mark String.[] = []
read true (String.◌∷◌ c s) = mark (code c == b'0') (read (code c == b'0') s)
read false (String.◌∷◌ c s) = push c (read true s)

read-quote : (s rest : String) → read true (quote s rest) ≡ s ∷ read true rest
read-quote String.[] rest = refl
read-quote (String.◌∷◌ c s) rest = ap (push c) (read-quote s rest)

pub read-write : (ss : List String) → read true (write ss) ≡ ss
read-write [] = refl
read-write (s ∷ ss) = read-quote s (write ss) ∙ ap (◌∷◌ s) (read-write ss)

abbrev texts_of_claim : Option TaskClaim → List String
texts_of_claim none = []
texts_of_claim (some c) =
    c.claim_id ∷ c.actor_id ∷ c.session_id ∷ c.claimed_at ∷ c.expires_at ∷ c.tasks

-- One text is a message with that id; five and more are a claim.
abbrev value_of_texts : List String → Option Value
value_of_texts (id ∷ []) = some (obj (field "id" (str id) end))
value_of_texts (a ∷ b ∷ c ∷ d ∷ e ∷ tasks) = some (
    claim_value (record {
      claim_id = a;
      actor_id = b;
      session_id = c;
      claimed_at = d;
      expires_at = e;
      tasks = tasks;
    }))
value_of_texts _ = none

abbrev stored_tasks : Option Items → Option (List String)
stored_tasks none = none
stored_tasks (some xs) = str_items xs

abbrev with_tasks :
    Option String
    → Option String
    → Option String
    → Option String
    → Option String
    → Option (List String)
    → Option TaskClaim
with_tasks (some a) (some b) (some c) (some d) (some e) (some tasks) = some (record {
  claim_id = a;
  actor_id = b;
  session_id = c;
  claimed_at = d;
  expires_at = e;
  tasks = tasks;
})
with_tasks _ _ _ _ _ _ = none

-- The claim that a value is, with or without tasks.
abbrev stored_claim : Value → Option TaskClaim
stored_claim v =
    with_tasks (as_str (prop "claim_id" v)) (as_str (prop "actor_id" v))
      (as_str (prop "session_id" v)) (as_str (prop "claimed_at" v)) (as_str (prop "expires_at" v))
      (stored_tasks (table_items (prop "tasks" v)))

pub stored-claim : (c : TaskClaim) → stored_claim (claim_value c) ≡ some c
stored-claim c = rw (table_items-tasks_value c.tasks, str_items-of_strs c.tasks) refl

abbrev pub claims_json : Codec.Json
claims_json = record {
  encode = λ v. write (texts_of_claim (stored_claim v));
  decode = λ s. value_of_texts (read true s);
  decode-encode = λ c.
      ap (λ o. value_of_texts (read true (write (texts_of_claim o)))) (stored-claim c)
      ∙ ap value_of_texts (read-write (texts_of_claim (some c)));
}

abbrev iso_before_10000 : ℕ → Option String
iso_before_10000 ms = if ltb ms 253402300800000 then some (iso_from_ms ms) else none

pub iso_before_10000-parse :
    (ms : ℕ) (s : String) → iso_before_10000 ms ≡ some s → ms_from_iso s ≡ some ms
iso_before_10000-parse ms s e = elim (Bool-cases (ltb ms 253402300800000)) [
  | inl early ↦ rw (same (rw early at e)) (ms-iso ms ((ltb_iff ms 253402300800000).0 early))
  | inr late ↦ absurd (nothing (rw late at e))
]
  where
    same : ◌≡◌ {A = Option String} (some (iso_from_ms ms)) (some s) → s ≡ iso_from_ms ms
    same h = ground arith

    nothing : ◌≡◌ {A = Option String} none (some s) → ⊥
    nothing h = ground arith

abbrev pub clock : Clock
clock = record {
  date_parse = ms_from_iso;
  to_iso = iso_before_10000;
  parse-to_iso = iso_before_10000-parse;
}

abbrev pub unary : ℕ → String
unary zero = String.[]
unary (suc n) = String.◌∷◌ "x" (unary n)

abbrev pub count : String → ℕ
count String.[] = 0
count (String.◌∷◌ c s) = suc (count s)

pub count-unary : (n : ℕ) → count (unary n) ≡ n
count-unary zero = refl
count-unary (suc n) = ap suc (count-unary n)

abbrev spawn_texts : Value → Value → List String
spawn_texts (num pid) (str at) = unary pid ∷ at ∷ []
spawn_texts _ _ = []

abbrev text_in : Value → String
text_in (str s) = s
text_in _ = String.[]

abbrev lease_texts : Value → List String
lease_texts v =
    text_in (prop "lease_id" v)
    ∷ text_in (prop "actor_id" v)
    ∷ text_in (prop "issued_by_session" v)
    ∷ text_in (prop "issued_at" v)
    ∷ text_in (prop "expires_at" v)
    ∷ spawn_texts (prop "spawned_pid" v) (prop "spawned_at" v)

abbrev lease_of_texts : List String → Option Value
lease_of_texts (a ∷ b ∷ c ∷ d ∷ e ∷ []) = some (lease_value a b c d e none)
lease_of_texts (a ∷ b ∷ c ∷ d ∷ e ∷ pid ∷ at ∷ []) =
    some (lease_value a b c d e (some (count pid, at)))
lease_of_texts _ = none

pub lease_of-texts :
    (a b c d e : String) (spawn : Spawn)
    → lease_of_texts (lease_texts (lease_value a b c d e spawn))
      ≡ some (lease_value a b c d e spawn)
lease_of-texts a b c d e none = refl
lease_of-texts a b c d e (some (pid, at)) =
    ap (λ n. some (lease_value a b c d e (some (n, at)))) (count-unary pid)

abbrev pub leases_json : Wake.Json
leases_json = record {
  encode = λ v. write (lease_texts v);
  decode = λ s. lease_of_texts (read true s);
  decode-encode = λ a b c d e spawn.
      ap lease_of_texts (read-write (lease_texts (lease_value a b c d e spawn)))
      ∙ lease_of-texts a b c d e spawn;
}
