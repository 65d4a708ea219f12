-- ===== src/Calendar/Text.antt =====
-- The texts of `ms_from_iso` and `iso_from_ms` in src/mcp-server/lua/claims-renew.lua: the pattern
-- of an ISO instant, `string.format`, and the conversions built on them.
pub mod Laws
use Prim.Native.Char.{Char, code}
use gptqueue.Prelude.{
  ℕ, zero, suc, ◌+◌, ◌-◌, ◌*◌, ◌/◌, ◌%◌, ◌^◌, String, Bool, ◌&&◌, Option, none, some, if◌then◌else◌,
  leb, ltb, ◌==◌, is_empty_text, ◌≡◌, refl,
}
use gptqueue.Calendar.{days_from_civil, civil_from_days, Civil}

abbrev pub digit : ℕ → Char
digit zero = "0"
digit (suc zero) = "1"
digit (suc (suc zero)) = "2"
digit (suc (suc (suc zero))) = "3"
digit (suc (suc (suc (suc zero)))) = "4"
digit (suc (suc (suc (suc (suc zero))))) = "5"
digit (suc (suc (suc (suc (suc (suc zero)))))) = "6"
digit (suc (suc (suc (suc (suc (suc (suc zero))))))) = "7"
digit (suc (suc (suc (suc (suc (suc (suc (suc zero)))))))) = "8"
digit _ = "9"

-- The last `w` decimal digits of `n`, in front of `rest`.
unfoldable pub fixed : ℕ → ℕ → String → String
fixed zero n rest = rest
fixed (suc w) n rest = fixed w (n / 10) (String.◌∷◌ (digit (n % 10)) rest)

-- The least width from `w` on that holds `n`, with fuel: `n` has at most `n + 1` digits.
unfoldable pub widen : ℕ → ℕ → ℕ → ℕ
widen zero w n = w
widen (suc fuel) w n = let wider = widen fuel (suc w) n in if ltb n (10 ^ w) then w else wider

-- `string.format('%0wd', n)`, in front of `rest`.
unfoldable pub padded : ℕ → ℕ → String → String
unfolding fixed widen
padded w n rest = fixed (widen n w n) n rest

abbrev pub is_digit : Char → Bool
is_digit c = leb b'0' (code c) && leb (code c) b'9'

-- `%d+` from a text: the number read, how many digits it has, and what follows.
unfoldable pub scan : ℕ → ℕ → String → ℕ × ℕ × String
scan n len String.[] = (n, len, String.[])
scan n len (String.◌∷◌ c s) =
    let rest = scan (n * 10 + (code c - b'0')) (len + 1) s in
    if is_digit c then rest else (n, len, String.◌∷◌ c s)

-- The text behind one separator.
abbrev pub behind : ℕ → String → Option String
behind sep String.[] = none
behind sep (String.◌∷◌ c s) = if code c == sep then some s else none

abbrev pub with_rest : ℕ → ℕ → Option String → Option (ℕ × ℕ × String)
with_rest n len none = none
with_rest n len (some s) = if len == 0 then none else some (n, len, s)

-- `(%d+)` and the separator that follows it in the pattern.
unfoldable pub number : ℕ → String → Option (ℕ × ℕ × String)
unfolding scan
number sep s = let (n, len, rest) = scan 0 0 s in with_rest n len (behind sep rest)

-- `while mslen < 3 do msv = msv * 10; mslen = mslen + 1 end`, by the rounds that are left.
abbrev pub scale : ℕ → ℕ → ℕ
scale zero v = v
scale (suc rounds) v = scale rounds (v * 10)

infixl 5 ◌>>=◌
abbrev ◌>>=◌ {ℓ κ} : {A : Type ℓ} {B : Type κ} → Option A → (A → Option B) → Option B
none >>= f = none
some a >>= f = f a

unfoldable pub ms_from_iso : String → Option ℕ
ms_from_iso s = do
  (y, _, s1) ← number b'-' s
  (mo, _, s2) ← number b'-' s1
  (d, _, s3) ← number b'T' s2
  (h, _, s4) ← number b':' s3
  (mi, _, s5) ← number b':' s4
  (se, _, s6) ← number b'.' s5
  (ms, len, s7) ← number b'Z' s6
  let secs = days_from_civil y mo d * 86400 + h * 3600 + mi * 60 + se
  if is_empty_text s7 then some (secs * 1000 + scale (3 - len) ms) else none

-- `string.format('%04d-%02d-%02dT%02d:%02d:%02d.%03dZ', …)`
unfoldable pub format_iso : Civil → ℕ → ℕ → ℕ → ℕ → String
format_iso c hour minute sec msec = padded 4 c.year (
    String.◌∷◌ "-" (
      padded 2 c.month (
        String.◌∷◌ "-" (
          padded 2 c.day (
            String.◌∷◌ "T" (
              padded 2 hour (
                String.◌∷◌ ":" (
                  padded 2 minute (
                    String.◌∷◌ ":" (
                      padded 2 sec
                        (String.◌∷◌ "." (padded 3 msec (String.◌∷◌ "Z" String.[])))))))))))))

unfoldable pub iso_from_ms : ℕ → String
iso_from_ms ms =
    let total = ms / 1000 in
    let rem = total % 86400 in
    format_iso (civil_from_days (total / 86400 + 719468)) (rem / 3600) (rem % 3600 / 60) (rem % 60)
      (ms - total * 1000)
