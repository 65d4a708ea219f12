-- ===== src/Prelude/Texts.antt =====
-- The tests that the sources make on strings: `s.length === 0`, `s.trim().length === 0`, `===`.
use Prim.Native.Nat.{ℕ}
use Prim.Native.Char.{code}
use Prim.Native.String.{String}
use mathlib.Core.Path.{◌≡◌, refl}
use mathlib.Core.Logic.{◌↔◌}
use mathlib.Core.Bool.{Bool, true, false, ◌&&◌, ◌||◌}
use text.Mathlib.Text.{◌==◌}
use text.Mathlib.TextEquality.{eq_iff}
use gptqueue.Prelude.Tests
use gptqueue.Prelude.Tests.{leb, if◌then◌else◌}

-- `s === t`
abbrev pub str_eq : String → String → Bool
str_eq s t = s == t

pub str_eq_iff : (s t : String) → (str_eq s t ≡ true) ↔ (s ≡ t)
str_eq_iff s t = eq_iff s t

pub str_eq_refl : (s : String) → str_eq s s ≡ true
str_eq_refl s = (eq_iff s s).1 refl

-- `s.length === 0`
abbrev pub is_empty_text : String → Bool
is_empty_text String.[] = true
is_empty_text (String.◌∷◌ c s) = false

-- The code points that `trim` removes: white space and line ends.
unfoldable pub is_space : ℕ → Bool
is_space c =
    (leb 9 c && leb c 13)
    || Tests.◌==◌ c 32
    || Tests.◌==◌ c 160
    || Tests.◌==◌ c 0x1680
    || (leb 0x2000 c && leb c 0x200a)
    || Tests.◌==◌ c 0x2028
    || Tests.◌==◌ c 0x2029
    || Tests.◌==◌ c 0x202f
    || Tests.◌==◌ c 0x205f
    || Tests.◌==◌ c 0x3000
    || Tests.◌==◌ c 0xfeff

-- `s.trim().length === 0`
unfoldable pub is_blank : String → Bool
unfolding is_space
is_blank String.[] = true
is_blank (String.◌∷◌ c s) = is_space (code c) && is_blank s

-- `s.trimStart()`
unfoldable pub trim_start : String → String
unfolding is_space
trim_start String.[] = String.[]
trim_start (String.◌∷◌ c s) =
    let rest = trim_start s in if is_space (code c) then rest else String.◌∷◌ c s

-- `s.trimEnd()`
unfoldable pub trim_end : String → String
unfolding is_blank is_space
trim_end String.[] = String.[]
trim_end (String.◌∷◌ c s) =
    let rest = trim_end s in
    if is_space (code c) && is_blank s then String.[] else String.◌∷◌ c rest

-- `s.trim()`
unfoldable pub trim : String → String
unfolding trim_start trim_end
trim s = trim_end (trim_start s)

-- `s.startsWith(p)`
abbrev pub starts_with : String → String → Bool
starts_with s String.[] = true
starts_with String.[] (String.◌∷◌ d p) = false
starts_with (String.◌∷◌ c s) (String.◌∷◌ d p) = Tests.◌==◌ (code c) (code d) && starts_with s p
