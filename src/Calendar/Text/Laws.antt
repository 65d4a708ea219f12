-- ===== src/Calendar/Text/Laws.antt =====
-- Instants as texts in src/mcp-server/lua/claims-renew.lua: what is written can be read back.
use Prim.Native.Char.{Char, code}
use native.Mathlib.Nat.{pow-suc}
use mathlib.Core.Path.{ap₂}
use gptqueue.Prelude.{
  ℕ, zero, suc, ◌+◌, ◌*◌, ◌/◌, ◌%◌, ◌<◌, ◌≡◌, ◌^◌, true, false, arith, String, refl, ap, ◌∙◌,
  ltb_iff, some, ◌==◌,
}
use gptqueue.Calendar.Text.{
  digit, fixed, widen, padded, is_digit, scan, number, ms_from_iso, iso_from_ms, civil_from_days,
  format_iso,
}
use gptqueue.Calendar.{civil_from_days, days_from_civil, Civil}
use gptqueue.Calendar.Laws.{civil_ranges, days-civil, year_bound}

code-digit : (k : ℕ) → k < 10 → code (digit k) ≡ 48 + k
code-digit zero h = refl
code-digit (suc zero) h = refl
code-digit (suc (suc zero)) h = refl
code-digit (suc (suc (suc zero))) h = refl
code-digit (suc (suc (suc (suc zero)))) h = refl
code-digit (suc (suc (suc (suc (suc zero))))) h = refl
code-digit (suc (suc (suc (suc (suc (suc zero)))))) h = refl
code-digit (suc (suc (suc (suc (suc (suc (suc zero))))))) h = refl
code-digit (suc (suc (suc (suc (suc (suc (suc (suc zero)))))))) h = refl
code-digit (suc (suc (suc (suc (suc (suc (suc (suc (suc zero))))))))) h = refl
code-digit (suc (suc (suc (suc (suc (suc (suc (suc (suc (suc k)))))))))) h = absurd (omega arith)

scan-digit :
    (n len k : ℕ) (s : String)
    → k < 10
    → scan n len (String.◌∷◌ (digit k) s) ≡ scan (n * 10 + k) (len + 1) s
unfolding scan
scan-digit n len k s h = ground (arith, code-digit k h)

scan-fixed :
    (w n len m : ℕ) (rest : String)
    → m < 10 ^ w
    → scan n len (fixed w m rest) ≡ scan (n * 10 ^ w + m) (len + w) rest
unfolding fixed
scan-fixed zero n len m rest h =
    let e : n * 10 ^ 0 + m ≡ n = omega arith in
    let f : len + 0 ≡ len = omega arith in rw (e, f) refl
scan-fixed (suc w) n len m rest h =
    let low : m / 10 < 10 ^ w = omega (arith, pow-suc 10 w) in
    let e : (n * 10 ^ w + m / 10) * 10 + m % 10 ≡ n * 10 ^ suc w + m =
      omega (arith, ap (λ (t : ℕ). n * t) (pow-suc 10 w)) in
    let f : len + w + 1 ≡ len + suc w = omega arith in
    scan-fixed w n len (m / 10) (String.◌∷◌ (digit (m % 10)) rest) low
    ∙ scan-digit _ _ (m % 10) rest (omega arith)
    ∙ ap₂ (λ a b. scan a b rest) e f

widen_fits : (fuel w n : ℕ) → n < 10 ^ w → widen fuel w n ≡ w
unfolding widen
widen_fits zero w n h = refl
widen_fits (suc fuel) w n h = rw ((ltb_iff n (10 ^ w)).1 h) refl

scan-padded : (w m : ℕ) (rest : String) → m < 10 ^ w → scan 0 0 (padded w m rest) ≡ scan m w rest
unfolding padded
scan-padded w m rest h =
    rw (widen_fits m w m h)
      (scan-fixed w 0 0 m rest h ∙ ap₂ (λ a b. scan a b rest) (omega arith) (omega arith))

scan_stops :
    (n len : ℕ) (c : Char) (s : String)
    → is_digit c ≡ false
    → scan n len (String.◌∷◌ c s) ≡ (n, len, String.◌∷◌ c s)
unfolding scan
scan_stops n len c s h = rw h refl

eq_self : (n : ℕ) → (n == n) ≡ true
eq_self n = ground arith

suc_ne_zero : (n : ℕ) → (suc n == 0) ≡ false
suc_ne_zero n = ground arith

-- A number written in a field of width `w + 1` that holds it is read back, up to its separator.
number-padded :
    (w m : ℕ) (c : Char) (rest : String)
    → m < 10 ^ suc w
    → is_digit c ≡ false
    → number (code c) (padded (suc w) m (String.◌∷◌ c rest)) ≡ some (m, suc w, rest)
unfolding number
number-padded w m c rest h nd =
    rw (scan-padded (suc w) m (String.◌∷◌ c rest) h, scan_stops m (suc w) c rest nd)
      (simp (eq_self, suc_ne_zero))

ms-format_iso :
    (c : Civil) (hour minute sec msec : ℕ)
    → c.year < 10000
    → c.month < 100
    → c.day < 100
    → hour < 100
    → minute < 100
    → sec < 100
    → msec < 1000
    → ms_from_iso (format_iso c hour minute sec msec)
      ≡ some (
          (days_from_civil c.year c.month c.day * 86400 + hour * 3600 + minute * 60 + sec) * 1000
          + msec)
unfolding ms_from_iso format_iso
ms-format_iso c hour minute sec msec hy hm hd hh hi hs hz =
    rw (number-padded 3 c.year "-" _ hy refl) (
      rw (number-padded 1 c.month "-" _ hm refl) (
        rw (number-padded 1 c.day "T" _ hd refl) (
          rw (number-padded 1 hour ":" _ hh refl) (
            rw (number-padded 1 minute ":" _ hi refl) (
              rw (number-padded 1 sec "." _ hs refl)
                (rw (number-padded 2 msec "Z" _ hz refl) refl))))))

-- An instant that `iso_from_ms` writes is read back by `ms_from_iso` as the same instant, up to the
-- end of the year 9999.
pub ms-iso : (ms : ℕ) → ms < 253402300800000 → ms_from_iso (iso_from_ms ms) ≡ some ms
unfolding iso_from_ms days_from_civil
ms-iso ms h =
    let z = ms / 1000 / 86400 + 719468 in
    let (m1, m2, d1, d2) = civil_ranges z in
    ms-format_iso (civil_from_days z) _ _ _ _ (omega (arith, year_bound z (omega arith)))
      (omega arith) (omega arith) (omega arith) (omega arith) (omega arith) (omega arith)
    ∙ ap some (omega (arith, days-civil z))
