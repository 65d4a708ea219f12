-- ===== src/Calendar.antt =====
-- `ms_from_iso`, `iso_from_ms` and `days_from_civil` of src/mcp-server/lua/claims-renew.lua: ISO
-- texts of instants and milliseconds since 1970. Numbers are natural: an instant before 1970 is not
-- modelled.
pub mod Text
pub mod Laws
use Prim.Native.Char.{Char, code}
use Prim.Native.String.{◌++◌ as append}
use gptqueue.Prelude.{
  ℕ, zero, suc, ◌+◌, ◌-◌, ◌*◌, ◌/◌, ◌%◌, ◌^◌, String, Bool, true, false, ◌&&◌, ◌||◌, Option, none,
  some, if◌then◌else◌, leb, ltb, ◌==◌,
}

-- The days from 0000-03-01 to a date of the proleptic Gregorian calendar.
unfoldable pub days_since_march : ℕ → ℕ → ℕ → ℕ
days_since_march y m d =
    let yy = if leb m 2 then y - 1 else y in
    let era = yy / 400 in
    let yoe = yy - era * 400 in
    let mp = if ltb 2 m then m - 3 else m + 9 in
    let doy = (153 * mp + 2) / 5 + d - 1 in
    let doe = yoe * 365 + yoe / 4 - yoe / 100 + doy in era * 146097 + doe

unfoldable pub days_from_civil : ℕ → ℕ → ℕ → ℕ
unfolding days_since_march
days_from_civil y m d = days_since_march y m d - 719468

pub record Civil : Type 0 where
  pub year : ℕ
  pub month : ℕ
  pub day : ℕ

-- The part of `iso_from_ms` that turns days into a date, after `z = days + 719468`.
unfoldable pub civil_from_days : ℕ → Civil
civil_from_days z =
    let era = z / 146097 in
    let doe = z - era * 146097 in
    let yoe = (doe - doe / 1460 + doe / 36524 - doe / 146096) / 365 in
    let y = yoe + era * 400 in
    let doy = doe - (365 * yoe + yoe / 4 - yoe / 100) in
    let mp = (5 * doy + 2) / 153 in
    let d = doy - (153 * mp + 2) / 5 + 1 in
    let m = if ltb mp 10 then mp + 3 else mp - 9 in
    record { year = if leb m 2 then y + 1 else y; month = m; day = d }
