-- ===== src/Calendar/Laws.antt =====
-- The dates of src/mcp-server/lua/claims-renew.lua: what the two conversions give back.
use gptqueue.Prelude.{
  ℕ, ◌+◌, ◌-◌, ◌*◌, ◌/◌, ◌≤◌, ◌<◌, ◌≡◌, if◌then◌else◌, leb, ltb, arith, ◌∙◌, refl,
}
use gptqueue.Calendar.{Civil, days_since_march, civil_from_days}
use native.Mathlib.Decide.{dec_le}

abbrev yoe_of : ℕ → ℕ
yoe_of doe = (doe - doe / 1460 + doe / 36524 - doe / 146096) / 365

abbrev year_start : ℕ → ℕ
year_start yoe = 365 * yoe + yoe / 4 - yoe / 100

yoe_bound : (doe : ℕ) → doe < 146097 → yoe_of doe < 400
yoe_bound doe h = omega arith

year_start_le : (doe : ℕ) → doe < 146097 → year_start (yoe_of doe) ≤ doe
year_start_le doe h = omega arith

doy_bound : (doe : ℕ) → doe < 146097 → doe ≤ year_start (yoe_of doe) + 365
doy_bound doe h = omega arith

-- The date that stands for day `doy` of the year `yoe` of an era, and the way back.
date_of : ℕ → ℕ → ℕ → Civil
date_of era yoe doy =
    let mp = (5 * doy + 2) / 153 in
    let m = if ltb mp 10 then mp + 3 else mp - 9 in
    record {
      year = if leb m 2 then yoe + era * 400 + 1 else yoe + era * 400;
      month = m;
      day = doy - (153 * mp + 2) / 5 + 1;
    }

module _ (era yoe doy : ℕ) (in_era : yoe < 400) (in_year : doy ≤ 365) where
  date_of_ranges :
      (0 < (date_of era yoe doy).month)
      × ((date_of era yoe doy).month ≤ 12)
      × (0 < (date_of era yoe doy).day)
      × ((date_of era yoe doy).day ≤ 31)
  unfolding date_of
  date_of_ranges = ground arith

  days-date_of :
      days_since_march
        (date_of era yoe doy).year
        (date_of era yoe doy).month
        (date_of era yoe doy).day
      ≡ era * 146097 + (year_start yoe + doy)
  unfolding date_of days_since_march
  days-date_of = ground arith

module _ (z : ℕ) where
  abbrev doe_of : ℕ
  doe_of = z - z / 146097 * 146097

  doe_bound : doe_of < 146097
  doe_bound = omega arith

  civil-date_of :
      civil_from_days z ≡ date_of (z / 146097) (yoe_of doe_of) (doe_of - year_start (yoe_of doe_of))
  unfolding civil_from_days date_of
  civil-date_of = refl

-- Of every day number, `iso_from_ms` computes a month from 1 to 12 and a day from 1 to 31.
pub civil_ranges :
    (z : ℕ)
    → (0 < (civil_from_days z).month)
      × ((civil_from_days z).month ≤ 12)
      × (0 < (civil_from_days z).day)
      × ((civil_from_days z).day ≤ 31)
civil_ranges z = rw (civil-date_of z) (
    date_of_ranges _ _ _ (yoe_bound _ (doe_bound z))
      (omega (arith, doy_bound _ (doe_bound z), year_start_le _ (doe_bound z))))

-- The date that `iso_from_ms` computes of a day number is the one that `ms_from_iso` takes back to
-- that number: the two conversions agree on every day of the Gregorian calendar, leap days included.
pub days-civil :
    (z : ℕ)
    → days_since_march (civil_from_days z).year (civil_from_days z).month (civil_from_days z).day
      ≡ z
days-civil z = rw (civil-date_of z) (
    days-date_of _ _ _ (yoe_bound _ (doe_bound z))
      (omega (arith, doy_bound _ (doe_bound z), year_start_le _ (doe_bound z)))
    ∙ omega (arith, year_start_le _ (doe_bound z)))

far_years : (y m d : ℕ) → 9999 < y → 0 < m → 0 < d → 3652365 ≤ days_since_march y m d
unfolding days_since_march
far_years y m d hy hm hd = ground arith

-- Day 3652364 is 9999-12-31.
pub year_bound : (z : ℕ) → z < 3652365 → (civil_from_days z).year ≤ 9999
year_bound z h =
    let (month, _, day, _) = civil_ranges z in
    elim (dec_le (civil_from_days z).year 9999) [
      | yes fine ↦ fine
      | no late ↦ absurd (
          omega (
            arith,
            far_years (civil_from_days z).year (civil_from_days z).month (civil_from_days z).day
                (omega arith) month day,
            days-civil z,
          ))
    ]
