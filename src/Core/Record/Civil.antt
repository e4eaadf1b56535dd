-- ===== src/Core/Record/Civil.antt =====
-- `days_to_civil` against the Gregorian calendar.
use bind9_sdk.Common.{
  Bool, true, not, ◌&&◌, ◌||◌, ◌==◌, ℕ, ◌+◌, ◌-◌, ◌*◌, ◌/◌, ◌^◌, ◌≤◌, ◌<◌, ◌≡◌, arith, leb, ltb,
  ◌%◌, ◌∙◌, if◌then◌else◌,
}
use bind9_sdk.Core.Record.{days_to_civil}

-- The days from 1 March of the year 0 to a date: years begin in March, so that the leap day is the
-- last of its year.
abbrev pub march_year : ℕ → ℕ → ℕ
march_year y m = if leb m 2 then y - 1 else y

abbrev pub march_month : ℕ → ℕ
march_month m = if leb m 2 then m + 9 else m - 3

abbrev pub ordinal : ℕ × ℕ × ℕ → ℕ
ordinal (y, m, d) =
    let r = march_year y m in
    365 * r + r / 4 - r / 100 + r / 400 + (153 * march_month m + 2) / 5 + (d - 1)

-- The year of a 400-year era in which its day `doe` lies, and the days before that year.
abbrev year_of_era : ℕ → ℕ
year_of_era doe = (doe - doe / 1460 + doe / 36524 - doe / 146096) / 365

abbrev year_start : ℕ → ℕ
year_start yoe = 365 * yoe + yoe / 4 - yoe / 100

year_of_era_bounds :
    (doe : ℕ)
    → doe < 146097
    → (year_of_era doe ≤ 399)
      × (year_start (year_of_era doe) ≤ doe)
      × (doe - year_start (year_of_era doe) ≤ 365)
year_of_era_bounds doe h = omega arith

-- Whole eras in front of a year add 146097 days each.
era_start :
    (era yoe : ℕ)
    → yoe ≤ 399
    → let r = yoe + era * 400 in 365 * r + r / 4 - r / 100 + r / 400 ≡ era * 146097 + year_start yoe
era_start era yoe h = omega arith

abbrev month_start : ℕ → ℕ
month_start mp = (153 * mp + 2) / 5

month_bounds :
    (doy : ℕ) → doy ≤ 365 → (month_start ((5 * doy + 2) / 153) ≤ doy) × ((5 * doy + 2) / 153 ≤ 11)
month_bounds doy h = omega arith

-- A date in March-based terms, turned into the civil one, has the ordinal that it was made from.
ordinal_of_parts :
    (r mp k : ℕ)
    → mp ≤ 11
    → r < 2 ^ 31
    → ordinal (
        let m = (if ltb mp 10 then mp + 3 else mp - 9) in
        ((if leb m 2 then r + 1 else r) % 2 ^ 32, m, k + 1))
      ≡ 365 * r + r / 4 - r / 100 + r / 400 + month_start mp + k
ordinal_of_parts r mp k h hr = ground arith

-- Days since 1970 below 2 ^ 32 become the date whose ordinal is larger by 719468, the days from 1
-- March of the year 0 to 1 January 1970.
pub days_to_civil-ordinal :
    (days : ℕ) → days < 2 ^ 32 → ordinal (days_to_civil days) ≡ days + 719468
unfolding days_to_civil
days_to_civil-ordinal days h =
    let z = days + 719468 in
    let era = z / 146097 in
    let doe = z - era * 146097 in
    let (small, starts, within) = year_of_era_bounds doe (omega arith) in
    let yoe = year_of_era doe in
    let doy = doe - year_start yoe in
    let (month, last) = month_bounds doy within in
    let mp = (5 * doy + 2) / 153 in
    ordinal_of_parts (yoe + era * 400) mp (doy - month_start mp) last (omega arith)
    ∙ omega (arith, era_start era yoe small)

abbrev pub is_leap : ℕ → Bool
is_leap y = (y % 4 == 0) && (not (y % 100 == 0) || (y % 400 == 0))

abbrev pub days_in_month : ℕ → ℕ → ℕ
days_in_month year month =
    if not (month == 2)
    then (if (month == 11) || (month == 9) || (month == 6) || (month == 4) then 30 else 31)
    else if is_leap year
    then 29
    else 28

leap_day :
    (doe : ℕ)
    → doe < 146097
    → doe - year_start (year_of_era doe) ≡ 365
    → is_leap (year_of_era doe + 1) ≡ true
leap_day doe h k = ground arith

month_fits :
    (r doy : ℕ)
    → doy ≤ 365
    → r < 2 ^ 31
    → (doy ≡ 365 → is_leap (r + 1) ≡ true)
    → let mp = (5 * doy + 2) / 153 in
      let m = (if ltb mp 10 then mp + 3 else mp - 9) in
      doy - month_start mp + 1 ≤ days_in_month ((if leb m 2 then r + 1 else r) % 2 ^ 32) m
month_fits r doy h hr k = ground arith

-- Leap years repeat with each era.
is_leap-era : (era y : ℕ) → is_leap (y + era * 400 + 1) ≡ is_leap (y + 1)
is_leap-era era y = ground arith

-- A date of the Gregorian calendar.
pub record IsDate (date : ℕ × ℕ × ℕ) : Type 0 where
  pub month_from : 1 ≤ date.1
  pub month_to : date.1 ≤ 12
  pub day_from : 1 ≤ date.2
  pub day_to : date.2 ≤ days_in_month date.0 date.1

-- Days since 1970 below 2 ^ 32 become a date of the Gregorian calendar: a month from 1 to 12, and a
-- day from 1 to the length of that month in that year.
pub days_to_civil-IsDate : (days : ℕ) → days < 2 ^ 32 → IsDate (days_to_civil days)
unfolding days_to_civil
days_to_civil-IsDate days h =
    let z = days + 719468 in
    let era = z / 146097 in
    let doe = z - era * 146097 in
    let (small, starts, within) = year_of_era_bounds doe (omega arith) in
    let yoe = year_of_era doe in
    let doy = doe - year_start yoe in
    let leap : (doy ≡ 365 → is_leap (yoe + era * 400 + 1) ≡ true) =
      λ k. is_leap-era era yoe ∙ leap_day doe (omega arith) k in
    let mp = (5 * doy + 2) / 153 in
    record {
      month_from = ground arith;
      month_to = ground arith;
      day_from = ground arith;
      day_to = month_fits (yoe + era * 400) doy within (omega arith) leap;
    }
