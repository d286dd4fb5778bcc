-- ===== src/VnTime.antt =====
-- services/backend-api/src/platform/vn-time.ts: Vietnam wall-clock windows (UTC+7, no DST).
-- An instant is its number of milliseconds since 1970-01-01T00:00:00Z; a window end may lie before
-- that, so it is an integer. The parts of JavaScript's `Date` that the file uses are written out
-- for the years from 1970 to 9999: from the year 10000 on `toISOString` writes six digits and a sign,
-- which `slice(0, 10)` cuts short, and a `Date` ends in the year 275760. A `YYYY-MM-DD` key is the
-- record of its three fields.
pub mod Calendar
pub mod Windows
mod Tests
use solodesk.Prelude.{
  ℕ, zero, suc, ◌+◌, ◌-◌, ◌*◌, ◌/◌, ◌%◌, Bool, true, false, not, ◌&&◌, ◌||◌, ltb, ◌==◌,
  if◌then◌else◌,
}
use solodesk.Prelude.Int.{ℤ, pos, ◌-ℤ◌}

abbrev pub day_ms : ℕ
day_ms = 24 * 60 * 60 * 1000

abbrev pub vn_offset_ms : ℕ
vn_offset_ms = 7 * 60 * 60 * 1000

pub leap : ℕ → Bool
leap y = (y % 4 == 0 && not (y % 100 == 0)) || y % 400 == 0

pub year_days : ℕ → ℕ
year_days y = if leap y then 366 else 365

-- Months count from 0, as in `Date.UTC`.
pub month_days : Bool → ℕ → ℕ
month_days is_leap m =
    if m == 1
    then (if is_leap then 29 else 28)
    else if m == 3 || m == 5 || m == 8 || m == 10
    then 30
    else 31

-- The days before the year 1970 + k, and before a month of a year.
pub days_before_year : ℕ → ℕ
days_before_year zero = 0
days_before_year (suc k) = days_before_year k + year_days (1970 + k)

pub days_before_month : Bool → ℕ → ℕ
days_before_month is_leap zero = 0
days_before_month is_leap (suc m) = days_before_month is_leap m + month_days is_leap m

-- `Date.UTC(year, month, day)` in whole days; a month past December runs into the next years, and
-- day 0 is the last day of the month before.
pub date_utc : ℕ → ℕ → ℕ → ℕ
date_utc year month day =
    let y = year + month / 12 in
    days_before_year (y - 1970) + days_before_month (leap y) (month % 12) + day - 1

-- The year that a day falls in, counted from 1970 + k, and the day's place in it.
pub find_year : ℕ → ℕ → ℕ → ℕ × ℕ
find_year zero k d = (k, d)
find_year (suc fuel) k d = elim (ltb d (year_days (1970 + k))) [
  | true ↦ (k, d)
  | false ↦ find_year fuel (k + 1) (d - year_days (1970 + k))
]

-- Likewise for the months of a year, from month m.
pub find_month : ℕ → Bool → ℕ → ℕ → ℕ × ℕ
find_month zero is_leap m d = (m, d)
find_month (suc fuel) is_leap m d = elim (ltb d (month_days is_leap m)) [
  | true ↦ (m, d)
  | false ↦ find_month fuel is_leap (m + 1) (d - month_days is_leap m)
]

-- A calendar date, the month from 1 to 12 and the day from 1.
pub record CivilDate : Type 0 where
  pub year : ℕ
  pub month : ℕ
  pub day : ℕ

-- `new Date(day * DAY_MS).toISOString().slice(0, 10)`
pub iso_date : ℕ → CivilDate
iso_date d =
    let in_year = find_year (d + 1) 0 d in
    let in_month = find_month 12 (leap (1970 + in_year.0)) 0 in_year.1 in
    record { year = 1970 + in_year.0; month = in_month.0 + 1; day = in_month.1 + 1 }

-- `new Date(`${key}T00:00:00Z`)` in whole days.
pub day_number : CivilDate → ℕ
day_number c = date_utc c.year (c.month - 1) c.day

pub vn_date_key : ℕ → CivilDate
vn_date_key as_of = iso_date ((as_of + vn_offset_ms) / day_ms)

pub record Quarter : Type 0 where
  pub quarter : ℕ
  pub year : ℕ

pub current_quarter_of : ℕ → Quarter
current_quarter_of as_of =
    let key = vn_date_key as_of in record { quarter = (key.month - 1) / 3 + 1; year = key.year }

pub record Window : Type 0 where
  pub start : ℤ
  pub end : ℤ

-- The instant at which a Vietnam-local day begins.
abbrev pub vn_midnight : ℕ → ℤ
vn_midnight day = pos (day * day_ms) -ℤ pos vn_offset_ms

pub quarter_window_utc : ℕ → ℕ → Window
quarter_window_utc quarter year =
    let start_month = (quarter - 1) * 3 in
    record {
      start = vn_midnight (date_utc year start_month 1);
      end = vn_midnight (date_utc year (start_month + 3) 1);
    }

pub year_window_utc : ℕ → Window
year_window_utc year = record {
  start = vn_midnight (date_utc year 0 1);
  end = vn_midnight (date_utc (year + 1) 0 1);
}

pub month_window_utc : ℕ → Window
month_window_utc as_of =
    let key = vn_date_key as_of in
    record {
      start = vn_midnight (date_utc key.year (key.month - 1) 1);
      end = vn_midnight (date_utc key.year key.month 1);
    }

-- Both dates are at midnight, so `Math.round` has nothing to round.
pub days_until : ℕ → CivilDate → ℤ
days_until as_of date = pos (day_number date) -ℤ pos (day_number (vn_date_key as_of))
