-- ===== src/VnTime/Tests.antt =====
-- Runs of vn-time.ts, and the theorems at concrete instants.
use solodesk.Prelude.{ℕ, ◌≡◌, refl}
use solodesk.VnTime.{
  iso_date, day_number, vn_date_key, find_year, find_month, leap, year_days, month_days,
  current_quarter_of, quarter_window_utc, month_window_utc, year_window_utc,
}
use solodesk.VnTime.Calendar.{day_number-iso_date}
use solodesk.VnTime.Windows.{Contains, windows-Contains}

-- 2024-12-31T17:30:00Z is the first of January in Vietnam.
abbrev new_year : ℕ
new_year = 1735666200000

windows-Contains_example :
    Contains
      (quarter_window_utc (current_quarter_of new_year).quarter (current_quarter_of new_year).year)
      new_year
    × Contains (month_window_utc new_year) new_year
    × Contains (year_window_utc (current_quarter_of new_year).year) new_year
windows-Contains_example = windows-Contains new_year

day_number-iso_date_example : day_number (iso_date 19782) ≡ 19782
day_number-iso_date_example = day_number-iso_date 19782

-- The leap day of 2024 is day 19782, and the new year is 2025-01-01 in Vietnam.
dates :
    (iso_date 19782 ≡ record { year = 2024; month = 2; day = 29 })
    × (vn_date_key new_year ≡ record { year = 2025; month = 1; day = 1 })
unfolding iso_date vn_date_key find_year find_month leap year_days month_days
dates = (refl, refl)
