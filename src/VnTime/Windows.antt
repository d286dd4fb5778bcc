-- ===== src/VnTime/Windows.antt =====
-- The windows of vn-time.ts contain the instants that they are made for.
use mathlib.Core.Path.{subst₂}
use solodesk.Prelude.{ℕ, ◌+◌, ◌-◌, ◌*◌, ◌/◌, ◌≤◌, ◌<◌, ◌≡◌, arith, ap}
use solodesk.Prelude.Int.{pos, ◌-ℤ◌, ◌≤ℤ◌, ◌<ℤ◌, int_laws}
use solodesk.VnTime.{
  date_utc, CivilDate, day_number, day_ms, vn_offset_ms, vn_midnight, vn_date_key,
  current_quarter_of, quarter_window_utc, year_window_utc, month_window_utc, Window, days_until,
}
use solodesk.VnTime.Calendar.{IsPlaced, iso_date-IsPlaced, placed_in_span, day_number-iso_date}

-- start ≤ instant < end
abbrev pub Contains : Window → ℕ → Type 0
Contains w t = (w.start ≤ℤ pos t) × (pos t <ℤ w.end)

unfoldable pub vn_day : ℕ → ℕ
vn_day t = (t + vn_offset_ms) / day_ms

span-Contains :
    (t a b : ℕ)
    → a ≤ vn_day t
    → vn_day t < b
    → Contains (record { start = vn_midnight a; end = vn_midnight b }) t
unfolding vn_day
span-Contains t a b h k = (omega int_laws, omega int_laws)

pub vn_date_key-IsPlaced : (t : ℕ) → IsPlaced (vn_day t) (vn_date_key t)
unfolding vn_date_key vn_day
vn_date_key-IsPlaced t = iso_date-IsPlaced ((t + vn_offset_ms) / day_ms)

quarter_window_utc-Contains :
    (t : ℕ)
    → Contains (quarter_window_utc (current_quarter_of t).quarter (current_quarter_of t).year) t
unfolding quarter_window_utc current_quarter_of
quarter_window_utc-Contains t =
    let p = vn_date_key-IsPlaced t in
    let span =
      placed_in_span (vn_day t) (vn_date_key t) p (p.m / 3 * 3) (p.m / 3 * 3 + 3) (omega arith)
        (omega arith) (omega (arith, p.a_month)) in
    rw (p.the_month, months p.m) (span-Contains t _ _ span.0 span.1)
  where
    months : (m : ℕ) → ((m + 1 - 1) / 3 + 1 - 1) * 3 ≡ m / 3 * 3
    months m = omega arith

month_window_utc-Contains : (t : ℕ) → Contains (month_window_utc t) t
unfolding month_window_utc
month_window_utc-Contains t =
    let p = vn_date_key-IsPlaced t in
    let span =
      placed_in_span (vn_day t) (vn_date_key t) p p.m (p.m + 1) (omega arith) (omega arith)
        (omega (arith, p.a_month)) in
    rw (p.the_month, minus_one p.m) (span-Contains t _ _ span.0 span.1)
  where
    minus_one : (m : ℕ) → m + 1 - 1 ≡ m
    minus_one m = omega arith

next_january :
    (t : ℕ)
    → date_utc ((current_quarter_of t).year + 1) 0 1 ≡ date_utc (current_quarter_of t).year 12 1
unfolding current_quarter_of date_utc
next_january t = rw (one_more (vn_date_key t).year)
  where
    one_more : (y : ℕ) → y + 1 + 0 / 12 ≡ y + 12 / 12
    one_more y = omega arith

this_year-Contains :
    (t : ℕ)
    → Contains
        (record {
          start = vn_midnight (date_utc (current_quarter_of t).year 0 1);
          end = vn_midnight (date_utc (current_quarter_of t).year 12 1);
        })
        t
unfolding current_quarter_of
this_year-Contains t =
    let p = vn_date_key-IsPlaced t in
    let span =
      placed_in_span (vn_day t) (vn_date_key t) p 0 12 (omega arith) p.a_month (omega arith) in
    span-Contains t _ _ span.0 span.1

year_window_utc-Contains : (t : ℕ) → Contains (year_window_utc (current_quarter_of t).year) t
unfolding year_window_utc
year_window_utc-Contains t = rw next_january (this_year-Contains t)

-- Before the year 10000, every instant lies in the month window made from it, and in the windows of the quarter and of
-- the year that `currentQuarterOf` says it falls in: start ≤ instant < end in all three.
pub windows-Contains :
    (t : ℕ)
    → Contains (quarter_window_utc (current_quarter_of t).quarter (current_quarter_of t).year) t
      × Contains (month_window_utc t) t
      × Contains (year_window_utc (current_quarter_of t).year) t
windows-Contains t =
    (quarter_window_utc-Contains t, month_window_utc-Contains t, year_window_utc-Contains t)

-- `daysUntil` is the difference between the day number of the date and that of the Vietnam-local
-- day of the instant.
pub days_until_lem :
    (t : ℕ) (c : CivilDate)
    → days_until t c ≡ pos (day_number c) -ℤ pos ((t + vn_offset_ms) / day_ms)
unfolding days_until vn_date_key
days_until_lem t c =
    ap (λ (d : ℕ). pos (day_number c) -ℤ pos d) (day_number-iso_date ((t + vn_offset_ms) / day_ms))

-- The Vietnam-local day of an instant lies before the end of its quarter.
pub quarter_end_ahead :
    (t : ℕ)
    → (k : ℕ) × (1 ≤ (current_quarter_of t).quarter)
      × ((current_quarter_of t).quarter ≤ 4)
      × ((current_quarter_of t).year ≡ 1970 + k)
      × (vn_day t < date_utc (1970 + k) ((current_quarter_of t).quarter * 3) 1)
unfolding current_quarter_of
quarter_end_ahead t =
    let p = vn_date_key-IsPlaced t in
    let span =
      placed_in_span (vn_day t) (vn_date_key t) p p.m (p.m / 3 * 3 + 3) (omega arith) (omega arith)
        (omega (arith, p.a_month)) in
    (
      p.k,
      omega arith,
      rw p.the_month (omega (arith, p.a_month)),
      p.the_year,
      subst₂ (λ (y m : ℕ). vn_day t < date_utc y m 1) p.the_year (omega (arith, p.the_month))
          span.1,
    )
