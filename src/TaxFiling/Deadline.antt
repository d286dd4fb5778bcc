-- ===== src/TaxFiling/Deadline.antt =====
-- Where the deadline lies: on the last day of the first month after the quarter.
use solodesk.Prelude.{
  ℕ, ◌+◌, ◌-◌, ◌*◌, ◌≤◌, ◌<◌, ◌≡◌, refl, false, inl, inr, arith, ltb, ltb→lt, Bool-cases,
}
use solodesk.Prelude.Int.{pos, ◌≤ℤ◌, int_laws}
use solodesk.VnTime.{days_until, leap, month_days, date_utc, iso_date, current_quarter_of}
use solodesk.VnTime.Calendar.{
  date_utc_at, iso_date-IsPlaced, date_utc_in_year, Fits, Fits-unique, IsPlaced-Fits,
  month_days_pos, month_after, february, january, day_number-iso_date, days_before_month-next,
}
use solodesk.VnTime.Windows.{vn_day, quarter_end_ahead, days_until_lem}
use solodesk.TaxFiling.{filing_deadline, current_quarter}

minus_one : (m : ℕ) → m + 1 - 1 ≡ m
minus_one m = omega arith

-- The place of the day before the first of month m + 1.
last_day-Fits :
    (k m : ℕ)
    → m < 12
    → Fits (date_utc (1970 + k) (m + 1) 0) k m (month_days (leap (1970 + k)) m - 1)
last_day-Fits k m h = record {
  a_month = h;
  within = omega (arith, month_days_pos (leap (1970 + k)) m);
  total = rw (date_utc_in_year k (m + 1) 0 (omega arith)) (
      omega
        (arith, month_days_pos (leap (1970 + k)) m, days_before_month-next (leap (1970 + k)) m));
}

-- `new Date(Date.UTC(year, month + 1, 0)).getUTCDate()`
last_day_lem :
    (k m : ℕ)
    → m < 12
    → (iso_date (date_utc (1970 + k) (m + 1) 0)).day ≡ month_days (leap (1970 + k)) m
last_day_lem k m h =
    let n = date_utc (1970 + k) (m + 1) 0 in
    let p = iso_date-IsPlaced n in
    let same = Fits-unique (IsPlaced-Fits p) (last_day-Fits k m h) in
    omega (arith, p.the_day, same.2, month_days_pos (leap (1970 + k)) m)

filing_deadline_within :
    (q k : ℕ) → q < 4 → filing_deadline q (1970 + k) + 1 ≡ date_utc (1970 + k) (q * 3 + 1) 1
unfolding filing_deadline
filing_deadline_within q k h =
    let small : ltb 12 (q * 3 + 1) ≡ false = ground arith in
    rw (small, last_day_lem k (q * 3) (omega arith), minus_one)
      (omega (
        arith,
        date_utc_in_year k (q * 3) (month_days (leap (1970 + k)) (q * 3)) (omega arith),
        date_utc_in_year k (q * 3 + 1) 1 (omega arith),
        month_days_pos (leap (1970 + k)) (q * 3),
        days_before_month-next (leap (1970 + k)) (q * 3),
      ))

filing_deadline_fourth :
    (k : ℕ) → filing_deadline 4 (1970 + k) + 1 ≡ date_utc (1970 + k) (4 * 3 + 1) 1
unfolding filing_deadline
filing_deadline_fourth k = omega (
  arith,
  date_utc_at (1970 + k + 1) 0 31 (k + 1) 0 (omega arith) refl,
  date_utc_at (1970 + k) 13 1 (k + 1) 1 (omega arith) refl,
  february (leap (1970 + (k + 1))),
  january (leap (1970 + (k + 1))),
)

-- The filing deadline of a quarter is the day before the second month after it begins: the last
-- calendar day of the first month of the next quarter, also over the end of a year.
pub filing_deadline_last_day :
    (q k : ℕ) → 1 ≤ q → q ≤ 4 → filing_deadline q (1970 + k) + 1 ≡ date_utc (1970 + k) (q * 3 + 1) 1
filing_deadline_last_day q k h1 h4 = elim (Bool-cases (ltb q 4)) [
  | inl inside ↦ filing_deadline_within q k (ltb→lt q 4 inside)
  | inr fourth ↦ let e : q ≡ 4 = ground arith in rw e (filing_deadline_fourth k)
]

deadline_after_quarter :
    (q k : ℕ) → 1 ≤ q → q ≤ 4 → date_utc (1970 + k) (q * 3) 1 + 29 ≤ filing_deadline q (1970 + k)
deadline_after_quarter q k h1 h4 = elim (Bool-cases (ltb q 4)) [
  | inl inside ↦ omega (
    arith,
    filing_deadline_last_day q k h1 h4,
    date_utc_in_year k (q * 3) 1 (omega (arith, ltb→lt q 4 inside)),
    date_utc_in_year k (q * 3 + 1) 1 (omega (arith, ltb→lt q 4 inside)),
    month_after (leap (1970 + k)) q h1 (ltb→lt q 4 inside),
    days_before_month-next (leap (1970 + k)) (q * 3),
  )
  | inr fourth ↦
      let e : q ≡ 4 = ground arith in
      rw e (
        omega (
          arith,
          filing_deadline_fourth k,
          date_utc_at (1970 + k) 12 1 (k + 1) 0 (omega arith) refl,
          date_utc_at (1970 + k) 13 1 (k + 1) 1 (omega arith) refl,
          february (leap (1970 + (k + 1))),
          january (leap (1970 + (k + 1))),
        ))
]

-- At every instant, the deadline of the current quarter is thirty days ahead or more.
pub deadline_thirty_days_ahead :
    (t : ℕ)
    → let q = current_quarter t in
      pos 30 ≤ℤ days_until t (iso_date (filing_deadline q.quarter q.year))
unfolding current_quarter vn_day
deadline_thirty_days_ahead t =
    let a = quarter_end_ahead t in
    let far = deadline_after_quarter (current_quarter_of t).quarter a.0 a.1 a.2 in
    rw (days_until_lem, day_number-iso_date, a.3) (omega (int_laws, far, a.4))
