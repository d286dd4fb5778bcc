-- ===== src/VnTime/Calendar.antt =====
-- The calendar behind vn-time.ts: which year, month and day a day number falls in.
use mathlib.Core.Path.{subst}
use solodesk.Prelude.{
  ℕ, zero, suc, ◌+◌, ◌-◌, ◌*◌, ◌/◌, ◌%◌, ◌≤◌, ◌<◌, ◌≡◌, refl, ◌∙◌, ap, Bool, true, false, inl, inr,
  arith, ltb, Bool-cases, ltb→lt, leb,
}
use solodesk.VnTime.{
  leap, year_days, month_days, days_before_year, days_before_month, date_utc, find_year, find_month,
  CivilDate, iso_date, day_number,
}

find_year_here : (f k d : ℕ) → ltb d (year_days (1970 + k)) ≡ true → find_year (suc f) k d ≡ (k, d)
unfolding find_year
find_year_here f k d h = rw (h, find_year)

find_year_later :
    (f k d : ℕ)
    → ltb d (year_days (1970 + k)) ≡ false
    → find_year (suc f) k d ≡ find_year f (k + 1) (d - year_days (1970 + k))
unfolding find_year
find_year_later f k d h = rw (h, find_year)

-- What a search for the year has found.
record IsYear (n : ℕ) (found : ℕ × ℕ) : Type 0 where
  total : days_before_year found.0 + found.1 ≡ n
  within : found.1 < year_days (1970 + found.0)

year_days_pos : (y : ℕ) → 365 ≤ year_days y
unfolding year_days
year_days_pos y = ground arith

pub days_before_year-next :
    (k : ℕ) → days_before_year (k + 1) ≡ days_before_year k + year_days (1970 + k)
unfolding days_before_year
days_before_year-next k = let e : k + 1 ≡ suc k = omega arith in ap days_before_year e

find_year-IsYear : (f k d : ℕ) → d < f → IsYear (days_before_year k + d) (find_year f k d)
find_year-IsYear zero k d h = elim h [ ]
find_year-IsYear (suc f) k d h = elim (Bool-cases (ltb d (year_days (1970 + k)))) [
  | inl here ↦ rw (find_year_here f k d here) (record { total = refl; within = ground arith })
  | inr later ↦
      let long : year_days (1970 + k) ≤ d = ground arith in
      let r =
        find_year-IsYear f (k + 1) (d - year_days (1970 + k))
          (omega (arith, year_days_pos (1970 + k))) in
      rw (find_year_later f k d later)
        (record { total = r.total ∙ rw days_before_year-next (omega arith); within = r.within })
]

pub month_days_pos : (l : Bool) (m : ℕ) → 0 < month_days l m
unfolding month_days
month_days_pos l m = ground arith

days_before_month-suc :
    (l : Bool) (m : ℕ) → days_before_month l (suc m) ≡ days_before_month l m + month_days l m
unfolding days_before_month
days_before_month-suc l m = refl

pub days_before_month-next :
    (l : Bool) (m : ℕ) → days_before_month l (m + 1) ≡ days_before_month l m + month_days l m
unfolding days_before_month
days_before_month-next l m = let e : m + 1 ≡ suc m = omega arith in ap (days_before_month l) e

find_month_here :
    (f : ℕ) (l : Bool) (m d : ℕ) → ltb d (month_days l m) ≡ true → find_month (suc f) l m d ≡ (m, d)
unfolding find_month
find_month_here f l m d h = rw (h, find_month)

find_month_later :
    (f : ℕ) (l : Bool) (m d : ℕ)
    → ltb d (month_days l m) ≡ false
    → find_month (suc f) l m d ≡ find_month f l (m + 1) (d - month_days l m)
unfolding find_month
find_month_later f l m d h = rw (h, find_month)

record IsMonth (l : Bool) (n : ℕ) (found : ℕ × ℕ) : Type 0 where
  total : days_before_month l found.0 + found.1 ≡ n
  within : found.1 < month_days l found.0
  a_month : found.0 < 12

-- With f months left after m, the day falls in one of them.
find_month-IsMonth :
    (f : ℕ) (l : Bool) (m d : ℕ)
    → m + f ≡ 12
    → days_before_month l m + d < days_before_month l 12
    → IsMonth l (days_before_month l m + d) (find_month f l m d)
find_month-IsMonth zero l m d e h =
    absurd (omega (arith, ap (days_before_month l) (let e' : m ≡ 12 = omega arith in e')))
find_month-IsMonth (suc f) l m d e h = elim (Bool-cases (ltb d (month_days l m))) [
  | inl here ↦
      rw (find_month_here f l m d here)
        (record { total = refl; within = ground arith; a_month = omega arith })
  | inr later ↦
      let long : month_days l m ≤ d = ground arith in
      let r =
        find_month-IsMonth f l (m + 1) (d - month_days l m) (omega arith)
          (omega (arith, days_before_month-next l m)) in
      rw (find_month_later f l m d later) (record {
        total = r.total ∙ rw days_before_month-next (omega arith);
        within = r.within;
        a_month = r.a_month;
      })
]

pub year_days-eq : (y : ℕ) → days_before_month (leap y) 12 ≡ year_days y
unfolding year_days days_before_month month_days
year_days-eq y = ground arith

days_before_month_zero : (l : Bool) → days_before_month l 0 ≡ 0
unfolding days_before_month
days_before_month_zero l = refl

days_before_year_zero : days_before_year 0 ≡ 0
unfolding days_before_year
days_before_year_zero = refl

-- The place of a day in the calendar, with the month from 0 and the day of the month from 0.
pub record IsPlaced (n : ℕ) (c : CivilDate) : Type 0 where
  pub k : ℕ
  pub m : ℕ
  pub r : ℕ
  pub the_year : c.year ≡ 1970 + k
  pub the_month : c.month ≡ m + 1
  pub the_day : c.day ≡ r + 1
  pub a_month : m < 12
  pub within : r < month_days (leap (1970 + k)) m
  pub total : days_before_year k + days_before_month (leap (1970 + k)) m + r ≡ n

pub iso_date-IsPlaced : (n : ℕ) → IsPlaced n (iso_date n)
unfolding iso_date
iso_date-IsPlaced n =
    let y = find_year-IsYear (n + 1) 0 n (omega arith) in
    let found = find_year (n + 1) 0 n in
    let l = leap (1970 + found.0) in
    let q =
      find_month-IsMonth 12 l 0 found.1 (omega arith)
        (omega (arith, days_before_month_zero l, year_days-eq (1970 + found.0), y.within)) in
    record {
      k = found.0;
      m = (find_month 12 l 0 found.1).0;
      r = (find_month 12 l 0 found.1).1;
      the_year = refl;
      the_month = refl;
      the_day = refl;
      a_month = q.a_month;
      within = q.within;
      total = omega (arith, y.total, q.total, days_before_month_zero l, days_before_year_zero);
    }

year_count : (k : ℕ) → 1970 + k - 1970 ≡ k
year_count k = omega arith

-- `Date.UTC`, once the year and the month are brought into range.
pub date_utc_at :
    (y m d k b : ℕ)
    → y + m / 12 ≡ 1970 + k
    → m % 12 ≡ b
    → date_utc y m d ≡ days_before_year k + days_before_month (leap (1970 + k)) b + d - 1
unfolding date_utc
date_utc_at y m d k b e1 e2 = rw (e1, e2, year_count)

-- `Date.UTC` at a month of the year 1970 + k, where month 12 is the next January.
pub date_utc_in_year :
    (k m d : ℕ)
    → m ≤ 12
    → date_utc (1970 + k) m d ≡ days_before_year k + days_before_month (leap (1970 + k)) m + d - 1
date_utc_in_year k m d h = elim (Bool-cases (ltb m 12)) [
  | inl inside ↦
      let lt : m < 12 = ltb→lt m 12 inside in
      date_utc_at (1970 + k) m d k m (omega arith) (omega arith)
  | inr next ↦
      let e : m ≡ 12 = ground arith in
      rw e (
        date_utc_at (1970 + k) 12 d (k + 1) 0 (omega arith) refl
        ∙ omega (
          arith,
          days_before_year-next k,
          year_days-eq (1970 + k),
          days_before_month_zero (leap (1970 + (k + 1))),
        ))
]

pub days_before_month_mono :
    (l : Bool) (m n : ℕ) → m ≤ n → days_before_month l m ≤ days_before_month l n
days_before_month_mono l m zero h = let e : m ≡ 0 = omega arith in rw e (omega arith)
days_before_month_mono l m (suc n) h = elim (Bool-cases (leb m n)) [
  | inl below ↦
      omega (arith, days_before_month_mono l m n (ground arith), days_before_month-suc l n)
  | inr above ↦ let e : m ≡ suc n = ground arith in rw e (omega arith)
]

-- A day placed in month m lies in every span of months [a, b) with a ≤ m < b.
pub placed_in_span :
    (n : ℕ) (c : CivilDate) (p : IsPlaced n c) (a b : ℕ)
    → a ≤ p.m
    → p.m < b
    → b ≤ 12
    → (date_utc c.year a 1 ≤ n) × (n < date_utc c.year b 1)
placed_in_span n c p a b ha hb le =
    rw
      (p.the_year, date_utc_in_year p.k a 1 (omega (arith, p.a_month)), date_utc_in_year p.k b 1 le)
      (omega (
        arith,
        p.total,
        p.within,
        days_before_month_mono (leap (1970 + p.k)) a p.m ha,
        days_before_month-next (leap (1970 + p.k)) p.m,
        days_before_month_mono (leap (1970 + p.k)) (p.m + 1) b (omega arith),
      ))

days_before_year_mono :
    (k j : ℕ) → k < j → days_before_year k + year_days (1970 + k) ≤ days_before_year j
unfolding days_before_year
days_before_year_mono k zero h = elim h [ ]
days_before_year_mono k (suc j) h = elim (Bool-cases (ltb k j)) [
  | inl below ↦ omega (arith, days_before_year_mono k j (ltb→lt k j below))
  | inr above ↦ let e : k ≡ j = ground arith in rw e (omega arith)
]

-- The numbers that a day's place in the calendar must satisfy.
pub record Fits (n k m r : ℕ) : Type 0 where
  pub a_month : m < 12
  pub within : r < month_days (leap (1970 + k)) m
  pub total : days_before_year k + days_before_month (leap (1970 + k)) m + r ≡ n

pub IsPlaced-Fits : {n : ℕ} {c : CivilDate} (p : IsPlaced n c) → Fits n p.k p.m p.r
IsPlaced-Fits p = record { a_month = p.a_month; within = p.within; total = p.total }

Fits-year_days :
    {n k m r : ℕ} → Fits n k m r → days_before_month (leap (1970 + k)) m + r < year_days (1970 + k)
Fits-year_days {k} {m} f = omega (
  arith,
  f.within,
  days_before_month-next (leap (1970 + k)) m,
  days_before_month_mono (leap (1970 + k)) (m + 1) 12 (omega (arith, f.a_month)),
  year_days-eq (1970 + k),
)

same_day_years : {n k m r j l s : ℕ} → Fits n k m r → Fits n j l s → ¬ (k < j)
same_day_years {k} {m} {j} {l} f g h =
    omega (arith, f.total, g.total, Fits-year_days f, days_before_year_mono k j h)

same_day_months : {n k m r l s : ℕ} → Fits n k m r → Fits n k l s → ¬ (m < l)
same_day_months {k} {m} {l} f g h = omega (
  arith,
  f.total,
  g.total,
  f.within,
  days_before_month-next (leap (1970 + k)) m,
  days_before_month_mono (leap (1970 + k)) (m + 1) l (omega arith),
)

-- A day has one place in the calendar.
pub Fits-unique : {n k m r j l s : ℕ} → Fits n k m r → Fits n j l s → (k ≡ j) × (m ≡ l) × (r ≡ s)
Fits-unique {n} {k} {m} {r} {j} {l} {s} f g =
    let same_year : j ≡ k = omega (arith, same_day_years f g, same_day_years g f) in
    let g' : Fits n k l s = subst (λ (y : ℕ). Fits n y l s) same_year g in
    let same_month : l ≡ m = omega (arith, same_day_months f g', same_day_months g' f) in
    let g'' : Fits n k m s = subst (λ (a : ℕ). Fits n k a s) same_month g' in
    (omega arith, omega arith, omega (arith, f.total, g''.total))

-- A day number is the day number of the date that it falls on.
pub day_number-iso_date : (n : ℕ) → day_number (iso_date n) ≡ n
unfolding day_number
day_number-iso_date n =
    let p = iso_date-IsPlaced n in
    rw (p.the_year, p.the_month, p.the_day, minus_one p.m)
      (date_utc_in_year p.k p.m (p.r + 1) (omega (arith, p.a_month)) ∙ omega (arith, p.total))
  where
    minus_one : (m : ℕ) → m + 1 - 1 ≡ m
    minus_one m = omega arith

-- Lengths of single months.
pub february : (l : Bool) → days_before_month l 1 ≡ 31
unfolding days_before_month month_days
february l = refl

pub january : (l : Bool) → days_before_month l 0 ≡ 0
unfolding days_before_month
january l = refl

-- The month after a quarter has thirty days at least.
pub month_after : (l : Bool) (q : ℕ) → 1 ≤ q → q < 4 → 30 ≤ month_days l (q * 3)
unfolding month_days
month_after l q h1 h4 = ground arith
