-- ===== src/TaxFiling.antt =====
-- services/backend-api/src/modules/tax-filing: the filing deadline.
pub mod Deadline
pub mod Sweep
mod Tests
use solodesk.Prelude.{ℕ, ◌+◌, ◌*◌, ◌-◌, ltb, if◌then◌else◌}
use solodesk.VnTime.{CivilDate, iso_date, date_utc, Quarter, current_quarter_of}

pub current_quarter : ℕ → Quarter
current_quarter as_of = current_quarter_of as_of

-- The deadline as a day number: a `Date` at midnight UTC.
pub filing_deadline : ℕ → ℕ → ℕ
filing_deadline quarter year =
    let m = quarter * 3 + 1 in
    if ltb 12 m
    then date_utc (year + 1) 0 31
    else let last_day = (iso_date (date_utc year m 0)).day in date_utc year (m - 1) last_day
