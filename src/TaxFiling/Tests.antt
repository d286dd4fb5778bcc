-- ===== src/TaxFiling/Tests.antt =====
-- The deadline theorems at concrete quarters and instants.
use solodesk.Prelude.{◌+◌, ◌*◌, ◌≡◌, arith, [], ◌∷◌, some}
use solodesk.Prelude.{true}
use solodesk.VnTime.{date_utc}
use solodesk.TaxFiling.{filing_deadline}
use solodesk.TaxFiling.Deadline.{filing_deadline_last_day}
use solodesk.TaxFiling.Sweep.{FilingStore, sweep}
use solodesk.TaxFiling.Sweep.Silence.{sweep_silent}

filing_deadline_last_day_example :
    filing_deadline 4 (1970 + 55) + 1 ≡ date_utc (1970 + 55) (4 * 3 + 1) 1
filing_deadline_last_day_example = filing_deadline_last_day 4 55 (omega arith) (omega arith)

-- A tenant that has not filed, with an owner to remind.
abbrev late_filer : FilingStore
late_filer = record {
  filings = [];
  tenants =
      record {
        id = 1;
        legal_name = 5;
        is_active = true;
        tax_group_default = some 2;
        owners = 6 ∷ [];
      }
      ∷ [];
  inbox = record { notifications = []; emails = [] };
}

sweep_silent_example : sweep 9 1751302800000 late_filer ≡ (0, late_filer)
sweep_silent_example = sweep_silent 9 1751302800000 late_filer
