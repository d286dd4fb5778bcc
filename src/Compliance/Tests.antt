-- ===== src/Compliance/Tests.antt =====
-- One licence on its way to its expiry date.
use solodesk.Prelude.{◌≤◌, some, ◌≡◌, refl, arith}
use solodesk.Prelude.Int.{leb_ℤ}
use solodesk.VnTime.{CivilDate, days_until}
use solodesk.Compliance.{ComplianceDocument, derive_status, needs_notice, notify_within_days}
use solodesk.Compliance.Status.{severity, derive_status_worsens, needs_notice_lem}

abbrev expiry : CivilDate
expiry = record { year = 2025; month = 3; day = 1 }

abbrev licence : ComplianceDocument
licence = record {
  id = 4;
  tenant = 1;
  doc_type = 2;
  document_number = some 77;
  expires_on = some expiry;
}

derive_status_worsens_example :
    severity (derive_status licence 1735666200000) ≤ severity (derive_status licence 1751302800000)
derive_status_worsens_example =
    derive_status_worsens licence 1735666200000 1751302800000 (omega arith)

needs_notice_lem_example :
    needs_notice 1735666200000 licence ≡ leb_ℤ (days_until 1735666200000 expiry) notify_within_days
needs_notice_lem_example = needs_notice_lem 1735666200000 licence 77 expiry refl refl
