-- ===== src/Compliance/Status.antt =====
-- The status as time passes, and the documents that the sweep picks.
use solodesk.Prelude.{ℕ, ◌≤◌, Option, none, some, ◌≡◌, ◌∙◌, ap, arith}
use solodesk.Prelude.Int.{ℤ, ◌≤ℤ◌, leb_ℤ, int_laws}
use solodesk.VnTime.{CivilDate, days_until}
use solodesk.VnTime.Windows.{days_until_lem}
use solodesk.Compliance.{
  ComplianceDocument, DocumentStatus, missing, expired, expiring, valid, status_in, derive_status,
  needs_notice, notify_within_days, within_notice, numbered_status, dated_notice,
}

-- How bad a status is.
abbrev pub severity : DocumentStatus → ℕ
severity valid = 0
severity expiring = 1
severity expired = 2
severity missing = 3

status_in_worsens : (d e : ℤ) → e ≤ℤ d → severity (status_in d) ≤ severity (status_in e)
status_in_worsens d e h = ground arith

days_until_falls :
    (now later : ℕ) (date : CivilDate) → now ≤ later → days_until later date ≤ℤ days_until now date
days_until_falls now later date h =
    rw (days_until_lem now date, days_until_lem later date) (omega (int_laws, h))

numbered_status_worsens :
    (number : Option ℕ) (date : Option CivilDate) (now later : ℕ)
    → now ≤ later
    → severity (numbered_status number date now) ≤ severity (numbered_status number date later)
numbered_status_worsens none date now later h = omega arith
numbered_status_worsens (some n) none now later h = omega arith
numbered_status_worsens (some n) (some date) now later h =
    status_in_worsens (days_until now date) (days_until later date)
      (days_until_falls now later date h)

-- As time passes, up to the year 10000, the status of a document only moves from valid over expiring to expired, and a
-- document without a number stays missing: its severity never falls.
pub derive_status_worsens :
    (doc : ComplianceDocument) (now later : ℕ)
    → now ≤ later
    → severity (derive_status doc now) ≤ severity (derive_status doc later)
unfolding derive_status
derive_status_worsens doc now later h =
    numbered_status_worsens doc.document_number doc.expires_on now later h

within_notice_status :
    (days : ℤ) → within_notice (status_in days) days ≡ leb_ℤ days notify_within_days
within_notice_status days = ground arith

dated_notice_iff :
    (number : Option ℕ) (date : CivilDate) (now n : ℕ)
    → number ≡ some n
    → dated_notice number (some date) (numbered_status number (some date) now) now
      ≡ leb_ℤ (days_until now date) notify_within_days
dated_notice_iff none date now n e = absurd cc
dated_notice_iff (some m) date now n e = within_notice_status (days_until now date)

-- Before the year 10000, for a document with a number and an expiry date, the sweep's filter, written with the status,
-- picks it exactly when thirty days or fewer remain, also after it has expired.
pub needs_notice_lem :
    (now : ℕ) (doc : ComplianceDocument) (number : ℕ) (date : CivilDate)
    → doc.document_number ≡ some number
    → doc.expires_on ≡ some date
    → needs_notice now doc ≡ leb_ℤ (days_until now date) notify_within_days
unfolding needs_notice derive_status
needs_notice_lem now doc number date numbered dated =
    ap (λ d. dated_notice doc.document_number d (numbered_status doc.document_number d now) now)
      dated
    ∙ dated_notice_iff doc.document_number date now number numbered
