-- ===== src/Compliance.antt =====
-- services/backend-api/src/modules/compliance: the status of a document, the list's count, and
-- doc-expiry-sweep.service.ts. A null or empty document number is `none`; texts are numbers.
pub mod Status
mod Tests
use solodesk.Prelude.{
  ℕ, ◌+◌, suc, Bool, true, false, ◌&&◌, ◌||◌, Option, none, some, List, [], ◌∷◌, ◌==◌, find, select,
  length, if◌then◌else◌,
}
use solodesk.Prelude.Int.{ℤ, pos, ltb_ℤ, leb_ℤ}
use solodesk.VnTime.{CivilDate, day_number, days_until}
use solodesk.Notifications.{Inbox, NotifyInput, doc_expiry, doc_expiry_approaching, notify_each}

pub record ComplianceDocument : Type 0 where
  pub id : ℕ
  pub tenant : ℕ
  pub doc_type : ℕ
  pub document_number : Option ℕ
  pub expires_on : Option CivilDate

pub data DocumentStatus : Type 0 where
  missing expired expiring valid : DocumentStatus

abbrev pub expiry_warn_days : ℤ
expiry_warn_days = pos 90

abbrev pub notify_within_days : ℤ
notify_within_days = pos 30

abbrev pub status_in : ℤ → DocumentStatus
status_in days =
    if ltb_ℤ days (pos 0) then expired else if leb_ℤ days expiry_warn_days then expiring else valid

abbrev dated_status : Option CivilDate → ℕ → DocumentStatus
dated_status none as_of = valid
dated_status (some date) as_of = status_in (days_until as_of date)

abbrev numbered_status : Option ℕ → Option CivilDate → ℕ → DocumentStatus
numbered_status none date as_of = missing
numbered_status (some number) date as_of = dated_status date as_of

pub derive_status : ComplianceDocument → ℕ → DocumentStatus
derive_status doc as_of = numbered_status doc.document_number doc.expires_on as_of

abbrev pub is_incomplete : DocumentStatus → Bool
is_incomplete missing = true
is_incomplete expired = true
is_incomplete _ = false

-- `asOf` is the clock.
pub count_incomplete : List ComplianceDocument → ℕ → ℕ
count_incomplete docs as_of =
    length (select (λ (d : ComplianceDocument). is_incomplete (derive_status d as_of)) docs)

abbrev within_notice : DocumentStatus → ℤ → Bool
within_notice expiring days = leb_ℤ days notify_within_days
within_notice expired days = true
within_notice _ days = false

abbrev dated_notice : Option ℕ → Option CivilDate → DocumentStatus → ℕ → Bool
dated_notice none _ status now = false
dated_notice (some n) none status now = false
dated_notice (some n) (some date) status now = within_notice status (days_until now date)

-- The test of the sweep's filter.
pub needs_notice : ℕ → ComplianceDocument → Bool
needs_notice now d = dated_notice d.document_number d.expires_on (derive_status d now) now

abbrev expiry_notice : ComplianceDocument → CivilDate → ℕ → NotifyInput
expiry_notice doc date user = record {
  user = user;
  type = doc_expiry_approaching;
  body = doc.doc_type;
  source_event = some (doc_expiry doc.id (day_number date));
  email = none;
}

abbrev remind_of : ℕ → ℕ → ℕ → List ℕ → ComplianceDocument → Option CivilDate → Inbox → Inbox
remind_of id now tenant owners doc none inbox = inbox
remind_of id now tenant owners doc (some date) inbox =
    notify_each id now tenant (expiry_notice doc date) owners inbox

pub remind_all : ℕ → ℕ → ℕ → List ℕ → List ComplianceDocument → Inbox → Inbox
remind_all id now tenant owners [] inbox = inbox
remind_all id now tenant owners (doc ∷ docs) inbox =
    remind_all id now tenant owners docs (remind_of id now tenant owners doc doc.expires_on inbox)

abbrev to_owners : ℕ → ℕ → ℕ → List ℕ → List ComplianceDocument → Inbox → Bool × Inbox
to_owners id now tenant owners [] inbox = (false, inbox)
to_owners id now tenant [] (doc ∷ docs) inbox = (false, inbox)
to_owners id now tenant (owner ∷ owners) (doc ∷ docs) inbox =
    (true, remind_all id now tenant (owner ∷ owners) (doc ∷ docs) inbox)

-- Of the tenant's documents; `id` names the rows that the notifications insert.
pub maybe_notify : ℕ → ℕ → ℕ → List ℕ → List ComplianceDocument → Inbox → Bool × Inbox
maybe_notify id now tenant owners docs inbox =
    to_owners id now tenant owners (select (needs_notice now) docs) inbox
