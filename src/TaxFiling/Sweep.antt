-- ===== src/TaxFiling/Sweep.antt =====
-- services/backend-api/src/modules/tax-filing/application/filing-deadline-sweep.service.ts. The
-- notification's text is left out: it names the days that remain.
pub mod Silence
use solodesk.Prelude.{
  ℕ, suc, Bool, true, false, ◌&&◌, Option, none, some, List, [], ◌∷◌, map, ◌==◌, find, select,
  if◌then◌else◌,
}
use solodesk.Prelude.Int.{ℤ, pos, ltb_ℤ}
use solodesk.VnTime.{Quarter, iso_date, days_until}
use solodesk.Notifications.{Inbox, NotifyInput, filing_deadline_approaching, notify_each}
use solodesk.Notifications
use solodesk.TaxFiling.{current_quarter, filing_deadline}

pub record Filing : Type 0 where
  pub tenant : ℕ
  pub quarter : ℕ
  pub year : ℕ

-- An active tenant with a tax group, and the users who own it.
pub record FilingTenant : Type 0 where
  pub id : ℕ
  pub legal_name : ℕ
  pub is_active : Bool
  pub tax_group_default : Option ℕ
  pub owners : List ℕ

pub record FilingStore : Type 0 where
  pub filings : List Filing
  pub tenants : List FilingTenant
  pub inbox : Inbox

abbrev pub warn_within_days : ℤ
warn_within_days = pos 14

pub find_by_period : ℕ → ℕ → ℕ → FilingStore → Option Filing
find_by_period tenant quarter year s =
    find (λ (f : Filing). f.tenant == tenant && f.quarter == quarter && f.year == year) s.filings

abbrev deadline_notice : FilingTenant → Quarter → ℕ → NotifyInput
deadline_notice tenant q user = record {
  user = user;
  type = filing_deadline_approaching;
  body = tenant.legal_name;
  source_event = some (Notifications.filing_deadline tenant.id q.quarter q.year);
  email = none;
}

abbrev remind : ℕ → ℕ → FilingTenant → Quarter → List ℕ → FilingStore → Bool × FilingStore
remind id now tenant q [] s = (false, s)
remind id now tenant q (owner ∷ owners) s = (
  true,
  record s {
    inbox = notify_each id now tenant.id (deadline_notice tenant q) (owner ∷ owners) s.inbox;
  },
)

abbrev unless_filed : Option Filing → Bool × FilingStore → FilingStore → Bool × FilingStore
unless_filed (some f) r s = (false, s)
unless_filed none r s = r

-- Whether the owners were notified. `id` names the rows that the notification inserts.
pub maybe_notify : ℕ → ℕ → FilingTenant → FilingStore → Bool × FilingStore
maybe_notify id now tenant s =
    let q = current_quarter now in
    let days_remaining = days_until now (iso_date (filing_deadline q.quarter q.year)) in
    unless_filed (find_by_period tenant.id q.quarter q.year s)
      (if ltb_ℤ warn_within_days days_remaining
        then (false, s)
        else remind id now tenant q tenant.owners s)
      s

abbrev has_group : Option ℕ → Bool
has_group none = false
has_group (some g) = true

abbrev counted : Bool → ℕ → ℕ
counted true n = suc n
counted false n = n

pub sweep_each : ℕ → ℕ → List FilingTenant → FilingStore → ℕ × FilingStore
sweep_each id now [] s = (0, s)
sweep_each id now (tenant ∷ tenants) s =
    let (sent, s') = maybe_notify id now tenant s in
    let (notified, s'') = sweep_each id now tenants s' in (counted sent notified, s'')

pub sweep : ℕ → ℕ → FilingStore → ℕ × FilingStore
sweep id now s =
    sweep_each id now
      (select (λ (t : FilingTenant). t.is_active && has_group t.tax_group_default) s.tenants) s
