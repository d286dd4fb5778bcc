-- ===== src/TaxFiling/Sweep/Silence.antt =====
-- What the sweep does on any day of the year.
use solodesk.Prelude.{ℕ, true, false, Option, none, some, List, [], ◌∷◌, ◌≡◌, refl, arith}
use solodesk.Prelude.Int.{ℤ, pos, ◌≤ℤ◌, ltb_ℤ}
use solodesk.TaxFiling.Deadline.{deadline_thirty_days_ahead}
use solodesk.TaxFiling.Sweep.{
  Filing, FilingTenant, FilingStore, warn_within_days, unless_filed, maybe_notify, sweep_each,
  sweep,
}

too_early : (days : ℤ) → pos 30 ≤ℤ days → ltb_ℤ warn_within_days days ≡ true
too_early days h = ground arith

unless_filed_either :
    (o : Option Filing) (s : FilingStore) → unless_filed o (false, s) s ≡ (false, s)
unless_filed_either none s = refl
unless_filed_either (some f) s = refl

maybe_notify_silent :
    (id now : ℕ) (tenant : FilingTenant) (s : FilingStore)
    → maybe_notify id now tenant s ≡ (false, s)
unfolding maybe_notify
maybe_notify_silent id now tenant s =
    rw (too_early _ (deadline_thirty_days_ahead now)) (unless_filed_either _ s)

sweep_each_silent :
    (id now : ℕ) (tenants : List FilingTenant) (s : FilingStore)
    → sweep_each id now tenants s ≡ (0, s)
unfolding sweep_each
sweep_each_silent id now [] s = refl
sweep_each_silent id now (tenant ∷ tenants) s =
    rw (maybe_notify_silent id now tenant s, sweep_each_silent id now tenants s)

-- At no instant before the year 10000 and in no store does the filing-deadline sweep notify anyone: it counts zero and
-- leaves the store as it is, since the deadline of the current quarter is always more than fourteen
-- days ahead.
pub sweep_silent : (id now : ℕ) (s : FilingStore) → sweep id now s ≡ (0, s)
unfolding sweep
sweep_silent id now s = sweep_each_silent id now _ s
