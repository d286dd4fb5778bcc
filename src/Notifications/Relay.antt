-- ===== src/Notifications/Relay.antt =====
-- The e-mail relay: how often a row is tried, and when it is given up.
use solodesk.Prelude.{ℕ, suc, ◌+◌, ◌≤◌, Bool, true, false, List, [], ◌∷◌, ◌≡◌, ◌≢◌}
use solodesk.Notifications.{
  OutboxRow, OutboxStatus, pending, sent, dead_letter, max_backoff_ms, process_batch, Inbox,
}

-- A row as `notify` writes it.
abbrev pub IsNew : OutboxRow → Type 0
IsNew row = (row.status ≡ pending) × (row.attempts ≡ 0)

-- How a row stands after n tries that failed: given up after five, and not before.
abbrev Stands : OutboxStatus → ℕ → Type 0
Stands dead_letter n = n ≡ 5
Stands _ n = n ≤ 4

-- Two lists row by row.
abbrev pub Each : (OutboxRow → OutboxRow → Type 0) → List OutboxRow → List OutboxRow → Type 0
Each R [] [] = Unit {0}
Each R [] (r ∷ rs) = ⊥
Each R (r ∷ rs) [] = ⊥
Each R (r ∷ rs) (k ∷ ks) = R r k × Each R rs ks

-- What comes of a try at some time: `true` if it goes through.
module _ (send : ℕ → OutboxRow → Bool) where
  -- A row waits to be tried at that time.
  abbrev pub Waits : ℕ → OutboxRow → Type 0
  Waits now row = (row.status ≡ pending) × (row.next_attempt_at ≤ now)

  -- The tries of a row, of which n failed. A try that goes through leaves the row sent; one that
  -- fails does not, and if the row still waits it waits for half an hour at most.
  pub data Tried (row : OutboxRow) : ℕ → OutboxRow → Type 0 where
    untried : Tried row 0 row
    went_through :
        (n now : ℕ) (mid after : OutboxRow)
        → Tried row n mid
        → Waits now mid
        → send now mid ≡ true
        → after.status ≡ sent
        → Tried row n after
    went_wrong :
        (n now : ℕ) (mid after : OutboxRow)
        → Tried row n mid
        → Waits now mid
        → send now mid ≡ false
        → after.status ≢ sent
        → (after.status ≡ pending → after.next_attempt_at ≤ now + max_backoff_ms)
        → Tried row (suc n) after

  -- The row counts its failed tries, and is given up after exactly five.
  pub record IsAccounted (row after : OutboxRow) : Type 0 where
    pub failures : ℕ
    pub tried : Tried row failures after
    pub counted : after.attempts ≡ failures
    pub stands : Stands after.status failures

  -- Runs of the relay, each at its time and over its tenants.
  abbrev pub relay : List (ℕ × List ℕ) → Inbox → Inbox
  relay [] inbox = inbox
  relay ((now, tenants) ∷ runs) inbox = relay runs (process_batch now (send now) tenants inbox)
