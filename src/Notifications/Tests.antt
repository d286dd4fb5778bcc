-- ===== src/Notifications/Tests.antt =====
-- Two owners of one tenant, and rows of the e-mail outbox.
use solodesk.Prelude.{ℕ, ◌+◌, Bool, List, false, none, some, [], ◌∷◌, ◌≡◌, refl, length, arith}
use solodesk.Notifications.{
  Inbox, Mail, NotifyInput, OutboxRow, einvoice_threshold, einvoice_threshold_crossed, pending,
  notify, notify_each, dead_letter, process_one, process_rows, process_tenant_batch, process_batch,
}
use solodesk.Notifications.Outbox.{ToldOnce, notify_each-ToldOnce}
use solodesk.Notifications.Relay.{relay}

abbrev empty : Inbox
empty = record { notifications = []; emails = [] }

abbrev threshold_mail : Mail
threshold_mail = record { template = einvoice_threshold_crossed; vars = 9 }

abbrev crossing : ℕ → NotifyInput
crossing user = record {
  user = user;
  type = einvoice_threshold_crossed;
  body = 0;
  source_event = some (einvoice_threshold 1 2025);
  email = some threshold_mail;
}

-- The second owner is told nothing.
one_notice : length (notify_each 5 0 1 crossing (6 ∷ 7 ∷ []) empty).notifications ≡ 1
unfolding notify_each notify
one_notice = refl

notify_each-ToldOnce_example :
    ToldOnce 1
      (einvoice_threshold 1 2025)
      (some threshold_mail)
      (notify_each 5 0 1 crossing (6 ∷ 7 ∷ []) empty)
notify_each-ToldOnce_example =
    notify_each-ToldOnce 1 (einvoice_threshold 1 2025) (some threshold_mail) 5 0 crossing 6 (7 ∷ [])
      empty (λ t e. omega arith) (λ user. (refl, refl))

abbrev mail : OutboxRow
mail = record {
  id = 3;
  tenant = 1;
  user = 6;
  template = einvoice_threshold_crossed;
  vars = 9;
  status = pending;
  attempts = 0;
  next_attempt_at = 100;
  source_event = none;
}

abbrev waiting : Inbox
waiting = record { notifications = []; emails = mail ∷ [] }

-- Far enough apart for every wait.
abbrev runs : List (ℕ × List ℕ)
runs =
    (200, 1 ∷ [])
    ∷ (2000000, 1 ∷ [])
    ∷ (4000000, 1 ∷ [])
    ∷ (6000000, 1 ∷ [])
    ∷ (8000000, 1 ∷ [])
    ∷ []

abbrev never : ℕ → OutboxRow → Bool
never now row = false

-- It is given up.
five_failures :
    (relay never runs waiting).emails
    ≡ record mail { status = dead_letter; attempts = 5; next_attempt_at = 6000000 + 480000 } ∷ []
unfolding process_batch process_tenant_batch process_rows process_one
five_failures = refl
