-- ===== src/Notifications.antt =====
-- services/backend-api/src/modules/notifications/application: notification.service.ts and
-- email-outbox-relay.service.ts, over the tables `notifications` and `email_outbox`. Ids, users
-- and texts are numbers, an instant is its milliseconds.
pub mod Outbox
pub mod Relay
mod Tests
use solodesk.Prelude.{
  ℕ, zero, suc, ◌+◌, ◌*◌, ◌^◌, Bool, true, false, ◌&&◌, not, Option, none, some, List, [], ◌∷◌,
  ◌==◌, leb, if◌then◌else◌, select, any, update, length, take,
}

-- The texts `einvoice-threshold-…`, `filing-deadline-…`, `doc-expiry-…`, `email-verify-…` and
-- `password-reset-…`.
pub data SourceEvent : Type 0 where
  einvoice_threshold : ℕ → ℕ → SourceEvent
  filing_deadline : ℕ → ℕ → ℕ → SourceEvent
  doc_expiry : ℕ → ℕ → SourceEvent
  verify_link reset_link : ℕ → SourceEvent

abbrev pub same_event : SourceEvent → SourceEvent → Bool
same_event (einvoice_threshold t y) (einvoice_threshold t' y') = t == t' && y == y'
same_event (filing_deadline t q y) (filing_deadline t' q' y') = t == t' && q == q' && y == y'
same_event (doc_expiry d e) (doc_expiry d' e') = d == d' && e == e'
same_event (verify_link u) (verify_link u') = u == u'
same_event (reset_link r) (reset_link r') = r == r'
same_event _ _ = false

-- A unique index takes two nulls to be different.
abbrev pub clashes : Option SourceEvent → Option SourceEvent → Bool
clashes (some e) (some e') = same_event e e'
clashes _ _ = false

pub data NotificationType : Type 0 where
  email_verify password_reset einvoice_threshold_crossed filing_deadline_approaching
        doc_expiry_approaching :
      NotificationType

pub record Notification : Type 0 where
  pub id : ℕ
  pub tenant : ℕ
  pub user : ℕ
  pub type : NotificationType
  pub body : ℕ
  pub is_read : Bool
  pub source_event : Option SourceEvent
  pub created_at : ℕ

pub data OutboxStatus : Type 0 where
  pending sent failed dead_letter : OutboxStatus

pub record OutboxRow : Type 0 where
  pub id : ℕ
  pub tenant : ℕ
  pub user : ℕ
  pub template : NotificationType
  pub vars : ℕ
  pub status : OutboxStatus
  pub attempts : ℕ
  pub next_attempt_at : ℕ
  pub source_event : Option SourceEvent

-- The template of a mail, and the one text that it is filled with.
pub record Mail : Type 0 where
  pub template : NotificationType
  pub vars : ℕ

pub record NotifyInput : Type 0 where
  pub user : ℕ
  pub type : NotificationType
  pub body : ℕ
  pub source_event : Option SourceEvent
  pub email : Option Mail

pub record Inbox : Type 0 where
  pub notifications : List Notification
  pub emails : List OutboxRow

abbrev pub notification_of : ℕ → ℕ → ℕ → NotifyInput → Notification
notification_of id now tenant input = record {
  id = id;
  tenant = tenant;
  user = input.user;
  type = input.type;
  body = input.body;
  is_read = false;
  source_event = input.source_event;
  created_at = now;
}

abbrev pub email_of : ℕ → ℕ → ℕ → NotifyInput → Mail → OutboxRow
email_of id now tenant input mail = record {
  id = id;
  tenant = tenant;
  user = input.user;
  template = mail.template;
  vars = mail.vars;
  status = pending;
  attempts = 0;
  next_attempt_at = now;
  source_event = input.source_event;
}

-- `INSERT … ON CONFLICT DO NOTHING` under UNIQUE (tenant_id, source_event_id).
abbrev pub insert_notification : Notification → List Notification → List Notification
insert_notification n ns =
    if any (λ (k : Notification). k.tenant == n.tenant && clashes n.source_event k.source_event) ns
    then ns
    else n ∷ ns

abbrev pub insert_email : OutboxRow → List OutboxRow → List OutboxRow
insert_email e es =
    if any (λ (k : OutboxRow). k.tenant == e.tenant && clashes e.source_event k.source_event) es
    then es
    else e ∷ es

abbrev pub mailed : ℕ → ℕ → ℕ → NotifyInput → Option Mail → List OutboxRow → List OutboxRow
mailed id now tenant input none es = es
mailed id now tenant input (some mail) es = insert_email (email_of id now tenant input mail) es

-- The new rows' id and clock are arguments.
pub notify : ℕ → ℕ → ℕ → NotifyInput → Inbox → Inbox
notify id now tenant input inbox = record {
  notifications = insert_notification (notification_of id now tenant input) inbox.notifications;
  emails = mailed id now tenant input input.email inbox.emails;
}

-- The loops over a tenant's owners.
pub notify_each : ℕ → ℕ → ℕ → (ℕ → NotifyInput) → List ℕ → Inbox → Inbox
notify_each id now tenant input [] inbox = inbox
notify_each id now tenant input (user ∷ users) inbox =
    notify_each id now tenant input users (notify id now tenant (input user) inbox)

pub unread_count : ℕ → ℕ → Inbox → ℕ
unread_count tenant user inbox = length (
    select (λ (n : Notification). n.tenant == tenant && n.user == user && not n.is_read)
      inbox.notifications)

pub mark_read : ℕ → ℕ → ℕ → Inbox → Inbox
mark_read tenant user id inbox = record inbox {
  notifications =
      update (λ (n : Notification). n.id == id && n.tenant == tenant && n.user == user)
        (λ n. record n { is_read = true }) inbox.notifications;
}

pub mark_all_read : ℕ → ℕ → Inbox → Inbox
mark_all_read tenant user inbox = record inbox {
  notifications =
      update (λ (n : Notification). n.tenant == tenant && n.user == user && not n.is_read)
        (λ n. record n { is_read = true }) inbox.notifications;
}

-- `ORDER BY created_at DESC LIMIT`, as an insertion sort.
abbrev insert_by_creation : Notification → List Notification → List Notification
insert_by_creation n [] = n ∷ []
insert_by_creation n (k ∷ ks) =
    let rest = insert_by_creation n ks in
    if leb k.created_at n.created_at then n ∷ k ∷ ks else k ∷ rest

abbrev newest_first : List Notification → List Notification
newest_first [] = []
newest_first (n ∷ ns) = insert_by_creation n (newest_first ns)

pub list_notifications : ℕ → ℕ → ℕ → Inbox → List Notification
list_notifications tenant user limit inbox = take limit (
    newest_first
      (select (λ (n : Notification). n.tenant == tenant && n.user == user) inbox.notifications))

abbrev pub max_attempts : ℕ
max_attempts = 5

abbrev pub base_backoff_ms : ℕ
base_backoff_ms = 30000

abbrev pub max_backoff_ms : ℕ
max_backoff_ms = 1800000

abbrev pub batch_size_per_tenant : ℕ
batch_size_per_tenant = 5

abbrev pub backoff_ms : ℕ → ℕ
backoff_ms attempts =
    let wait = base_backoff_ms * 2 ^ attempts in
    if leb wait max_backoff_ms then wait else max_backoff_ms

-- What `processOne` makes of a row: `dispatched` says whether looking the recipient up and sending
-- went through without a throw.
pub process_one : ℕ → Bool → OutboxRow → OutboxRow
process_one now true row = record row { status = sent }
process_one now false row =
    let attempts = 1 + row.attempts in
    if leb max_attempts attempts
    then record row { status = dead_letter; attempts = attempts }
    else record row { attempts = attempts; next_attempt_at = now + backoff_ms attempts }

abbrev pub is_pending : OutboxStatus → Bool
is_pending pending = true
is_pending _ = false

abbrev pub is_due : ℕ → ℕ → OutboxRow → Bool
is_due now tenant row = row.tenant == tenant && is_pending row.status && leb row.next_attempt_at now

-- The first rows that are due, up to the limit, each tried once. `send` is the dispatcher.
pub process_rows : ℕ → (OutboxRow → Bool) → ℕ → ℕ → List OutboxRow → List OutboxRow
process_rows now send tenant limit [] = []
process_rows now send tenant zero (row ∷ rows) = row ∷ rows
process_rows now send tenant (suc limit) (row ∷ rows) = elim (is_due now tenant row) [
  | true ↦ process_one now (send row) row ∷ process_rows now send tenant limit rows
  | false ↦ row ∷ process_rows now send tenant (suc limit) rows
]

pub process_tenant_batch : ℕ → (OutboxRow → Bool) → ℕ → Inbox → Inbox
process_tenant_batch now send tenant inbox = record inbox {
  emails = process_rows now send tenant batch_size_per_tenant inbox.emails;
}

pub process_batch : ℕ → (OutboxRow → Bool) → List ℕ → Inbox → Inbox
process_batch now send [] inbox = inbox
process_batch now send (tenant ∷ tenants) inbox =
    process_batch now send tenants (process_tenant_batch now send tenant inbox)
