-- ===== src/Messaging.antt =====
-- services/backend-api/src/modules/messaging: message.service.ts and message.drizzle-repository.ts,
-- over the table `messages`. Ids and replies are numbers, names and contents are lists of code
-- points, times are milliseconds.
pub mod Inbound
pub mod Replies
mod Tests
use solodesk.Prelude.{
  ℕ, Bool, true, false, not, ◌&&◌, ◌||◌, Option, none, some, List, [], ◌∷◌, ◌==◌, leb,
  if◌then◌else◌, select, find, any, count,
}
use solodesk.Prelude.Tables.{Update, unchanged, changed, update_first}
use solodesk.Prelude.Action.{
  Action, ok, not_found, conflict, message_not_found, message_already_replied, throw_if, or_throw,
  gets, pure, ◌>>=◌, ◌>>◌,
}
use solodesk.Money.{Text}
use solodesk.Tenancy.{assert_tenant_matches_session}

pub data MessageChannel : Type 0 where
  zalo : MessageChannel

pub data MessageDirection : Type 0 where
  incoming outgoing : MessageDirection

pub record Message : Type 0 where
  pub id : ℕ
  pub tenant : ℕ
  pub channel : MessageChannel
  pub direction : MessageDirection
  pub customer_name : Text
  pub content : Text
  pub source_event : ℕ
  pub reply : Option ℕ
  pub replied_at : Option ℕ
  pub occurred_at : ℕ
  pub created_at : ℕ

pub record InboundMessageInput : Type 0 where
  pub channel : MessageChannel
  pub customer_name : Text
  pub content : Text
  pub source_event : ℕ
  pub occurred_at : ℕ

abbrev pub Mailbox : Type 0
Mailbox = List Message

abbrev pub is_message : ℕ → ℕ → Message → Bool
is_message id tenant m = m.id == id && m.tenant == tenant

abbrev pub is_source : ℕ → ℕ → Message → Bool
is_source tenant event m = m.tenant == tenant && m.source_event == event

-- `repliedAt !== null`
abbrev pub is_replied : Message → Bool
is_replied m = elim (m.replied_at) [ none ↦ false | some at ↦ true ]

-- The row that the INSERT returns.
abbrev pub received : ℕ → ℕ → ℕ → InboundMessageInput → Message
received id now tenant input = record {
  id = id;
  tenant = tenant;
  channel = input.channel;
  direction = incoming;
  customer_name = input.customer_name;
  content = input.content;
  source_event = input.source_event;
  reply = none;
  replied_at = none;
  occurred_at = input.occurred_at;
  created_at = now;
}

abbrev pub insert_message : Bool → Message → Action Mailbox (Option Message)
insert_message true m ms = (ok none, ms)
insert_message false m ms = (ok (some m), m ∷ ms)

-- The primary key, or UNIQUE (tenant_id, source_event_id).
abbrev pub collides : Message → Message → Bool
collides new m = m.id == new.id || is_source new.tenant new.source_event m

unfoldable pub record_inbound_if_new :
    ℕ → ℕ → ℕ → InboundMessageInput → Action Mailbox (Option Message)
record_inbound_if_new id now tenant input ms =
    insert_message (any (collides (received id now tenant input)) ms) (received id now tenant input)
      ms

-- `ORDER BY created_at DESC`, as an insertion sort.
abbrev insert_by_creation : Message → List Message → List Message
insert_by_creation m [] = m ∷ []
insert_by_creation m (k ∷ ks) =
    let rest = insert_by_creation m ks in
    if leb k.created_at m.created_at then m ∷ k ∷ ks else k ∷ rest

abbrev newest_first : List Message → List Message
newest_first [] = []
newest_first (m ∷ ms) = insert_by_creation m (newest_first ms)

pub list_by_tenant : ℕ → Bool → Mailbox → List Message
list_by_tenant tenant unanswered_only ms =
    newest_first (
      select (λ (m : Message). m.tenant == tenant && (not unanswered_only || not (is_replied m)))
        ms)

pub count_unanswered : ℕ → Mailbox → ℕ
count_unanswered tenant ms = count (λ (m : Message). m.tenant == tenant && not (is_replied m)) ms

unfoldable pub find_message : ℕ → ℕ → Mailbox → Option Message
find_message id tenant ms = find (is_message id tenant) ms

abbrev pub is_open : ℕ → ℕ → Message → Bool
is_open id tenant m = is_message id tenant m && not (is_replied m)

abbrev pub answer : ℕ → ℕ → Message → Message
answer content now m = record m { reply = some content; replied_at = some now }

abbrev pub replied_by : Update Message → Action Mailbox (Option Message)
replied_by unchanged ms = (ok none, ms)
replied_by (changed row rows) ms = (ok (some row), rows)

unfoldable pub set_reply : ℕ → ℕ → ℕ → ℕ → Action Mailbox (Option Message)
set_reply id tenant content now ms =
    replied_by (update_first (is_open id tenant) (answer content now) ms) ms

module _ (session : ℕ) where
  unfoldable pub record_inbound : ℕ → ℕ → ℕ → InboundMessageInput → Action Mailbox (Option Message)
  record_inbound id now tenant input = do
    assert_tenant_matches_session session tenant
    record_inbound_if_new id now tenant input

  pub list_messages : ℕ → Bool → Action Mailbox (List Message)
  list_messages tenant unanswered_only = do
    assert_tenant_matches_session session tenant
    gets (list_by_tenant tenant unanswered_only)

  pub get_unanswered_count : ℕ → Action Mailbox ℕ
  get_unanswered_count tenant = do
    assert_tenant_matches_session session tenant
    gets (count_unanswered tenant)

  unfoldable pub get_message : ℕ → ℕ → Action Mailbox Message
  get_message id tenant = do
    assert_tenant_matches_session session tenant
    found ← gets (find_message id tenant)
    or_throw found (not_found message_not_found)

  unfoldable pub reply : ℕ → ℕ → ℕ → ℕ → Action Mailbox Message
  reply id tenant content now = do
    assert_tenant_matches_session session tenant
    existing ← get_message id tenant
    throw_if (is_replied existing) (conflict message_already_replied)
    updated ← set_reply id tenant content now
    or_throw updated (conflict message_already_replied)
