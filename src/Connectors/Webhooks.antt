-- ===== src/Connectors/Webhooks.antt =====
-- services/connector-hub/src/modules/webhooks: webhook-intake.service.ts and
-- webhook-event.drizzle-repository.ts.
use solodesk.Prelude.{ℕ, ◌-◌, Bool, true, false, ◌&&◌, Option, none, some, ◌∷◌, ◌==◌, find, any}
use solodesk.Prelude.Tables.{Update, unchanged, changed, update_first}
use solodesk.Prelude.Action.{
  Action, ok, refused, invariant_violation, throw_if, or_throw, gets, pure, ◌>>=◌, ◌>>◌,
}
use solodesk.VnTime.{vn_offset_ms}
use solodesk.Connectors.{
  Provider, same_provider, DateText, undated, malformed, wall_clock, Payload, EventType,
  WebhookEvent, Hub,
}

pub record NormalizedEvent : Type 0 where
  pub tenant : ℕ
  pub provider : Provider
  pub provider_event_id : ℕ
  pub event_type : EventType
  pub occurred_at : ℕ
  pub payload : Payload

-- The row that the INSERT returns: its id and its time are the database's.
abbrev pub stored : ℕ → ℕ → NormalizedEvent → WebhookEvent
stored id now e = record {
  id = id;
  tenant = e.tenant;
  provider = e.provider;
  provider_event_id = e.provider_event_id;
  event_type = e.event_type;
  occurred_at = e.occurred_at;
  received_at = now;
  payload = e.payload;
  forwarded_at = none;
}

abbrev pub is_event : Provider → ℕ → WebhookEvent → Bool
is_event provider event_id r = same_provider r.provider provider && r.provider_event_id == event_id

-- Row-level security hides the other tenants' rows.
abbrev pub is_own_event : Provider → ℕ → ℕ → WebhookEvent → Bool
is_own_event provider event_id tenant r = r.tenant == tenant && is_event provider event_id r

abbrev pub insert_event : Bool → WebhookEvent → Action Hub (Option WebhookEvent)
insert_event true row h = (ok none, h)
insert_event false row h = (ok (some row), record h { events = row ∷ h.events })

-- `INSERT … ON CONFLICT (provider, provider_event_id) DO NOTHING`. The constraint spans tenants; the
-- primary key refuses an id that is taken.
unfoldable pub record_if_new : ℕ → ℕ → NormalizedEvent → Action Hub (Option WebhookEvent)
record_if_new id now e h =
    (throw_if (any (λ (r : WebhookEvent). r.id == id) h.events) refused
        >> insert_event (any (is_event e.provider e.provider_event_id) h.events) (stored id now e))
      h

unfoldable pub find_by_provider_event_id : Provider → ℕ → ℕ → Hub → Option WebhookEvent
find_by_provider_event_id provider event_id tenant h =
    find (is_own_event provider event_id tenant) h.events

abbrev pub marked : Update WebhookEvent → Hub → Hub
marked unchanged h = h
marked (changed row rows) h = record h { events = rows }

unfoldable pub mark_forwarded : ℕ → ℕ → ℕ → Action Hub (Unit {0})
mark_forwarded now id tenant h = (
  ok tt,
  marked
      (update_first (λ (r : WebhookEvent). r.id == id && r.tenant == tenant)
        (λ r. record r { forwarded_at = some now }) h.events)
      h,
)

pub record Recorded : Type 0 where
  pub event : WebhookEvent
  pub is_new : Bool

abbrev or_existing : NormalizedEvent → Option WebhookEvent → Action Hub Recorded
or_existing e (some row) = pure (record { event = row; is_new = true })
or_existing e none = do
  existing ← gets (find_by_provider_event_id e.provider e.provider_event_id e.tenant)
  row ← or_throw existing invariant_violation
  pure (record { event = row; is_new = false })

unfoldable pub record_event : ℕ → ℕ → NormalizedEvent → Action Hub Recorded
record_event id now e = do inserted ← record_if_new id now e; or_existing e inserted

-- The webhooks' `new Date(… + '+07:00')`, or the time of the request; `none` is an Invalid Date,
-- which the INSERT refuses. For readings from 1970 on.
unfoldable pub occurred : ℕ → DateText → Option ℕ
occurred now undated = some now
occurred now malformed = none
occurred now (wall_clock reading) = some (reading - vn_offset_ms)
