-- ===== src/Connectors/Zalo.antt =====
-- services/connector-hub/src/modules/connectors/zalo/zalo-webhook.controller.ts and
-- src/modules/webhooks/backend-api-message.client.ts, with the endpoint that they call,
-- services/backend-api/src/modules/messaging/api/internal-message.controller.ts.
pub mod Spaces
pub mod Guards
pub mod Landing
pub mod Forwarding
mod Tests
use mathlib.Core.List.{reverse}
use solodesk.Prelude.{
  ℕ, Bool, true, false, not, ◌&&◌, ◌||◌, Option, none, some, List, [], ◌∷◌, ◌==◌, leb,
}
use solodesk.Prelude.Action.{
  Action, Result, ok, err, Failure, not_found, refused, webhook_token_not_found, message_id_missing,
  message_fields_missing, throw_if, or_throw, pure, ◌>>=◌, ◌>>◌,
}
use solodesk.Money.{Text}
use solodesk.Messaging.{Message, MessageChannel, Mailbox, InboundMessageInput, record_inbound}
use solodesk.Connectors.{
  zalo, same_provider, ZaloBody, zalo_body, message_received, WebhookToken, PathToken, Given,
  absent, blank, given, WebhookEvent, Hub,
}
use solodesk.Connectors.Vault.{resolve_webhook_token}
use solodesk.Connectors.Webhooks.{NormalizedEvent, Recorded, record_event, mark_forwarded, occurred}
use solodesk.Connectors.Resilience.{Link, connector_fetch}

-- What `String.prototype.trim` strips.
abbrev pub is_space : ℕ → Bool
is_space c =
    (leb 9 c && leb c 13)
    || (c == 32 || (c == 160 || (c == 5760 || (leb 8192 c && leb c 8202))))
    || (c == 8232 || (c == 8233 || (c == 8239 || (c == 8287 || (c == 12288 || c == 65279)))))

abbrev pub trim_start : Text → Text
trim_start [] = []
trim_start (c ∷ s) = elim (is_space c) [ true ↦ trim_start s | false ↦ c ∷ s ]

abbrev pub trim : Text → Text
trim s = reverse (trim_start (reverse (trim_start s)))

abbrev pub is_empty : Text → Bool
is_empty [] = true
is_empty (c ∷ s) = false

-- What a delivery draws: the ids of the rows it may write, and the time.
pub record Drawn : Type 0 where
  pub event : ℕ
  pub message : ℕ
  pub now : ℕ

pub record Exchange : Type 0 where
  pub hub : Hub
  pub link : Link Mailbox

module _ {A : Type 0} where
  abbrev pub in_hub : Action Hub A → Action Exchange A
  in_hub m w = let (r, h) = m w.hub in (r, record w { hub = h })

  abbrev pub in_link : Action (Link Mailbox) A → Action Exchange A
  in_link m w = let (r, l) = m w.link in (r, record w { link = l })

pub record Answer : Type 0 where
  pub deduplicated : Bool
  pub forwarded : Bool

pub record ForwardMessageInput : Type 0 where
  pub tenant : ℕ
  pub channel : MessageChannel
  pub customer_name : Text
  pub content : Text
  pub source_event : ℕ
  pub occurred_at : ℕ

-- `POST /internal/messages/inbound`: the session is the tenant of the body.
unfoldable pub receive_inbound : ℕ → ℕ → ForwardMessageInput → Action Mailbox (Option Message)
receive_inbound id now input = record_inbound input.tenant id now input.tenant (record {
  channel = input.channel;
  customer_name = input.customer_name;
  content = input.content;
  source_event = input.source_event;
  occurred_at = input.occurred_at;
})

abbrev pub is_zalo : Option WebhookToken → Option WebhookToken
is_zalo none = none
is_zalo (some t) = elim (same_provider t.provider zalo) [ true ↦ some t | false ↦ none ]

-- `a ?? b`
abbrev pub or_else : Given → Given → Given
or_else absent b = b
or_else a b = a

abbrev pub nonempty : Given → Option ℕ
nonempty (given id) = some id
nonempty _ = none

-- `String(body.messageId ?? body.maNguoiDung ?? '')`, if it is not empty.
abbrev pub event_id : ZaloBody → Option ℕ
event_id body = nonempty (or_else body.message_id body.ma_nguoi_dung)

abbrev pub lacks_fields : ZaloBody → Bool
lacks_fields body = is_empty (trim body.noi_dung) || is_empty (trim body.khach)

abbrev pub chat : ℕ → ℕ → ℕ → ZaloBody → NormalizedEvent
chat tenant id occurred_at body = record {
  tenant = tenant;
  provider = zalo;
  provider_event_id = id;
  event_type = message_received;
  occurred_at = occurred_at;
  payload = zalo_body body;
}

module _ (status : Failure → ℕ)
    (execute : Action (Link Mailbox) (Unit {0}) → Action (Link Mailbox) (Unit {0})) where
  unfoldable pub forward_message : ℕ → ℕ → ForwardMessageInput → Action (Link Mailbox) (Unit {0})
  forward_message id now input = execute (connector_fetch status (receive_inbound id now input))

  abbrev pub forward_once :
      Drawn → ℕ → ForwardMessageInput → Recorded → Option ℕ → Action Exchange Answer
  forward_once drawn tenant input recorded (some at) =
      pure (record { deduplicated = not recorded.is_new; forwarded = false })
  forward_once drawn tenant input recorded none = do
    in_link (forward_message drawn.message drawn.now input)
    in_hub (mark_forwarded drawn.now recorded.event.id tenant)
    pure (record { deduplicated = not recorded.is_new; forwarded = true })

  -- The part behind the guards.
  unfoldable pub take_message : Drawn → ℕ → ZaloBody → ℕ → Action Exchange Answer
  take_message drawn tenant body id = do
    occurred_at ← or_throw (occurred drawn.now body.luc) refused
    recorded ← in_hub (record_event drawn.event drawn.now (chat tenant id occurred_at body))
    forward_once drawn tenant
        (record {
          tenant = tenant;
          channel = solodesk.Messaging.zalo;
          customer_name = trim body.khach;
          content = trim body.noi_dung;
          source_event = id;
          occurred_at = occurred_at;
        })
        recorded recorded.event.forwarded_at

  unfoldable pub handle_zalo : Drawn → PathToken → ZaloBody → Action Exchange Answer
  handle_zalo drawn token body = do
    found ← in_hub (resolve_webhook_token token)
    resolved ← or_throw (is_zalo found) (not_found webhook_token_not_found)
    id ← or_throw (event_id body) (not_found message_id_missing)
    throw_if (lacks_fields body) (not_found message_fields_missing)
    take_message drawn resolved.tenant body id
