-- ===== src/Connectors/Zalo/Forwarding.antt =====
-- A delivery that answers that it forwarded, whatever became of its requests.
use mathlib.Core.Path.{subst}
use solodesk.Prelude.{
  ℕ, true, false, not, Option, none, some, ◌==◌, ◌≡◌, refl, sym, ap, ◌∙◌, inl, inr, any, Bool-cases,
}
use solodesk.Prelude.Action.{Action, Result, ok, err, Failure, refused, pure, or_throw, ◌>>=◌, ◌>>◌}
use solodesk.Prelude.Success.{Succeeds, Succeeds_weaken, or_throw-Succeeds, then_ensures}
use solodesk.Messaging.{Message, InboundMessageInput, Mailbox, is_source, record_inbound}
use solodesk.Connectors.{PathToken, ZaloBody, WebhookToken, Hub}
use solodesk.Connectors.Vault.{resolve_webhook_token}
use solodesk.Connectors.Zalo.Guards.{
  ResolvesZalo, Identifies, ResolvesZalo-is_zalo, Identifies-event_id,
}
use solodesk.Connectors.Webhooks.{Recorded, record_event, mark_forwarded, occurred}
use solodesk.Connectors.Resilience.{Link, connector_fetch, Runs}
use solodesk.Connectors.Zalo.{
  Drawn, Exchange, Answer, in_hub, in_link, ForwardMessageInput, receive_inbound, forward_message,
  forward_once, take_message, trim, chat, handle_zalo, lacks_fields,
}
use solodesk.Connectors.Zalo.Landing.{Present, Ready, Runs-Sent, Sent-Succeeds}

-- A delivery that answers that it forwarded has left its message in the mailbox.
abbrev pub Forwarded : ℕ → ℕ → Answer → Exchange → Type 0
Forwarded tenant event a w = a.forwarded ≡ true → Present tenant event w.link.backend

module _ {A : Type 0} (w : Exchange) where
  in_link-Succeeds :
      (P : A → Link Mailbox → Type 0) (x : Result A × Link Mailbox)
      → Succeeds P x
      → Succeeds (λ a (w' : Exchange). P a w'.link) (x.0, record w { link = x.1 })
  in_link-Succeeds P (ok a, l) h = h
  in_link-Succeeds P (err e, l) h = tt

  kept :
      (x : Result A × Hub)
      → Succeeds (λ _ (w' : Exchange). w'.link ≡ w.link) (x.0, record w { hub = x.1 })
  kept (ok a, h) = refl
  kept (err e, h) = tt

  -- A call on the hub leaves the link.
  in_hub-link : (m : Action Hub A) → Succeeds (λ _ (w' : Exchange). w'.link ≡ w.link) (in_hub m w)
  in_hub-link m = kept (m w.hub)

module _ (status : Failure → ℕ)
    (execute : Action (Link Mailbox) (Unit {0}) → Action (Link Mailbox) (Unit {0}))
    (retries : (fn : Action (Link Mailbox) (Unit {0})) (l : Link Mailbox)
      → Runs fn l (execute fn l))
    (drawn : Drawn) (tenant : ℕ) where
  forward_message-Succeeds :
      (input : ForwardMessageInput) (l : Link Mailbox)
      → Ready drawn.message input.tenant input.source_event l.backend
      → Succeeds
          (λ _ l'. Present input.tenant input.source_event l'.backend)
          (forward_message status execute drawn.message drawn.now input l)
  unfolding forward_message
  forward_message-Succeeds input l ready =
      let fn = connector_fetch status (receive_inbound drawn.message drawn.now input) in
      Sent-Succeeds status drawn.message drawn.now input (execute fn l)
        (Runs-Sent status drawn.message drawn.now input l (execute fn l) (retries fn l) ready)

  marking :
      (event : ℕ) (recorded : Recorded) (w : Exchange)
      → Present tenant event w.link.backend
      → Succeeds (Forwarded tenant event) (
          (in_hub (mark_forwarded drawn.now recorded.event.id tenant)
              >> pure (record { deduplicated = not recorded.is_new; forwarded = true }))
            w)
  marking event recorded w there =
      then_ensures (λ _ (w' : Exchange). w'.link ≡ w.link) (Forwarded tenant event)
        (λ _. pure (record { deduplicated = not recorded.is_new; forwarded = true }))
        (λ _ w' same _.
          subst (λ (l : Link Mailbox). Present tenant event l.backend) (sym same) there)
        (in_hub (mark_forwarded drawn.now recorded.event.id tenant)) w
        (in_hub-link w (mark_forwarded drawn.now recorded.event.id tenant))

  forward_once-Forwarded :
      (input : ForwardMessageInput) (recorded : Recorded) (at : Option ℕ) (w : Exchange)
      → tenant ≡ input.tenant
      → Ready drawn.message input.tenant input.source_event w.link.backend
      → Succeeds
          (Forwarded tenant input.source_event)
          (forward_once status execute drawn tenant input recorded at w)
  forward_once-Forwarded input recorded (some at) w own ready = λ e. absurd (cc)
  forward_once-Forwarded input recorded none w own ready =
      then_ensures (λ _ (w' : Exchange). Present input.tenant input.source_event w'.link.backend)
        (Forwarded tenant input.source_event)
        (λ _.
          in_hub (mark_forwarded drawn.now recorded.event.id tenant)
          >> pure (record { deduplicated = not recorded.is_new; forwarded = true }))
        (λ _ w' there.
          marking input.source_event recorded w'
            (subst (λ t. Present t input.source_event w'.link.backend) (sym own) there))
        (in_link (forward_message status execute drawn.message drawn.now input)) w
        (in_link-Succeeds w (λ _ l'. Present input.tenant input.source_event l'.backend)
          (forward_message status execute drawn.message drawn.now input w.link)
          (forward_message-Succeeds input w.link ready))

  abbrev message_of : ZaloBody → ℕ → ℕ → ForwardMessageInput
  message_of body id at = record {
    tenant = tenant;
    channel = solodesk.Messaging.zalo;
    customer_name = trim body.khach;
    content = trim body.noi_dung;
    source_event = id;
    occurred_at = at;
  }

  abbrev recording : ZaloBody → ℕ → ℕ → Action Exchange Answer
  recording body id at = do
    recorded ← in_hub (record_event drawn.event drawn.now (chat tenant id at body))
    forward_once status execute drawn tenant (message_of body id at) recorded
        recorded.event.forwarded_at

  take_message-Forwarded :
      (body : ZaloBody) (id : ℕ) (w : Exchange)
      → Ready drawn.message tenant id w.link.backend
      → Succeeds (Forwarded tenant id) (take_message status execute drawn tenant body id w)
  unfolding take_message
  take_message-Forwarded body id w ready =
      then_ensures (λ _ (w' : Exchange). w' ≡ w) (Forwarded tenant id) (recording body id)
        (λ at w' same.
          then_ensures (λ _ (w'' : Exchange). w''.link ≡ w'.link) (Forwarded tenant id)
            (λ recorded.
              forward_once status execute drawn tenant (message_of body id at) recorded
                recorded.event.forwarded_at)
            (λ recorded w'' link.
              forward_once-Forwarded (message_of body id at) recorded recorded.event.forwarded_at
                w'' refl
                (subst (λ (l : Link Mailbox). Ready drawn.message tenant id l.backend)
                  (sym (link ∙ ap (λ (w : Exchange). w.link) same)) ready))
            (in_hub (record_event drawn.event drawn.now (chat tenant id at body))) w'
            (in_hub-link w' (record_event drawn.event drawn.now (chat tenant id at body))))
        (λ w. or_throw (occurred drawn.now body.luc) refused w) w
        (Succeeds_weaken (λ at w'. (occurred drawn.now body.luc ≡ some at) × (w' ≡ w))
          (λ _ w'. w' ≡ w) (λ _ _ h. h.1) (or_throw (occurred drawn.now body.luc) refused w)
          (or_throw-Succeeds (occurred drawn.now body.luc) refused w))

module _ (status : Failure → ℕ)
    (execute : Action (Link Mailbox) (Unit {0}) → Action (Link Mailbox) (Unit {0})) where
  -- Whatever becomes of the requests and however often they are repeated: if a delivery with the
  -- token of a tenant and the id of an event answers that it forwarded, the tenant's mailbox has the
  -- message of that event. The id drawn for the message must be free, and the policy around the
  -- requests may do no more than `Runs` allows.
  pub handle_zalo-Forwarded :
      (retries : (fn : Action (Link Mailbox) (Unit {0})) (l : Link Mailbox)
        → Runs fn l (execute fn l))
      (drawn : Drawn) (token : PathToken) (body : ZaloBody) (w : Exchange) (t : WebhookToken)
      (id : ℕ)
      → ResolvesZalo token w.hub t
      → Identifies body id
      → any (λ (m : Message). m.id == drawn.message) w.link.backend ≡ false
      → Succeeds (Forwarded t.tenant id) (handle_zalo status execute drawn token body w)
  unfolding handle_zalo resolve_webhook_token
  handle_zalo-Forwarded retries drawn token body w t id (k, is, there, own) named free =
      let passes = ResolvesZalo-is_zalo k w.hub t there own in
      let found = Identifies-event_id body id named in
      elim (Bool-cases (lacks_fields body)) [
        | inl lacking ↦ rw (is, passes, found, lacking) tt
        | inr full ↦
            rw (is, passes, found, full)
              (take_message-Forwarded status execute retries drawn t.tenant body id w (inl free))
      ]
