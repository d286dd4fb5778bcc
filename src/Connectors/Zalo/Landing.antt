-- ===== src/Connectors/Zalo/Landing.antt =====
-- What a request to the backend leaves in its mailbox, whatever becomes of it.
use mathlib.Core.Path.{subst}
use solodesk.Prelude.{
  ℕ, true, false, Option, List, [], ◌∷◌, ◌==◌, ◌≡◌, ◌⊎◌, arith, inl, inr, any, Bool-cases, ==_refl,
}
use solodesk.Prelude.Action.{Result, ok, err, Failure}
use solodesk.Prelude.Success.{Succeeds}
use solodesk.Messaging.{Message, InboundMessageInput, Mailbox, is_source}
use solodesk.Messaging.Inbound.{known_event, new_event}
use solodesk.Connectors.{ZaloBody, WebhookToken, Hub}
use solodesk.Connectors.Resilience.{
  Fate, delivered, request_lost, answer_lost, body_lost, Link, connector_fetch, send, Runs, broken,
  last, again,
}
use solodesk.Connectors.Zalo.{ForwardMessageInput, receive_inbound}

-- The event's message is in the mailbox.
abbrev pub Present : ℕ → ℕ → Mailbox → Type 0
Present tenant event ms = any (is_source tenant event) ms ≡ true

-- The id that the message would get is free, or the message is there.
abbrev pub Ready : ℕ → ℕ → ℕ → Mailbox → Type 0
Ready id tenant event ms = (any (λ (m : Message). m.id == id) ms ≡ false) ⊎ Present tenant event ms

module _ (status : Failure → ℕ) (id now : ℕ) (input : ForwardMessageInput) where
  abbrev inbound : InboundMessageInput
  inbound = record {
    channel = input.channel;
    customer_name = input.customer_name;
    content = input.content;
    source_event = input.source_event;
    occurred_at = input.occurred_at;
  }

  landing :
      (ms : Mailbox)
      → Ready id input.tenant input.source_event ms
      → Present input.tenant input.source_event (receive_inbound id now input ms).1
  unfolding receive_inbound
  landing ms ready = elim (Bool-cases (any (is_source input.tenant input.source_event) ms)) [
    | inl there ↦ rw (known_event input.tenant id now inbound ms there) there
    | inr absent ↦ elim ready [
      | inr there ↦ absurd (cc)
      | inl free ↦
          rw (new_event input.tenant id now inbound ms free absent)
            (ground (arith, ==_refl input.tenant, ==_refl input.source_event))
    ]
  ]

  -- A request that got an answer has left the message in the mailbox.
  abbrev Sent : Result (Unit {0}) × Link Mailbox → Type 0
  Sent (ok u, l) = Present input.tenant input.source_event l.backend
  Sent (err e, l) = Ready id input.tenant input.source_event l.backend

  answered-Sent :
      (x : Result (Option Message) × Mailbox) (fates : List Fate)
      → Present input.tenant input.source_event x.1
      → Sent (
        solodesk.Connectors.Resilience.answered status x.0,
        record { backend = x.1; fates = fates },
      )
  answered-Sent (ok a, ms) fates there = there
  answered-Sent (err e, ms) fates there = inr there

  bodiless-Sent :
      (x : Result (Option Message) × Mailbox) (fates : List Fate)
      → Present input.tenant input.source_event x.1
      → Sent (
        solodesk.Connectors.Resilience.bodiless status x.0,
        record { backend = x.1; fates = fates },
      )
  bodiless-Sent (ok a, ms) fates there = there
  bodiless-Sent (err e, ms) fates there = inr there

  send-Sent :
      (f : Fate) (fates : List Fate) (ms : Mailbox)
      → Ready id input.tenant input.source_event ms
      → Sent (send status (receive_inbound id now input) f fates ms)
  send-Sent delivered fates ms ready =
      answered-Sent (receive_inbound id now input ms) fates (landing ms ready)
  send-Sent body_lost fates ms ready =
      bodiless-Sent (receive_inbound id now input ms) fates (landing ms ready)
  send-Sent answer_lost fates ms ready = inr (landing ms ready)
  send-Sent request_lost fates ms ready = ready

  fetch-Sent :
      (ms : Mailbox) (fates : List Fate)
      → Ready id input.tenant input.source_event ms
      → Sent (
          connector_fetch status
            (receive_inbound id now input)
            (record { backend = ms; fates = fates }))
  unfolding connector_fetch
  fetch-Sent ms [] ready = send-Sent delivered [] ms ready
  fetch-Sent ms (f ∷ fates) ready = send-Sent f fates ms ready

  pub Runs-Sent :
      (l : Link Mailbox) (x : Result (Unit {0}) × Link Mailbox)
      → Runs (connector_fetch status (receive_inbound id now input)) l x
      → Ready id input.tenant input.source_event l.backend
      → Sent x
  Runs-Sent l x broken ready = ready
  Runs-Sent l x (last e) ready = subst Sent e (fetch-Sent l.backend l.fates ready)
  Runs-Sent l x (again {s' = l'} e rest) ready =
      Runs-Sent l' x rest (subst Sent e (fetch-Sent l.backend l.fates ready))

  pub Sent-Succeeds :
      (x : Result (Unit {0}) × Link Mailbox)
      → Sent x
      → Succeeds (λ _ l. Present input.tenant input.source_event l.backend) x
  Sent-Succeeds (ok u, l) there = there
  Sent-Succeeds (err e, l) ready = tt
