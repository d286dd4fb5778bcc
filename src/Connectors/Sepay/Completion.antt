-- ===== src/Connectors/Sepay/Completion.antt =====
-- A delivery whose requests get through settles its transfer, also one that failed before.
use mathlib.Core.Path.{subst}
use solodesk.Prelude.{
  ℕ, Bool, true, false, not, ◌&&◌, ◌||◌, Option, none, some, List, [], ◌∷◌, ◌==◌, ◌≡◌, ◌⊎◌, refl,
  ap, sym, ◌∙◌, arith, inl, inr, any, find, All, Bool-cases, Option-cases, ==_refl, find-hit,
  any-find, find-All,
}
use solodesk.Prelude.Tables.{
  Update, unchanged, changed, update_first, update_first-unchanged, update_first-Updated,
}
use solodesk.Prelude.Rows.{any-update_first}
use solodesk.Prelude.Action.{
  Action, Result, ok, err, Failure, conflict, duplicate_payment_reference, retryable, follow, pure,
  ◌>>◌,
}
use solodesk.Money.{Text}
use solodesk.Sales.{Store, Payment}
use solodesk.Sales.Payments.Attempts.{IsPaid}
use solodesk.Connectors.{PathToken, sepay, SepayBody, WebhookToken, WebhookEvent, Hub}
use solodesk.Connectors.InvoiceNumbers.{extract_invoice_number}
use solodesk.Connectors.Webhooks.{
  NormalizedEvent, Recorded, stored, marked, is_event, is_own_event, find_by_provider_event_id,
  record_if_new, record_event, mark_forwarded, occurred,
}
use solodesk.Connectors.Resilience.{Link, Runs, Calls, once, retried, connector_fetch, classify}
use solodesk.Connectors.Sepay.{
  Fresh, World, Answer, ForwardPaymentInput, record_by_invoice_number, landed, reference, amount_of,
  to_forward, forward_payment, forward_found, transfer, take_transfer, on_hub, handle,
  expected_header,
}
use solodesk.Connectors.Vault.{Cipher, CredentialPayload}
use solodesk.Connectors.Sepay.Guards.{Resolves, Vaulted, handle-admitted}
use solodesk.Connectors.Sepay.Landing.{forward_payment-Advances}
use solodesk.Connectors.Sepay.Rows.{is_forwarded, Only, Backed, Recording, record_event-Recording}
use solodesk.Connectors.Sepay.Settlement.{IsSettled}

-- The backend takes the payment, or has it.
abbrev pub Accepts : Result Payment → Type 0
Accepts r = ((p : Payment) × (r ≡ ok p)) ⊎ (r ≡ err (conflict duplicate_payment_reference))

module _ (status : Failure → ℕ) (conflict_409 : status (conflict duplicate_payment_reference) ≡ 409)
    (execute : Action (Link Store) (Unit {0}) → Action (Link Store) (Unit {0})) (id now : ℕ)
    (input : ForwardPaymentInput) (l : Link Store) where
  abbrev request : Action (Link Store) (Unit {0})
  request = connector_fetch status (record_by_invoice_number id now input)

  request-landed :
      (y : Result Payment × Store)
      → record_by_invoice_number id now input (l.backend) ≡ y
      → Accepts y.0
      → l.fates ≡ []
      → (landed (request l).0 ≡ ok tt) × ((request l).0 ≡ err retryable → ⊥)
  unfolding connector_fetch classify
  request-landed y e (inl (p, taken)) idle = rw (idle, e, taken) (refl, λ z. absurd (cc))
  request-landed y e (inr had) idle = rw (idle, e, had, conflict_409) (refl, λ z. absurd (cc))

  call-landed :
      (idle : l.fates ≡ [])
      → Accepts (record_by_invoice_number id now input l.backend).0
      → {x : Result (Unit {0}) × Link Store} → Calls request l x
      → landed x.0 ≡ ok tt
  call-landed idle accepts (once e) =
      ap (λ x. landed x.0) (sym e)
      ∙ (request-landed (record_by_invoice_number id now input l.backend) refl accepts idle).0
  call-landed idle accepts (retried e r) = absurd (
      (request-landed (record_by_invoice_number id now input l.backend) refl accepts idle).1
        (ap (λ x. x.0) e))

  forward_payment-landed :
      Calls request l (execute request l)
      → l.fates ≡ []
      → Accepts (record_by_invoice_number id now input l.backend).0
      → (forward_payment status execute id now input l).0 ≡ ok tt
  unfolding forward_payment
  forward_payment-landed closed idle accepts = call-landed idle accepts closed

-- The row of a transfer, and whether it is marked.
abbrev pub is_done : ℕ → ℕ → WebhookEvent → Bool
is_done id tenant r = is_own_event sepay id tenant r && is_forwarded r

-- The row is there, under its id.
abbrev Present : ℕ → WebhookEvent → Hub → Type 0
Present tenant row h =
    any (λ (x : WebhookEvent). x.id == row.id && x.tenant == tenant) h.events ≡ true

module _ (event now tenant id occurred_at : ℕ) (body : SepayBody) (h : Hub) where
  abbrev event_sent : NormalizedEvent
  event_sent = transfer tenant id occurred_at body

  -- The database draws a new id, and no other tenant has recorded the transaction.
  abbrev pub Free : Type 0
  Free =
      (any (λ (r : WebhookEvent). r.id == event) h.events ≡ false)
      × (find_by_provider_event_id sepay id tenant h ≡ none
          → any (is_event sepay id) h.events ≡ false)

  record_event-ok :
      Free
      → (r : Recorded) × (h' : Hub) × (record_event event now event_sent h ≡ (ok r, h'))
        × (is_own_event sepay id tenant r.event ≡ true)
        × Present tenant r.event h'
        × (find_by_provider_event_id sepay id tenant h' ≡ some r.event)
  unfolding record_event record_if_new find_by_provider_event_id
  record_event-ok (fresh, own) =
      elim (Option-cases (find (is_own_event sepay id tenant) h.events)) [
        | inl new ↦ (
          record { event = stored event now event_sent; is_new = true },
          record h { events = stored event now event_sent ∷ h.events },
          rw (fresh, own new) refl,
          ground (arith, ==_refl tenant, ==_refl id),
          ground (arith, ==_refl tenant, ==_refl event),
          ground (arith, ==_refl tenant, ==_refl id),
        )
        | inr (row, found) ↦
            let hit = find-hit (is_own_event sepay id tenant) h.events row found in
            (
              record { event = row; is_new = false },
              h,
              rw
                  (
                    fresh,
                    any-find (is_own_event sepay id tenant) (is_event sepay id) h.events row found
                        (ground (arith, hit)),
                    found,
                  )
                  refl,
              hit,
              any-find (is_own_event sepay id tenant) _ h.events row found
                  (ground (arith, hit, ==_refl row.id)),
              found,
            )
      ]

module _ (now tenant id : ℕ) (row : WebhookEvent)
    (own : is_own_event sepay id tenant row ≡ true) where
  -- Either another row, or one of the transfer.
  abbrev fits_id : WebhookEvent → Bool
  fits_id x = not (x.id == row.id) || is_own_event sepay id tenant x

  others_elsewhere : (es : List WebhookEvent) → Only row es → All (λ x. fits_id x ≡ true) es
  others_elsewhere [] o = tt
  others_elsewhere (x ∷ es) o = (
    elim (Bool-cases (x.id == row.id)) [
      | inl same ↦ subst (λ e. fits_id e ≡ true) (sym (o.0 same)) (ground (arith, own))
      | inr other ↦ ground (arith, other)
    ],
    others_elsewhere es o.1,
  )

  abbrev hit : WebhookEvent → Bool
  hit x = x.id == row.id && x.tenant == tenant

  abbrev mark : WebhookEvent → WebhookEvent
  mark r = record r { forwarded_at = some now }

  marked-done :
      (h : Hub) (u : Update WebhookEvent)
      → update_first hit mark h.events ≡ u
      → Present tenant row h
      → Only row h.events
      → any (is_done id tenant) (marked u h).events ≡ true
  marked-done h unchanged e present only =
      absurd (let gone = (update_first-unchanged hit mark h.events).0 e in cc)
  marked-done h (changed r es) e present only =
      let u = update_first-Updated hit mark h.events e in
      let q = u.among fits_id (others_elsewhere h.events only) in
      any-update_first (is_done id tenant) hit mark h.events e (rw u.new (ground (arith, q, u.hit)))

  mark_forwarded-done :
      (h : Hub)
      → Present tenant row h
      → Only row h.events
      → any (is_done id tenant) (mark_forwarded now row.id tenant h).1.events ≡ true
  unfolding mark_forwarded
  mark_forwarded-done h present only =
      marked-done h (update_first hit mark h.events) refl present only

module _ (status : Failure → ℕ) (conflict_409 : status (conflict duplicate_payment_reference) ≡ 409)
    (execute : Action (Link Store) (Unit {0}) → Action (Link Store) (Unit {0}))
    (retries : (fn : Action (Link Store) (Unit {0})) (l : Link Store) → Runs fn l (execute fn l))
    (sent : ℕ → SepayBody) (fresh : Fresh) (tenant id at : ℕ) (number : Text) (w : World) where
  abbrev pub forward_input : ForwardPaymentInput
  forward_input = record {
    tenant = tenant;
    invoice_number = number;
    amount = amount_of (sent id).transfer_amount;
    reference_code = reference (sent id) id;
  }

  -- The delivery is answered, the transfer's row is marked, and its payment is at the backend.
  abbrev pub Completes : Result Answer × World → Type 0
  Completes x =
      ((a : Answer) × (x.0 ≡ ok a))
      × (any (is_done id tenant) (x.1).hub.events ≡ true)
      × IsPaid tenant (reference (sent id) id) (x.1).link.backend

  abbrev goes_on : Recorded → Option Text → Hub → Result Answer × World
  goes_on r o h = forward_found status execute fresh tenant (sent id) id r o (record w { hub = h })

  after_forward :
      (r : Recorded) (h : Hub)
      → any (is_done id tenant) (mark_forwarded fresh.now r.event.id tenant h).1.events ≡ true
      → (x : Result (Unit {0}) × Link Store) → x.0 ≡ ok tt
      → IsPaid tenant (reference (sent id) id) (x.1).backend
      → Completes (
          follow {B = Answer} x.0
            (λ _.
              on_hub (mark_forwarded fresh.now r.event.id tenant)
              >> pure (record { deduplicated = not r.is_new; forwarded = true }))
            (record w { hub = h; link = x.1 }))
  unfolding mark_forwarded
  after_forward r h done (ok u, l) e paid = ((_, refl), done, paid)
  after_forward r h done (err f, l) e paid = absurd (cc)

  same_payment :
      {t i : ℕ}
      → t ≡ tenant
      → i ≡ id
      → IsPaid t (reference (sent i) i) w.link.backend
      → IsPaid tenant (reference (sent id) id) w.link.backend
  same_payment {t} {i} e f paid =
      subst (λ i. IsPaid tenant (reference (sent i) i) w.link.backend) f
        (subst (λ t. IsPaid t (reference (sent i) i) w.link.backend) e paid)

  -- The row as it was recorded, with its place in the table.
  abbrev Placed : Recorded → Hub → Type 0
  Placed r h =
      (is_own_event sepay id tenant r.event ≡ true)
      × Present tenant r.event h
      × (find_by_provider_event_id sepay id tenant h ≡ some r.event)
      × Only r.event h.events
      × All (Backed sent w.link.backend) h.events

  goes_on-Completes :
      (r : Recorded) (h : Hub)
      → Placed r h
      → (forward_payment status execute fresh.payment fresh.now forward_input w.link).0 ≡ ok tt
      → (sent id).is_incoming ≡ true
      → extract_invoice_number (sent id).content ≡ some number
      → (o : Option ℕ) → r.event.forwarded_at ≡ o
      → Completes (goes_on r (to_forward (sent id) r.event) h)
  unfolding find_by_provider_event_id
  goes_on-Completes r h (own, present, found, only, backed) landed incoming named (some t) marked =
      let q = is_own_event sepay id tenant in
      let done : is_forwarded r.event ≡ true = ground (arith, marked) in
      let paid =
        find-All (Backed sent w.link.backend) q h.events r.event backed found (ground (arith, own))
          done in
      let none_left : to_forward (sent id) r.event ≡ none = ground (arith, incoming, marked) in
      subst (λ o. Completes (goes_on r o h)) (sym none_left)
        (
          (_, refl),
          any-find q (is_done id tenant) h.events r.event found (ground (arith, own, done)),
          same_payment (ground (arith, own)) (ground (arith, own)) paid,
        )
  goes_on-Completes r h (own, present, found, only, backed) landed incoming named none unmarked =
      let left : to_forward (sent id) r.event ≡ some number =
        ground (arith, incoming, unmarked, named) in
      subst (λ o. Completes (goes_on r o h)) (sym left)
        (after_forward r h (mark_forwarded-done fresh.now tenant id r.event own h present only)
          (forward_payment status execute fresh.payment fresh.now forward_input w.link) landed
          ((forward_payment-Advances status execute retries fresh.payment fresh.now forward_input
              w.link).1
            landed))

  recorded-Completes :
      IsSettled sent w
      → Free fresh.event fresh.now tenant id at (sent id) w.hub
      → (forward_payment status execute fresh.payment fresh.now forward_input w.link).0 ≡ ok tt
      → (sent id).is_incoming ≡ true
      → extract_invoice_number (sent id).content ≡ some number
      → occurred fresh.now (sent id).transaction_date ≡ some at
      → Completes (take_transfer status execute fresh tenant (sent id) id w)
  unfolding take_transfer
  recorded-Completes settled free landed incoming named dated =
      let (r, h, e, own, present, found) =
        record_event-ok fresh.event fresh.now tenant id at (sent id) w.hub free in
      let kept = subst (Recording sent w.link.backend (transfer tenant id at (sent id))) e (
        record_event-Recording sent w.link.backend fresh.event fresh.now
          (transfer tenant id at (sent id)) w.hub settled.rows) in
      rw (dated, e)
        (goes_on-Completes r h (own, present, found, kept.1.1, kept.0.1) landed incoming named
          r.event.forwarded_at refl)

  -- A delivery that is admitted settles its transfer, in every settled world, so also after earlier
  -- deliveries that failed anywhere: the answer is a success, the transfer's row is marked as
  -- forwarded, and its payment is at the backend. The transfer is an incoming one with an invoice
  -- number and a readable date; the backend takes its payment or reports that it has it; requests get
  -- through and the breaker is closed; the database draws a new id, and no other tenant has recorded
  -- the transaction. A conflict is answered with status 409.
  pub handle-Completes :
      (c : Cipher) (token : PathToken) (header : Option Text) (t : WebhookToken)
      (p : CredentialPayload)
      → Resolves token w.hub t
      → t.tenant ≡ tenant
      → Vaulted c w.hub t p
      → header ≡ some (expected_header p)
      → (sent id).id ≡ some id
      → IsSettled sent w
      → Free fresh.event fresh.now tenant id at (sent id) w.hub
      → (sent id).is_incoming ≡ true
      → extract_invoice_number (sent id).content ≡ some number
      → occurred fresh.now (sent id).transaction_date ≡ some at
      → ((fn : Action (Link Store) (Unit {0})) → Calls fn w.link (execute fn w.link))
      → w.link.fates ≡ []
      → Accepts (record_by_invoice_number fresh.payment fresh.now forward_input w.link.backend).0
      → Completes (handle status execute c fresh token header (sent id) w)
  handle-Completes c token header t p known own vaulted genuine found settled free incoming named
        dated closed idle accepts =
      subst (λ x. Completes x)
        (sym (
          handle-admitted status execute c fresh token header (sent id) w t p id known vaulted
            genuine found
          ∙ ap (λ (k : ℕ). take_transfer status execute fresh k (sent id) id w) own))
        (recorded-Completes settled free
          (forward_payment-landed status conflict_409 execute fresh.payment fresh.now forward_input
            w.link (closed _) idle accepts)
          incoming named dated)
