-- ===== src/Connectors/Sepay/Settlement.antt =====
-- SePay's deliveries one after the other, whatever becomes of their requests to the backend.
use mathlib.Core.Path.{subst}
use solodesk.Prelude.{
  ℕ, ◌≤◌, true, not, ◌&&◌, Option, none, some, List, [], ◌∷◌, ◌==◌, ◌≡◌, refl, sym, arith, inl, inr,
  All, Bool-cases, Option-cases, count, count-none, count_here, count_later,
}
use solodesk.Prelude.Action.{Action, Result, ok, err, Failure, follow, pure, ◌>>◌}
use solodesk.Money.{Text}
use solodesk.Sales.{Store}
use solodesk.Sales.Payments.{CreatePaymentInput, same_reference, record_payment}
use solodesk.Sales.Payments.Attempts.{has_reference, IsPaid, record_payment-Attempted}
use solodesk.Connectors.{PathToken, SepayBody, WebhookEvent, Hub}
use solodesk.Connectors.Vault.{Cipher}
use solodesk.Connectors.Webhooks.{NormalizedEvent, Recorded, record_event, mark_forwarded, occurred}
use solodesk.Connectors.Resilience.{Link, Runs}
use solodesk.Connectors.Sepay.{
  Fresh, World, Answer, on_hub, ForwardPaymentInput, reference, amount_of, to_forward,
  forward_payment, forward_found, transfer, take_transfer, handle,
}
use solodesk.Connectors.Sepay.Guards.{
  Admission, handle-Admission, malformed_token, foreign_token, unreadable, unknown_token,
  no_credentials, forged, no_id, admitted,
}
use solodesk.Connectors.Sepay.Landing.{Advances, attempt-Advances, forward_payment-Advances}
use solodesk.Connectors.Sepay.Rows.{
  Backed, HasRows, Only, Recording, record_event-Recording, mark_forwarded-HasRows,
}

-- No reference of a tenant is on two payments, each event has its id, and a transfer that is marked
-- as forwarded has its payment.
pub record IsSettled (sent : ℕ → SepayBody) (w : World) : Type 0 where
  pub at_most_once :
      (tenant code : ℕ) → count (has_reference tenant code) w.link.backend.payments ≤ 1
  pub rows : HasRows sent w.link.backend w.hub

same_pair :
    (t c t' c' own : ℕ) (code : Option ℕ)
    → (own == t && same_reference code c) ≡ true
    → (own == t' && same_reference code c') ≡ true
    → (t ≡ t') × (c ≡ c')
same_pair t c t' c' own none h k = absurd (ground arith)
same_pair t c t' c' own (some code) h k = ground arith

module _ (tenant code : ℕ) (s : Store) where
  Advances-IsPaid :
      (s' : Store) → Advances tenant code s s' → (t c : ℕ) → IsPaid t c s → IsPaid t c s'
  Advances-IsPaid s' (inl same) t c paid = rw same paid
  Advances-IsPaid s' (inr (p, h)) t c paid = rw h.0 (ground (arith, paid))

  Advances-count :
      (s' : Store)
      → Advances tenant code s s'
      → ((t c : ℕ) → count (has_reference t c) s.payments ≤ 1)
      → (t c : ℕ) → count (has_reference t c) s'.payments ≤ 1
  Advances-count s' (inl same) k t c = rw same (k t c)
  Advances-count s' (inr (p, h)) k t c = elim (Bool-cases (has_reference t c p)) [
    | inl named ↦
        let same = same_pair t c tenant code p.tenant p.reference_code named h.1 in
        let none_before : count (has_reference t c) s.payments ≡ 0 =
          count-none (has_reference t c) s.payments (rw (same.0, same.1) h.2) in
        rw (h.0, count_here (has_reference t c) p s.payments named, none_before) (omega arith)
    | inr other ↦ rw (h.0, count_later (has_reference t c) p s.payments other) (k t c)
  ]

Backed-Advances :
    (sent : ℕ → SepayBody) (tenant code : ℕ) (s s' : Store)
    → Advances tenant code s s'
    → (es : List WebhookEvent) → All (Backed sent s) es
    → All (Backed sent s') es
Backed-Advances sent tenant code s s' a [] h = tt
Backed-Advances sent tenant code s s' a (e ∷ es) h = (
  λ own at. Advances-IsPaid tenant code s s' a e.tenant _ (h.0 own at),
  Backed-Advances sent tenant code s s' a es h.1,
)

module _ (status : Failure → ℕ)
    (execute : Action (Link Store) (Unit {0}) → Action (Link Store) (Unit {0}))
    (retries : (fn : Action (Link Store) (Unit {0})) (l : Link Store) → Runs fn l (execute fn l))
    (sent : ℕ → SepayBody) where
  IsSettled-Advances :
      (tenant code : ℕ) (w : World) (l : Link Store)
      → IsSettled sent w
      → Advances tenant code w.link.backend l.backend
      → IsSettled sent (record w { link = l })
  IsSettled-Advances tenant code w l h a = record {
    at_most_once = Advances-count tenant code w.link.backend l.backend a h.at_most_once;
    rows = (
      h.rows.0,
      Backed-Advances sent tenant code w.link.backend l.backend a w.hub.events h.rows.1,
    );
  }

  module _ (fresh : Fresh) (tenant id : ℕ) where
    abbrev input : Text → ForwardPaymentInput
    input number = record {
      tenant = tenant;
      invoice_number = number;
      amount = amount_of (sent id).transfer_amount;
      reference_code = reference (sent id) id;
    }

    -- The row belongs to the delivery.
    abbrev Belongs : WebhookEvent → Hub → Type 0
    Belongs e h = (e.tenant ≡ tenant) × (e.provider_event_id ≡ id) × Only e h.events

    forwarded :
        (r : Recorded) (w : World) (number : Text)
        → IsSettled sent w
        → Belongs r.event w.hub
        → (x : Result (Unit {0}) × Link Store)
        → Advances tenant (reference (sent id) id) w.link.backend (x.1).backend
          × (x.0 ≡ ok tt → IsPaid tenant (reference (sent id) id) (x.1).backend)
        → IsSettled sent
            (follow {B = Answer} x.0
              (λ _.
                on_hub (mark_forwarded fresh.now r.event.id tenant)
                >> pure (record { deduplicated = not r.is_new; forwarded = true }))
              (record w { link = x.1 })).1
    unfolding mark_forwarded
    forwarded r w number h b (err e, l) (a, done) =
        IsSettled-Advances tenant (reference (sent id) id) w l h a
    forwarded r w number h b (ok u, l) (a, done) =
        let h' = IsSettled-Advances tenant (reference (sent id) id) w l h a in
        record {
          at_most_once = h'.at_most_once;
          rows =
              mark_forwarded-HasRows sent l.backend fresh.now tenant r.event w.hub h'.rows b.2
                (rw (b.0, b.1) (done refl));
        }

    forward_found-IsSettled :
        (r : Recorded) (o : Option Text) (w : World)
        → IsSettled sent w
        → Belongs r.event w.hub
        → IsSettled sent (forward_found status execute fresh tenant (sent id) id r o w).1
    forward_found-IsSettled r none w h b = h
    forward_found-IsSettled r (some number) w h b =
        forwarded r w number h b
          (forward_payment status execute fresh.payment fresh.now (input number) w.link)
          (forward_payment-Advances status execute retries fresh.payment fresh.now (input number)
            w.link)

    abbrev event_of : ℕ → NormalizedEvent
    event_of occurred_at = transfer tenant id occurred_at (sent id)

    recorded-IsSettled :
        (w : World) (occurred_at : ℕ)
        → IsSettled sent w
        → (x : Result Recorded × Hub) → Recording sent w.link.backend (event_of occurred_at) x
        → IsSettled sent
            (follow {B = Answer} x.0
              (λ r.
                forward_found status execute fresh tenant
                  (sent id)
                  id
                  r
                  (to_forward (sent id) r.event))
              (record w { hub = x.1 })).1
    recorded-IsSettled w occurred_at h (err e, hub) rows = record {
      at_most_once = h.at_most_once;
      rows = rows;
    }
    recorded-IsSettled w occurred_at h (ok r, hub) (rows, (own, only)) =
        forward_found-IsSettled r (to_forward (sent id) r.event) (record w { hub = hub })
          (record { at_most_once = h.at_most_once; rows = rows })
          (ground (arith, own), ground (arith, own), only)

    take_transfer-IsSettled :
        (w : World)
        → IsSettled sent w
        → IsSettled sent (take_transfer status execute fresh tenant (sent id) id w).1
    unfolding take_transfer
    take_transfer-IsSettled w h =
        elim (Option-cases (occurred fresh.now (sent id).transaction_date)) [
          | inl invalid ↦ rw invalid h
          | inr (at, e) ↦ rw e (
              recorded-IsSettled w at h (record_event fresh.event fresh.now (event_of at) w.hub) (
                record_event-Recording sent w.link.backend fresh.event fresh.now (event_of at) w.hub
                  h.rows))
        ]

  module _ (c : Cipher) where
    -- What happens between two moments: a delivery, whose body is the one that was sent under its
    -- id, or a payment with a reference that someone records at the backend.
    pub data Step (w w' : World) : Type 0 where
      delivers :
          (fresh : Fresh) (token : PathToken) (header : Option Text) (body : SepayBody)
          → ((id : ℕ) → body.id ≡ some id → body ≡ sent id)
          → w' ≡ (handle status execute c fresh token header body w).1
          → Step w w'
      records :
          (session id now tenant code : ℕ) (payment : CreatePaymentInput)
          → payment.reference_code ≡ some code
          → w' ≡ record w {
            link = record (w.link) {
              backend = (record_payment session id now tenant payment w.link.backend).1;
            };
          }
          → Step w w'

    pub data Reach (w : World) : World → Type 0 where
      here : Reach w w
      next : {w' w'' : World} → Reach w w' → Step w' w'' → Reach w w''

    admission-IsSettled :
        (fresh : Fresh) (token : PathToken) (header : Option Text) (body : SepayBody) (w : World)
        → ((id : ℕ) → body.id ≡ some id → body ≡ sent id)
        → IsSettled sent w
        → {x : Result Answer × World} → Admission status execute c fresh token header body w x
        → IsSettled sent x.1
    admission-IsSettled fresh token header body w genuine h (malformed_token e) = h
    admission-IsSettled fresh token header body w genuine h (unknown_token k e n) = h
    admission-IsSettled fresh token header body w genuine h (foreign_token k t e r n) = h
    admission-IsSettled fresh token header body w genuine h (no_credentials t e v) = h
    admission-IsSettled fresh token header body w genuine h (unreadable t e r v n) = h
    admission-IsSettled fresh token header body w genuine h (forged t p e v k) = h
    admission-IsSettled fresh token header body w genuine h (no_id t p e v k n) = h
    admission-IsSettled fresh token header body w genuine h (admitted t p id e v k found) =
        subst (λ b. IsSettled sent (take_transfer status execute fresh t.tenant b id w).1)
          (sym (genuine id found)) (take_transfer-IsSettled fresh t.tenant id w h)

    Step-IsSettled : {w w' : World} → IsSettled sent w → Step w w' → IsSettled sent w'
    Step-IsSettled {w} h (delivers fresh token header body genuine e) =
        subst (IsSettled sent) (sym e) (
          admission-IsSettled fresh token header body w genuine h
            (handle-Admission status execute c fresh token header body w))
    Step-IsSettled {w} h (records session id now tenant code payment named e) =
        subst (IsSettled sent) (sym e) (
          IsSettled-Advances tenant code w _ h (
            attempt-Advances tenant code w.link.backend
              (record_payment session id now tenant payment w.link.backend)
              (record_payment-Attempted tenant code w.link.backend id now payment named session)))

    -- Whatever deliveries of SePay and payments with a reference follow each other, and whatever
    -- becomes of the requests to the backend, under any retries and breaker: no reference of a
    -- tenant is on two payments, no two events share an id, and every transfer that is marked as
    -- forwarded has its payment. SePay sends the same body whenever it sends an id.
    pub Reach-IsSettled : {w w' : World} → IsSettled sent w → Reach w w' → IsSettled sent w'
    Reach-IsSettled h here = h
    Reach-IsSettled h (next r st) = Step-IsSettled (Reach-IsSettled h r) st
