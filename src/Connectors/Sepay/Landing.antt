-- ===== src/Connectors/Sepay/Landing.antt =====
-- What one attempt to record a transfer does at the backend, and any number of them.
use mathlib.Core.Path.{subst}
use solodesk.Prelude.{
  ℕ, Bool, true, false, Option, none, some, List, [], ◌∷◌, ◌≡◌, ◌⊎◌, refl, ap, sym, inl, inr, any,
  Bool-cases,
}
use solodesk.Prelude.Action.{
  Action, Result, ok, err, Failure, Code, code_of, duplicate_payment_reference, non_retryable,
}
use solodesk.Sales.{Store, Payment}
use solodesk.Sales.Payments.Attempts.{
  has_reference, IsPaid, Landed, Attempted, record_payment_by_invoice_number-Attempted,
}
use solodesk.Connectors.Resilience.{
  Fate, delivered, request_lost, answer_lost, body_lost, Link, classify, rejected, answered,
  bodiless, send, connector_fetch, Runs, broken, last, again,
}
use solodesk.Connectors.Sepay.{
  ForwardPaymentInput, record_by_invoice_number, is_duplicate, landed, forward_payment,
}

duplicate_code :
    (c : Code) → is_duplicate (non_retryable (some c)) ≡ true → c ≡ duplicate_payment_reference
duplicate_code duplicate_payment_reference e = refl
duplicate_code _ e = absurd (cc)

landed_duplicate :
    (b : Bool) (c : Option Code)
    → landed (err (rejected b c)) ≡ ok tt
    → c ≡ some duplicate_payment_reference
landed_duplicate true c e = absurd (cc)
landed_duplicate false none e = absurd (cc)
landed_duplicate false (some c) e = elim (Bool-cases (is_duplicate (non_retryable (some c)))) [
  | inl yes_ ↦ ap some (duplicate_code c yes_)
  | inr no_ ↦ absurd (let h = rw no_ at e in cc)
]

module _ (tenant code : ℕ) where
  -- The backend gained nothing, or the one payment with the reference.
  abbrev pub Advances : Store → Store → Type 0
  Advances s s' = (s' ≡ s) ⊎ ((p : Payment) × Landed tenant code s p s')

  new_payment_counts :
      (s s' : Store) (p : Payment) → Landed tenant code s p s' → IsPaid tenant code s'
  new_payment_counts s s' p (e, own, absent) =
      rw (ap (λ (s : Store). any (has_reference tenant code) s.payments) e, own) refl

  Advances-trans : (s s' s'' : Store) → Advances s s' → Advances s' s'' → Advances s s''
  Advances-trans s s' s'' (inl same) y = subst (λ z. Advances z s'') same y
  Advances-trans s s' s'' (inr (p, h)) (inl same) =
      inr (p, subst (λ z. Landed tenant code s p z) (sym same) h)
  Advances-trans s s' s'' (inr (p, h)) (inr (q, k)) =
      absurd (let paid = new_payment_counts s s' p h in let absent = k.2 in cc)

  -- What a call leaves at the backend; if it counts as done, the payment is there.
  abbrev pub Fetched : Store → Result (Unit {0}) × Link Store → Type 0
  Fetched s x = Advances s (x.1).backend × (landed x.0 ≡ ok tt → IsPaid tenant code (x.1).backend)

  pub attempt-Advances :
      (s : Store) (y : Result Payment × Store) → Attempted tenant code s y → Advances s y.1
  attempt-Advances s (ok p, s') h = inr (p, h)
  attempt-Advances s (err e, s') h = inl h.0

  module _ (status : Failure → ℕ) (s : Store) where
    answered-Fetched :
        (fates : List Fate) (y : Result Payment × Store)
        → Attempted tenant code s y
        → Fetched s (answered status y.0, record { backend = y.1; fates = fates })
    answered-Fetched fates (ok p, s') h = (inr (p, h), λ _. new_payment_counts s s' p h)
    answered-Fetched fates (err e, s') (same, truthful) = (
      inl same,
      λ done.
          subst (IsPaid tenant code) (sym same)
            (truthful (landed_duplicate (classify (status e)) (code_of e) done)),
    )

    bodiless-Fetched :
        (fates : List Fate) (y : Result Payment × Store)
        → Attempted tenant code s y
        → Fetched s (bodiless status y.0, record { backend = y.1; fates = fates })
    bodiless-Fetched fates (ok p, s') h = (inr (p, h), λ _. new_payment_counts s s' p h)
    bodiless-Fetched fates (err e, s') (same, truthful) =
        (inl same, λ done. absurd (let c = landed_duplicate (classify (status e)) none done in cc))

    send-Fetched :
        (call : Action Store Payment) (f : Fate) (fates : List Fate)
        → Attempted tenant code s (call s)
        → Fetched s (send status call f fates s)
    send-Fetched call delivered fates h = answered-Fetched fates (call s) h
    send-Fetched call body_lost fates h = bodiless-Fetched fates (call s) h
    send-Fetched call answer_lost fates h = (attempt-Advances s (call s) h, λ done. absurd (cc))
    send-Fetched call request_lost fates h = (inl refl, λ done. absurd (cc))

    fetch-Fetched :
        (call : Action Store Payment) (fates : List Fate)
        → Attempted tenant code s (call s)
        → Fetched s (connector_fetch status call (record { backend = s; fates = fates }))
    unfolding connector_fetch
    fetch-Fetched call [] h = send-Fetched call delivered [] h
    fetch-Fetched call (f ∷ fates) h = send-Fetched call f fates h

  module _ (fn : Action (Link Store) (Unit {0}))
      (one : (l : Link Store) → Fetched (l.backend) (fn l)) where
    -- However often the call is made.
    Runs-Fetched :
        {l : Link Store} {x : Result (Unit {0}) × Link Store} → Runs fn l x → Fetched (l.backend) x
    Runs-Fetched {l} broken = (inl refl, λ done. absurd (cc))
    Runs-Fetched {l} (last e) = subst (Fetched (l.backend)) e (one l)
    Runs-Fetched {l} {x} (again {s' = l'} e r) =
        let first = subst (Fetched (l.backend)) e (one l) in
        let rest = Runs-Fetched r in
        (Advances-trans (l.backend) (l'.backend) ((x.1).backend) first.0 rest.0, rest.1)

module _ (status : Failure → ℕ)
    (execute : Action (Link Store) (Unit {0}) → Action (Link Store) (Unit {0}))
    (retries : (fn : Action (Link Store) (Unit {0})) (l : Link Store) → Runs fn l (execute fn l))
    (id now : ℕ) (input : ForwardPaymentInput) (l : Link Store) where
  forward_payment-Fetched :
      Fetched input.tenant input.reference_code l.backend
        (execute (connector_fetch status (record_by_invoice_number id now input)) l)
  unfolding record_by_invoice_number
  forward_payment-Fetched =
      Runs-Fetched input.tenant input.reference_code
        (connector_fetch status (record_by_invoice_number id now input))
        (λ l.
          fetch-Fetched input.tenant input.reference_code status l.backend
            (record_by_invoice_number id now input) l.fates
            (record_payment_by_invoice_number-Attempted input.tenant id now input.tenant
              input.reference_code _ _ l.backend refl))
        (retries (connector_fetch status (record_by_invoice_number id now input)) l)

  -- What a forwarded payment leaves at the backend.
  pub forward_payment-Advances :
      let x = forward_payment status execute id now input l in
      Advances input.tenant input.reference_code l.backend (x.1).backend
      × (x.0 ≡ ok tt → IsPaid input.tenant input.reference_code (x.1).backend)
  unfolding forward_payment
  forward_payment-Advances = forward_payment-Fetched
