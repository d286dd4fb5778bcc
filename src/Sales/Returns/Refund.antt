-- ===== src/Sales/Returns/Refund.antt =====
-- What a return leaves of the payments of its invoice.
use solodesk.Prelude.{
  ℕ, Bool, true, false, not, Option, none, some, List, [], ◌∷◌, ◌≡◌, refl, ◌∙◌, ap, arith,
  Bool-cases, inl, inr, select, select_keeps, ==_refl, if◌then◌else◌,
}
use solodesk.Prelude.Int.{ℤ, pos, ◌+ℤ◌, ◌-ℤ◌, neg, ltb_ℤ, int_laws}
use solodesk.Prelude.Tables.{Update, unchanged, changed, total}
use solodesk.Prelude.Action.{
  Result, ok, err, conflict, order_not_returnable, no_invoice_to_return, throw_if, ◌>>◌,
}
use solodesk.Prelude.Success.{Succeeds, then_ensures, Succeeds_weaken}
use solodesk.Inventory.{credit_return, Stock}
use solodesk.Sales.{
  Store, Order, OrderLine, OrderRow, Invoice, Payment, PaymentMethod, refund, Return, Response,
  reversed,
}
use solodesk.Sales.Orders.{on_stock, lift}
use solodesk.Sales.Invoicing.{cancel_for_return, cancelled_in}
use solodesk.Sales.Payments.{
  CreatePaymentInput, sum_by_invoice, create_payment, of_invoice, net, new_payment,
}
use solodesk.Sales.Returns.{
  CreateReturnInput, mark_returned, marked, credit_lines, refund_paid, refund_by, create_return,
  new_return, record_refund, settle_return, cancel_and_settle, reverse,
}

abbrev Kept : Store → Store → Type 0
Kept s s' = s'.payments ≡ s.payments

module _ (s : Store) where
  marked-Kept : (u : Update OrderRow) → Succeeds (λ _ s'. Kept s s') (marked u s)
  marked-Kept unchanged = refl
  marked-Kept (changed row rows) = refl

  cancelled_in-Kept : (u : Update Invoice) → Succeeds (λ _ s'. Kept s s') (cancelled_in u s)
  cancelled_in-Kept unchanged = refl
  cancelled_in-Kept (changed row rows) = refl

  mark_returned-Kept : (id tenant : ℕ) → Succeeds (λ _ s'. Kept s s') (mark_returned id tenant s)
  unfolding mark_returned
  mark_returned-Kept id tenant = marked-Kept _

  cancel_for_return-Kept :
      (id tenant : ℕ) → Succeeds (λ _ s'. Kept s s') (cancel_for_return id tenant s)
  unfolding cancel_for_return
  cancel_for_return-Kept id tenant = cancelled_in-Kept _

  throw_if-Kept :
      (b : Bool) → Succeeds (λ _ s'. Kept s s') (throw_if b (conflict order_not_returnable) s)
  throw_if-Kept true = tt
  throw_if-Kept false = refl

  lift-Kept : (x : Result (Unit {0}) × Stock) → Succeeds (λ _ s'. Kept s s') (lift s x)
  lift-Kept (ok a, stock) = refl
  lift-Kept (err e, stock) = tt

credit_lines-Kept :
    (tenant order : ℕ) (lines : List OrderLine) (s : Store)
    → Succeeds (λ _ s'. Kept s s') (credit_lines tenant order lines s)
unfolding credit_lines
credit_lines-Kept tenant order [] s = refl
credit_lines-Kept tenant order (line ∷ lines) s =
    then_ensures (λ _ s'. Kept s s') (λ _ s'. Kept s s') (λ _. credit_lines tenant order lines)
      (λ _ s' kept.
        Succeeds_weaken (λ _ s''. Kept s' s'') (λ _ s''. Kept s s'') (λ _ _ k. k ∙ kept) _
          (credit_lines-Kept tenant order lines s'))
      (on_stock (credit_return line.lot tenant line.quantity (some order))) s (lift-Kept s _)

-- What is paid back of a net sum.
abbrev pub owed : ℤ → ℤ
owed paid = if ltb_ℤ (pos 0) paid then paid else pos 0

taken_back : (a : ℤ) → neg a +ℤ a ≡ a -ℤ a
taken_back a = omega int_laws

minus_zero : (a : ℤ) → a ≡ a -ℤ pos 0
minus_zero a = omega int_laws

module _ (id now tenant invoice : ℕ) (s : Store) where
  abbrev Refunded : ℤ → Store → Type 0
  Refunded amount s' =
      (amount ≡ owed (sum_by_invoice invoice tenant s))
      × (sum_by_invoice invoice tenant s' ≡ sum_by_invoice invoice tenant s -ℤ amount)

  refunding : PaymentMethod → CreatePaymentInput
  refunding method = record {
    invoice = invoice;
    method = method;
    amount = sum_by_invoice invoice tenant s;
    type = some refund;
    reference_code = none;
  }

  refund_by-Refunded :
      (method : Option PaymentMethod)
      → ltb_ℤ (pos 0) (sum_by_invoice invoice tenant s) ≡ true
      → Succeeds Refunded
          (refund_by id now tenant invoice (sum_by_invoice invoice tenant s) method s)
  unfolding create_payment sum_by_invoice refunding
  refund_by-Refunded none owes = tt
  refund_by-Refunded (some method) owes = (
    rw owes refl,
    ap (total (λ (p : Payment). net p.type p.amount)) (
          select_keeps (of_invoice invoice tenant) (new_payment id now tenant (refunding method))
            s.payments (ground (arith, ==_refl invoice, ==_refl tenant)))
        ∙ taken_back (sum_by_invoice invoice tenant s),
  )

  refund_paid-Refunded :
      (method : Option PaymentMethod)
      → Succeeds Refunded (refund_paid id now tenant invoice method s)
  unfolding refund_paid
  refund_paid-Refunded method =
      elim (Bool-cases (ltb_ℤ (pos 0) (sum_by_invoice invoice tenant s))) [
        | inl owes ↦ rw owes (refund_by-Refunded method owes)
        | inr nothing ↦
            let none_owed : pos 0 ≡ owed (sum_by_invoice invoice tenant s) = rw nothing refl in
            rw nothing (none_owed, minus_zero (sum_by_invoice invoice tenant s))
      ]

sum_by_invoice-Kept :
    (invoice tenant : ℕ) (s s' : Store)
    → Kept s s'
    → sum_by_invoice invoice tenant s' ≡ sum_by_invoice invoice tenant s
unfolding sum_by_invoice
sum_by_invoice-Kept invoice tenant s s' kept =
    ap (λ ps. total (λ (p : Payment). net p.type p.amount) (select (of_invoice invoice tenant) ps))
      kept

-- What a return pays back, and what it leaves of the payments.
abbrev pub Settled : ℕ → ℕ → Store → Response → Store → Type 0
Settled invoice tenant s response s' =
    (r : Return) × (response ≡ reversed r)
    × (r.refund_amount ≡ owed (sum_by_invoice invoice tenant s))
    × (sum_by_invoice invoice tenant s' ≡ sum_by_invoice invoice tenant s -ℤ r.refund_amount)

module _ (id now tenant : ℕ) (input : CreateReturnInput) (order : Order) (invoice : Invoice)
    (s : Store) where
  abbrev Done : Response → Store → Type 0
  Done = Settled invoice.id tenant s

  record_refund-Done :
      (s' s'' : Store) (amount : ℤ)
      → Kept s s'
      → Refunded id now tenant invoice.id s' amount s''
      → Succeeds Done (record_refund id tenant input order invoice amount s'')
  unfolding create_return sum_by_invoice
  record_refund-Done s' s'' amount kept (owes, left) =
      let same = sum_by_invoice-Kept invoice.id tenant s s' kept in
      (
        new_return id tenant input order invoice amount,
        refl,
        owes ∙ ap owed same,
        left ∙ ap (λ a. a -ℤ amount) same,
      )

  settle-Done :
      (s' : Store) → Kept s s' → Succeeds Done (settle_return id now tenant input order invoice s')
  settle-Done s' kept =
      then_ensures (λ _ s''. Kept s' s'') Done _
        (λ _ s'' kept'.
          then_ensures (Refunded id now tenant invoice.id s'') Done
            (record_refund id tenant input order invoice)
            (λ amount s3 refunded. record_refund-Done s'' s3 amount (kept' ∙ kept) refunded)
            (refund_paid id now tenant invoice.id input.refund_method) s''
            (refund_paid-Refunded id now tenant invoice.id s'' input.refund_method))
        (credit_lines tenant order.row.id order.lines) s'
        (credit_lines-Kept tenant order.row.id order.lines s')

  cancelled-Done :
      (b : Bool) (s' : Store)
      → Kept s s'
      → Succeeds Done (
          (throw_if (not b) (conflict no_invoice_to_return)
              >> settle_return id now tenant input order invoice)
            s')
  cancelled-Done true s' kept = settle-Done s' kept
  cancelled-Done false s' kept = tt

  flipped-Done :
      (b : Bool) (s' : Store)
      → Kept s s'
      → Succeeds Done (
          (throw_if (not b) (conflict order_not_returnable)
              >> cancel_and_settle id now tenant input order invoice)
            s')
  flipped-Done false s' kept = tt
  flipped-Done true s' kept =
      then_ensures (λ _ s''. Kept s' s'') Done _
        (λ b s'' kept'. cancelled-Done b s'' (kept' ∙ kept)) (cancel_for_return invoice.id tenant)
        s' (cancel_for_return-Kept s' invoice.id tenant)

-- A return that goes through pays back the invoice's net payments if they are positive and nothing
-- otherwise, and the net payments fall by exactly what it paid back.
pub reverse-Settled :
    (id now tenant : ℕ) (input : CreateReturnInput) (order : Order) (invoice : Invoice) (s : Store)
    → Succeeds (Settled invoice.id tenant s) (reverse id now tenant input order invoice s)
reverse-Settled id now tenant input order invoice s =
    then_ensures (λ _ s'. Kept s s') (Settled invoice.id tenant s) _
      (λ b s' kept. flipped-Done id now tenant input order invoice s b s' kept)
      (mark_returned order.row.id tenant) s (mark_returned-Kept s order.row.id tenant)
