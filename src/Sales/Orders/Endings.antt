-- ===== src/Sales/Orders/Endings.antt =====
-- `placeOrder` as a whole: how a call ends, and its replays.
use solodesk.Prelude.{ℕ, none, some, ◌==◌, ◌≡◌, refl, ap, find, Bool-cases, inl, inr}
use solodesk.Prelude.Action.{Result, ok, err, tenant_mismatch, Failure}
use solodesk.Prelude.Success.{Succeeds_weaken}
use solodesk.Tenancy.{assert_tenant_matches_session}
use solodesk.Sales.{Store, Order, Response, ordered, KeyRow}
use solodesk.Sales.Idempotency.{once, is_key, insert_key, complete_key}
use solodesk.Sales.Idempotency.Replay.{
  once-Ending, replayed, rolled_back, performed, KeepsKeys, once-replays,
}
use solodesk.Sales.Orders.{CreateOrderInput, place, place_order}
use solodesk.Sales.Orders.Placing.{IsFresh, IsPlaced, Placed, completed-Placed, place-IsPlaced}

-- How a call of `placeOrder` ends.
pub data OrderEnding (id tenant key : ℕ) (input : CreateOrderInput) (s : Store)
    (r : Result Response × Store) : Type 0 where
  refused : (e : Failure) → r ≡ (err e, s) → OrderEnding id tenant key input s r
  repeated :
      (row : KeyRow) (response : Response)
      → find (is_key tenant key) s.keys ≡ some row
      → row.response ≡ some response
      → r ≡ (ok response, s)
      → OrderEnding id tenant key input s r
  done :
      (order : Order)
      → find (is_key tenant key) s.keys ≡ none
      → r.0 ≡ ok (ordered order)
      → Placed s.stock tenant id input s order r.1
      → OrderEnding id tenant key input s r

module _ (id tenant key : ℕ) (input : CreateOrderInput) (s : Store) where
  performed_ending :
      (response : Response) (s' : Store)
      → find (is_key tenant key) s.keys ≡ none
      → IsPlaced s.stock tenant id input (insert_key tenant key s) response s'
      → OrderEnding id tenant key input s (ok response, complete_key tenant key response s')
  performed_ending response s' missing (order, is, p, kept) =
      done order missing (ap ok is)
        (completed-Placed s.stock tenant id input key response s s' order p)

  once_ending :
      IsFresh id tenant s
      → OrderEnding id tenant key input s (once tenant key (place id tenant input s.stock) s)
  once_ending fresh = elim (once-Ending tenant key (place id tenant input s.stock) s) [
    | replayed row response found answered r ↦ repeated row response found answered r
    | rolled_back e r ↦ refused e r
    | performed response s' missing ran r ↦ rw r (
        performed_ending response s' missing
          (rw ran at (place-IsPlaced s.stock tenant id input (insert_key tenant key s) fresh)))
  ]

-- With a fresh order id, quantities of at most three decimals and prices of at most two, a call of
-- `placeOrder` ends in one of three ways. It throws and the store is as before. Its key was used
-- before, and it repeats that response and writes nothing. Or it places an order: every line has the
-- SKU and quantity asked for, the SKU's or the given price, and the lot asked for, or else, of the
-- tenant's lots of the SKU with stock that was not reserved when the call began, one that none was
-- received before; the total is the sum of the line totals, the order can be read back, and every
-- lot's stock on hand falls by exactly what its lines took.
pub place_order_lem :
    (session id tenant key : ℕ) (input : CreateOrderInput) (s : Store)
    → IsFresh id tenant s
    → OrderEnding id tenant key input s (place_order session id tenant key input s)
unfolding place_order assert_tenant_matches_session
place_order_lem session id tenant key input s fresh = elim (Bool-cases (tenant == session)) [
  | inl same ↦ rw same (once_ending id tenant key input s fresh)
  | inr other ↦ rw other (refused tenant_mismatch refl)
]

-- Of the keys, the operation itself writes none.
place-KeepsKeys :
    (id tenant key : ℕ) (input : CreateOrderInput) (s : Store)
    → IsFresh id tenant s
    → KeepsKeys tenant key (place id tenant input s.stock) s
place-KeepsKeys id tenant key input s fresh =
    Succeeds_weaken (IsPlaced s.stock tenant id input (insert_key tenant key s))
      (λ _ s'. s'.keys ≡ (insert_key tenant key s).keys)
      (λ response s' (order, is, placed, kept). kept)
      (place id tenant input s.stock (insert_key tenant key s))
      (place-IsPlaced s.stock tenant id input (insert_key tenant key s) fresh)

-- After a call of `placeOrder` that answered, with a fresh order id, a client that sends it again in
-- the same session under the same key, with whatever input, gets the first response, and the store
-- stays as the first call left it: no second sale.
pub place_order-replays :
    (session id retry_id tenant key : ℕ) (input retry : CreateOrderInput) (s s' : Store)
    (response : Response)
    → IsFresh id tenant s
    → place_order session id tenant key input s ≡ (ok response, s')
    → place_order session retry_id tenant key retry s' ≡ (ok response, s')
unfolding place_order assert_tenant_matches_session
place_order-replays session id retry_id tenant key input retry s s' response fresh e =
    elim (Bool-cases (tenant == session)) [
      | inl same ↦ rw same (
          once-replays tenant key (place id tenant input s.stock)
            (place retry_id tenant retry s'.stock) s s' response
            (place-KeepsKeys id tenant key input s fresh) (rw same at e))
      | inr other ↦
          absurd
            (let clash : err tenant_mismatch ≡ ok response = ap (λ r. r.0) (rw other at e) in cc)
    ]
