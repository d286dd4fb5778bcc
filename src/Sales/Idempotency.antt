-- ===== src/Sales/Idempotency.antt =====
-- services/backend-api/src/platform/idempotency.ts. The unique index on (tenant_id,
-- idempotency_key) is the first test; a key row is written before `fn` runs and its response
-- after it. A replay hands back what the row holds, of whatever operation; the way of a response
-- through jsonb and `reviveDates`, which reads its texts of dates back as dates, is the identity here.
pub mod Replay
use solodesk.Prelude.{
  ℕ, Bool, true, false, ◌&&◌, Option, none, some, List, [], ◌∷◌, ◌==◌, find, update, ◌≡◌, refl,
  Bool-cases, inl, inr, arith, ==_refl,
}
use solodesk.Prelude.Action.{
  Action, Result, ok, err, throw, pure, modify, invariant_violation, ◌>>=◌, ◌>>◌,
}
use solodesk.Tenancy.{with_tenant_transaction}
use solodesk.Sales.{Store, KeyRow, Response}

abbrev pub is_key : ℕ → ℕ → KeyRow → Bool
is_key tenant key row = row.tenant == tenant && row.key == key

abbrev pub insert_key : ℕ → ℕ → Store → Store
insert_key tenant key s = record s {
  keys = record { tenant = tenant; key = key; response = none } ∷ s.keys;
}

abbrev pub complete_key : ℕ → ℕ → Response → Store → Store
complete_key tenant key response s = record s {
  keys = update (is_key tenant key) (λ row. record row { response = some response }) s.keys;
}

abbrev pub replay : Option Response → Action Store Response
replay none = throw invariant_violation
replay (some response) = pure response

abbrev pub run_once : ℕ → ℕ → Option KeyRow → Action Store Response → Action Store Response
run_once tenant key (some row) fn = replay row.response
run_once tenant key none fn =
    modify (insert_key tenant key)
    >> (fn >>= λ result. modify (complete_key tenant key result) >> pure result)

unfoldable pub with_idempotency : ℕ → ℕ → Action Store Response → Action Store Response
with_idempotency tenant key fn s = run_once tenant key (find (is_key tenant key) s.keys) fn s

-- The services' `withTenantTransaction(… withIdempotency(…))`.
unfoldable pub once : ℕ → ℕ → Action Store Response → Action Store Response
once tenant key fn = with_tenant_transaction (with_idempotency tenant key fn)
