-- ===== src/Tenancy.antt =====
-- services/backend-api/src/platform/tenant-context.ts. The AsyncLocalStorage store is the argument
-- `session`. Every query of the repositories names its tenant, as the row-level policies do again.
use solodesk.Prelude.{ℕ, not, ◌==◌}
use solodesk.Prelude.Action.{Action, Result, ok, err, tenant_mismatch, throw_if}

unfoldable pub assert_tenant_matches_session : {S : Type 0} → ℕ → ℕ → Action S (Unit {0})
assert_tenant_matches_session session caller = throw_if (not (caller == session)) tenant_mismatch

abbrev pub settle : {S A : Type 0} → S → Result A × S → Result A × S
settle before (ok a, after) = (ok a, after)
settle before (err e, after) = (err e, before)

-- `db.transaction(fn)`: a throw rolls back what `fn` wrote.
unfoldable pub with_tenant_transaction : {S A : Type 0} → Action S A → Action S A
with_tenant_transaction fn s = settle s (fn s)
