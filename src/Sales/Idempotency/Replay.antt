-- ===== src/Sales/Idempotency/Replay.antt =====
-- A retry with the key of a completed operation.
use solodesk.Prelude.{
  ℕ, Bool, true, Option, none, some, List, ◌∷◌, find, update, ◌≡◌, refl, ◌∙◌, ap, arith, ==_refl,
}
use solodesk.Prelude.Action.{Action, Result, ok, err, Failure, follow, invariant_violation}
use solodesk.Prelude.Success.{Succeeds}
use solodesk.Tenancy.{with_tenant_transaction, settle}
use solodesk.Sales.{Store, KeyRow, Response}
use solodesk.Sales.Idempotency.{
  is_key, insert_key, complete_key, with_idempotency, once, replay, run_once,
}

-- How a call in a transaction of its own under a key ends.
pub data Ending (tenant key : ℕ) (fn : Action Store Response) (s : Store)
    (r : Result Response × Store) : Type 0 where
  replayed :
      (row : KeyRow) (response : Response)
      → find (is_key tenant key) s.keys ≡ some row
      → row.response ≡ some response
      → r ≡ (ok response, s)
      → Ending tenant key fn s r
  rolled_back : (e : Failure) → r ≡ (err e, s) → Ending tenant key fn s r
  performed :
      (response : Response) (s' : Store)
      → find (is_key tenant key) s.keys ≡ none
      → fn (insert_key tenant key s) ≡ (ok response, s')
      → r ≡ (ok response, complete_key tenant key response s')
      → Ending tenant key fn s r

module _ (tenant key : ℕ) (fn : Action Store Response) (s : Store) where
  replay-Ending :
      (row : KeyRow) (o : Option Response)
      → find (is_key tenant key) s.keys ≡ some row
      → row.response ≡ o
      → Ending tenant key fn s (settle s (replay o s))
  replay-Ending row none found e = rolled_back invariant_violation refl
  replay-Ending row (some response) found e = replayed row response found e refl

  run-Ending :
      (x : Result Response × Store)
      → find (is_key tenant key) s.keys ≡ none
      → fn (insert_key tenant key s) ≡ x
      → Ending tenant key fn s
          (settle s (follow x.0 (λ result s'. (ok result, complete_key tenant key result s')) x.1))
  run-Ending (ok response, s') missing e = performed response s' missing e refl
  run-Ending (err e, s') missing h = rolled_back e refl

  found-Ending :
      (o : Option KeyRow)
      → find (is_key tenant key) s.keys ≡ o
      → Ending tenant key fn s (settle s (run_once tenant key o fn s))
  found-Ending none e = run-Ending (fn (insert_key tenant key s)) e refl
  found-Ending (some row) e = replay-Ending row row.response e refl

  pub once-Ending : Ending tenant key fn s (once tenant key fn s)
  unfolding once with_idempotency with_tenant_transaction
  once-Ending = found-Ending (find (is_key tenant key) s.keys) refl

abbrev finished : Response → KeyRow → KeyRow
finished response row = record row { response = some response }

find-update :
    (p : KeyRow → Bool) (f : KeyRow → KeyRow) (row : KeyRow) (rows : List KeyRow)
    → p row ≡ true
    → p (f row) ≡ true
    → find p (update p f (row ∷ rows)) ≡ some (f row)
find-update p f row rows h h' = ground (arith, h, h')

-- The row that a completed call leaves.
completed :
    (tenant key : ℕ) (response : Response) (s s' : Store)
    → s'.keys ≡ (insert_key tenant key s).keys
    → (row : KeyRow) × (find (is_key tenant key) (complete_key tenant key response s').keys
        ≡ some row)
      × (row.response ≡ some response)
completed tenant key response s s' kept =
    let row : KeyRow = record { tenant = tenant; key = key; response = none } in
    let own : is_key tenant key row ≡ true = ground (arith, ==_refl tenant, ==_refl key) in
    (
      finished response row,
      ap (λ rows. find (is_key tenant key) (update (is_key tenant key) (finished response) rows))
            kept
          ∙ find-update (is_key tenant key) (finished response) row s.keys own own,
      refl,
    )

-- A call with a key that is found answers what the row holds.
once-found :
    (tenant key : ℕ) (fn : Action Store Response) (s : Store) (row : KeyRow) (response : Response)
    → find (is_key tenant key) s.keys ≡ some row
    → row.response ≡ some response
    → once tenant key fn s ≡ (ok response, s)
unfolding once with_idempotency with_tenant_transaction
once-found tenant key fn s row response found e =
    ap (λ o. settle s (run_once tenant key o fn s)) found ∙ ap (λ o. settle s (replay o s)) e

-- The key's row holds the response.
abbrev Remembers : ℕ → ℕ → Response → Store → Type 0
Remembers tenant key response s =
    (row : KeyRow) × (find (is_key tenant key) s.keys ≡ some row) × (row.response ≡ some response)

-- The operation, run under the key, leaves the key table alone.
abbrev pub KeepsKeys : ℕ → ℕ → Action Store Response → Store → Type 0
KeepsKeys tenant key fn s =
    Succeeds (λ _ s'. s'.keys ≡ (insert_key tenant key s).keys) (fn (insert_key tenant key s))

once-Remembers :
    (tenant key : ℕ) (fn : Action Store Response) (s : Store)
    → KeepsKeys tenant key fn s
    → Succeeds (Remembers tenant key) (once tenant key fn s)
once-Remembers tenant key fn s keeps = elim (once-Ending tenant key fn s) [
  | replayed row response found answered r ↦ rw r (row, found, answered)
  | rolled_back e r ↦ rw r tt
  | performed response z missing ran r ↦ rw r (completed tenant key response s z (rw ran at keeps))
]

-- A call that has completed under a key, of an operation that leaves the key table alone, is never
-- run again: whatever operation is sent with the key afterwards, the answer is the first response
-- and the store stays as it is.
pub once-replays :
    (tenant key : ℕ) (fn retry : Action Store Response) (s s' : Store) (response : Response)
    → KeepsKeys tenant key fn s
    → once tenant key fn s ≡ (ok response, s')
    → once tenant key retry s' ≡ (ok response, s')
once-replays tenant key fn retry s s' response keeps e =
    let (row, found, answered) = rw e at (once-Remembers tenant key fn s keeps) in
    once-found tenant key retry s' row response found answered
