-- ===== src/Connectors/Resilience.antt =====
-- services/connector-hub/src/platform/resilience/connector-http.ts, and the link from the hub to
-- the backend. What happens to each request is an argument, a list of fates in their order, which
-- ends in requests that go through. The retries and the breaker of connector-policy.ts are
-- cockatiel's: `Runs` says what they may do with a call.
use solodesk.Prelude.{ℕ, leb, Bool, true, false, ◌||◌, Option, none, List, [], ◌∷◌, ◌==◌, ◌≡◌}
use solodesk.Prelude.Action.{
  Action, Result, ok, err, Failure, Code, code_of, retryable, non_retryable, circuit_open,
}

-- A request reaches the backend and is answered, never reaches it, is carried out with the answer
-- lost, or is answered with the body lost.
pub data Fate : Type 0 where
  delivered request_lost answer_lost body_lost : Fate

pub record Link (B : Type 0) : Type 0 where
  pub backend : B
  pub fates : List Fate

-- Whether a status is worth another attempt.
unfoldable pub classify : ℕ → Bool
classify status = status == 429 || leb 500 status

-- What `connectorFetch` makes of a response that is not ok.
abbrev pub rejected : Bool → Option Code → Failure
rejected true code = retryable
rejected false code = non_retryable code

module _ {A : Type 0} (status : Failure → ℕ) where
  -- The answer of the backend, as the hub sees it.
  abbrev pub answered : Result A → Result (Unit {0})
  answered (ok a) = ok tt
  answered (err e) = err (rejected (classify (status e)) (code_of e))

  abbrev pub bodiless : Result A → Result (Unit {0})
  bodiless (ok a) = ok tt
  bodiless (err e) = err (rejected (classify (status e)) none)

module _ {A B : Type 0} (status : Failure → ℕ) where
  -- One HTTP request. The HTTP status of an error is the argument `status`.
  abbrev pub send : Action B A → Fate → List Fate → B → Result (Unit {0}) × Link B
  send call delivered fates b =
      let (r, b') = call b in (answered status r, record { backend = b'; fates = fates })
  send call body_lost fates b =
      let (r, b') = call b in (bodiless status r, record { backend = b'; fates = fates })
  send call answer_lost fates b =
      let (r, b') = call b in (err retryable, record { backend = b'; fates = fates })
  send call request_lost fates b = (err retryable, record { backend = b; fates = fates })

  abbrev send_next : Action B A → List Fate → B → Result (Unit {0}) × Link B
  send_next call [] b = send call delivered [] b
  send_next call (f ∷ fates) b = send call f fates b

  unfoldable pub connector_fetch : Action B A → Action (Link B) (Unit {0})
  connector_fetch call l = send_next call l.fates l.backend

-- What `callWithResilience` may do with a call: refuse it unmade (the breaker is open), or make it,
-- and make it again after each retryable failure but the last. The result is that of the last call.
pub data Runs {S : Type 0} (fn : Action S (Unit {0})) : S → Result (Unit {0}) × S → Type 0 where
  broken : {s : S} → Runs fn s (err circuit_open, s)
  last : {s : S} {x : Result (Unit {0}) × S} → fn s ≡ x → Runs fn s x
  again :
      {s s' : S} {x : Result (Unit {0}) × S}
      → fn s ≡ (err retryable, s')
      → Runs fn s' x
      → Runs fn s x

-- The breaker is closed: the call is made at least once.
pub data Calls {S : Type 0} (fn : Action S (Unit {0})) (s : S)
    : Result (Unit {0}) × S → Type 0 where
  once : {x : Result (Unit {0}) × S} → fn s ≡ x → Calls fn s x
  retried :
      {s' : S} {x : Result (Unit {0}) × S}
      → fn s ≡ (err retryable, s')
      → Runs fn s' x
      → Calls fn s x
