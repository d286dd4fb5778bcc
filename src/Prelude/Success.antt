-- ===== src/Prelude/Success.antt =====
-- What holds of the results of actions that do not throw.
use mathlib.Core.Option.{Option, none, some}
use mathlib.Core.Bool.{Bool, true, false}
use mathlib.Core.Path.{◌≡◌, refl, sym, subst}
use solodesk.Prelude.Action.{Action, Result, ok, err, follow, ◌>>=◌, Failure, or_throw, throw_if}

module _ {S A : Type 0} where
  -- The result and the state meet Q, if there is a result.
  abbrev pub Succeeds : (A → S → Type 0) → Result A × S → Type 0
  Succeeds Q (ok a, s) = Q a s
  Succeeds Q (err e, s) = Unit {0}

module _ {S A B : Type 0} (P : A → S → Type 0) (Q : B → S → Type 0) (f : A → Action S B)
    (step : (a : A) (s : S) → P a s → Succeeds Q (f a s)) where
  follow-Succeeds : (x : Result A × S) → Succeeds P x → Succeeds Q (follow x.0 f x.1)
  follow-Succeeds (ok a, s) h = step a s h
  follow-Succeeds (err e, s) h = tt

  -- The rule for two actions in a row.
  pub then_ensures : (m : Action S A) (s : S) → Succeeds P (m s) → Succeeds Q ((m >>= f) s)
  then_ensures m s h = follow-Succeeds (m s) h

module _ {S A : Type 0} where
  pub or_throw-Succeeds :
      (o : Option A) (e : Failure) (s : S)
      → Succeeds (λ a s'. (o ≡ some a) × (s' ≡ s)) (or_throw o e s)
  or_throw-Succeeds none e s = tt
  or_throw-Succeeds (some a) e s = (refl, refl)

  pub Succeeds_weaken :
      (P Q : A → S → Type 0)
      → ((a : A) (s : S) → P a s → Q a s)
      → (x : Result A × S) → Succeeds P x
      → Succeeds Q x
  Succeeds_weaken P Q w (ok a, s) h = w a s h
  Succeeds_weaken P Q w (err e, s) h = tt

module _ {S A : Type 0} where
  -- The result and the state meet Q, or the action threw and wrote nothing.
  abbrev pub Ends : (A → S → Type 0) → S → Result A × S → Type 0
  Ends Q s (ok a, s') = Q a s'
  Ends Q s (err e, s') = s' ≡ s

  -- An action that only reads, and a result that meets P.
  abbrev pub Reads : (A → Type 0) → S → Result A × S → Type 0
  Reads P s x = Ends (λ a s'. P a × (s' ≡ s)) s x

  pub or_throw-Reads :
      (o : Option A) (e : Failure) (s : S) → Reads (λ a. o ≡ some a) s (or_throw o e s)
  or_throw-Reads none e s = refl
  or_throw-Reads (some a) e s = (refl, refl)

module _ {S : Type 0} where
  pub throw_if-Reads : (b : Bool) (e : Failure) (s : S) → Reads (λ _. b ≡ false) s (throw_if b e s)
  throw_if-Reads true e s = refl
  throw_if-Reads false e s = (refl, refl)

module _ {S A B : Type 0} (P : A → Type 0) (Q : B → S → Type 0) (f : A → Action S B) (s : S)
    (step : (a : A) → P a → Ends Q s (f a s)) where
  follow-Ends : (x : Result A × S) → Reads P s x → Ends Q s (follow x.0 f x.1)
  follow-Ends (ok a, s') (h, same) = subst (λ z. Ends Q s (f a z)) (sym same) (step a h)
  follow-Ends (err e, s') same = same

  -- The rule for an action that reads and one that follows it.
  pub ensures_after : (m : Action S A) → Reads P s (m s) → Ends Q s ((m >>= f) s)
  ensures_after m h = follow-Ends (m s) h

module _ {S A : Type 0} where
  -- The result and the state meet Q; or the action threw an error of E and wrote nothing.
  abbrev pub Concludes : (A → S → Type 0) → (Failure → Type 0) → S → Result A × S → Type 0
  Concludes Q E s (ok a, s') = Q a s'
  Concludes Q E s (err e, s') = (s' ≡ s) × E e

  -- An action that only reads: a result that meets P, or an error of E.
  abbrev pub Looks : (A → Type 0) → (Failure → Type 0) → S → Result A × S → Type 0
  Looks P E s x = Concludes (λ a s'. P a × (s' ≡ s)) E s x

  pub or_throw-Looks :
      (E : Failure → Type 0) (o : Option A) (e : Failure) (s : S)
      → E e
      → Looks (λ a. o ≡ some a) E s (or_throw o e s)
  or_throw-Looks E none e s h = (refl, h)
  or_throw-Looks E (some a) e s h = (refl, refl)

module _ {S : Type 0} where
  pub throw_if-Looks :
      (E : Failure → Type 0) (b : Bool) (e : Failure) (s : S)
      → (b ≡ true → E e)
      → Looks (λ _. b ≡ false) E s (throw_if b e s)
  throw_if-Looks E true e s h = (refl, h refl)
  throw_if-Looks E false e s h = (refl, refl)

module _ {S A B : Type 0} (P : A → Type 0) (Q : B → S → Type 0) (E : Failure → Type 0)
    (f : A → Action S B) (s : S) (step : (a : A) → P a → Concludes Q E s (f a s)) where
  follow-Concludes : (x : Result A × S) → Looks P E s x → Concludes Q E s (follow x.0 f x.1)
  follow-Concludes (ok a, s') (h, same) = subst (λ z. Concludes Q E s (f a z)) (sym same) (step a h)
  follow-Concludes (err e, s') same = same

  -- The rule for an action that reads and one that follows it.
  pub reading_then : (m : Action S A) → Looks P E s (m s) → Concludes Q E s ((m >>= f) s)
  reading_then m h = follow-Concludes (m s) h
