-- ===== src/Auth/Admission.antt =====
-- Which logins succeed.
use solodesk.Prelude.{
  List, [], ◌∷◌, ◌≢◌, ◌⊎◌, ap, ◌∙◌, arith, ℕ, Bool, true, false, Option, none, some, ◌≡◌, refl, inl,
  inr, Bool-cases, Option-cases,
}
use solodesk.Prelude.Action.{
  Result, ok, err, unauthorized, rate_limited, invalid_credentials, email_not_verified,
  account_not_active, no_tenant_membership,
}
use solodesk.Auth.{
  UserStatus, active, User, by_password, Directory, find_by_email, find_tenant_ids_for_user,
  first_tenant,
}
use solodesk.Auth.Minted.{answer, minted, mint_lem}
use solodesk.Auth.Login.{Drawn, LoginResult, mint, is_active, Hasher, matches, authenticated, login}

is_active→ : (st : UserStatus) → is_active st ≡ true → st ≡ active
is_active→ active h = refl
is_active→ _ h = absurd (cc)

not_active : (st : UserStatus) → is_active st ≡ false → st ≢ active
not_active st h e = let live = ap is_active e in cc

list_cases : {A : Type 0} (xs : List A) → (xs ≡ []) ⊎ ((x : A) × (rest : List A) × (xs ≡ x ∷ rest))
list_cases [] = inl refl
list_cases (x ∷ xs) = inr (x, xs, refl)

-- The password of the call is the user's own.
abbrev pub Proves : Hasher → ℕ → User → Type 0
Proves h password u =
    (stored : ℕ) × (u.password_hash ≡ some stored) × (h.verify stored password ≡ true)

-- It is not: the user has none, or another.
abbrev pub Fails : Hasher → ℕ → User → Type 0
Fails h password u =
    (u.password_hash ≡ none)
    ⊎ ((stored : ℕ) × (u.password_hash ≡ some stored) × (h.verify stored password ≡ false))

proven_or_not :
    (h : Hasher) (password : ℕ) (u : User)
    → (Proves h password u × (authenticated h password (some u) ≡ some u))
      ⊎ (Fails h password u × (authenticated h password (some u) ≡ none))
proven_or_not h password u = by_hash (u.password_hash) refl
  where
    by_hash :
        (o : Option ℕ)
        → u.password_hash ≡ o
        → (Proves h password u × (authenticated h password (some u) ≡ some u))
          ⊎ (Fails h password u × (authenticated h password (some u) ≡ none))
    by_hash none e =
        let no_ : matches h password u.password_hash ≡ false = ap (matches h password) e in
        inr (inl e, ground (arith, no_))
    by_hash (some stored) e = elim (Bool-cases (h.verify stored password)) [
      | inl right_ ↦
          let yes_ : matches h password u.password_hash ≡ true =
            ap (matches h password) e ∙ right_ in
          inl ((stored, e, right_), ground (arith, yes_))
      | inr wrong ↦
          let no_ : matches h password u.password_hash ≡ false =
            ap (matches h password) e ∙ wrong in
          inr (inr (stored, e, wrong), ground (arith, no_))
    ]

module _ (h : Hasher) (now : ℕ) (drawn : Drawn) (email password : ℕ) (d : Directory) where
  -- The user whose address and password the call has.
  abbrev pub Identified : User → Type 0
  Identified u = (find_by_email email d ≡ some u) × Proves h password u

  -- What a login comes to, by the rate limit and what the directory holds.
  pub data LoginEnds : Bool → Result LoginResult × Directory → Type 0 where
    limited : LoginEnds false (err rate_limited, d)
    unknown :
        find_by_email email d ≡ none → LoginEnds true (err (unauthorized invalid_credentials), d)
    wrong_password :
        (u : User)
        → find_by_email email d ≡ some u
        → Fails h password u
        → LoginEnds true (err (unauthorized invalid_credentials), d)
    unverified :
        (u : User)
        → Identified u
        → u.email_verified ≡ false
        → LoginEnds true (err (unauthorized email_not_verified), d)
    locked :
        (u : User)
        → Identified u
        → u.email_verified ≡ true
        → u.status ≢ active
        → LoginEnds true (err (unauthorized account_not_active), d)
    homeless :
        (u : User)
        → Identified u
        → u.email_verified ≡ true
        → u.status ≡ active
        → find_tenant_ids_for_user u.id d ≡ []
        → LoginEnds true (err (unauthorized no_tenant_membership), d)
    opened :
        (u : User) (tenant : ℕ) (others : List ℕ)
        → Identified u
        → u.email_verified ≡ true
        → u.status ≡ active
        → find_tenant_ids_for_user u.id d ≡ tenant ∷ others
        → LoginEnds true (
          ok (answer now drawn u tenant by_password none d),
          minted now drawn u tenant by_password none d,
        )

  -- `authenticated` has found u.
  abbrev Knows : User → Type 0
  Knows u = authenticated h password (find_by_email email d) ≡ some u

  pub login-opened :
      (u : User) (tenant : ℕ)
      → Knows u
      → u.email_verified ≡ true
      → is_active u.status ≡ true
      → first_tenant (find_tenant_ids_for_user u.id d) ≡ some tenant
      → login h true now drawn email password d ≡ mint now drawn u tenant by_password none d
  unfolding login
  login-opened u tenant known verified live home = rw (known, verified, live, home) refl

  behind_password :
      (u : User) → Identified u → Knows u → LoginEnds true (login h true now drawn email password d)
  unfolding login
  behind_password u own known = elim (Bool-cases (u.email_verified)) [
    | inr no_ ↦ rw (known, no_) (unverified u own no_)
    | inl verified ↦ elim (Bool-cases (is_active u.status)) [
      | inr no_ ↦ rw (known, verified, no_) (locked u own verified (not_active u.status no_))
      | inl live ↦ elim (list_cases (find_tenant_ids_for_user u.id d)) [
        | inl none_ ↦
            rw (known, verified, live, none_)
              (homeless u own verified (is_active→ u.status live) none_)
        | inr (t, rest, home) ↦
            rw
              (
                login-opened u t known verified live (ap first_tenant home),
                mint_lem now drawn u t by_password none d,
              )
              (opened u t rest own verified (is_active→ u.status live) home)
      ]
    ]
  ]

  behind_address :
      (u : User)
      → find_by_email email d ≡ some u
      → LoginEnds true (login h true now drawn email password d)
  unfolding login
  behind_address u found = elim (proven_or_not h password u) [
    | inl (proof, known) ↦
        behind_password u (found, proof) (ap (authenticated h password) found ∙ known)
    | inr (fails, no_) ↦
        let stopped : authenticated h password (find_by_email email d) ≡ none =
          ap (authenticated h password) found ∙ no_ in
        rw stopped (wrong_password u found fails)
  ]

  -- The rate limit comes first. Behind it a login throws, and writes nothing, for an address that no
  -- user has, for a user with no password hash or with one that the hasher does not verify against
  -- the password, for an address not yet verified, for a user who is not active, and for a user of no
  -- tenant, in this order. Every other login answers for the user of the address, and leaves one new
  -- session of that user, in the user's first tenant, with the time of the login and its audit row.
  pub login-LoginEnds :
      (allowed : Bool) → LoginEnds allowed (login h allowed now drawn email password d)
  unfolding login
  login-LoginEnds false = limited
  login-LoginEnds true = elim (Option-cases (find_by_email email d)) [
    | inl missing ↦
        let stopped : authenticated h password (find_by_email email d) ≡ none =
          ap (authenticated h password) missing in
        rw stopped (unknown missing)
    | inr (u, found) ↦ behind_address u found
  ]
