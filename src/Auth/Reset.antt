-- ===== src/Auth/Reset.antt =====
-- A password reset: what it changes, and that its link works once.
use solodesk.Prelude.{
  ℕ, true, false, not, Option, none, some, List, [], ◌∷◌, ◌==◌, ◌≡◌, ◌⊎◌, refl, ap, sym, ◌∙◌, arith,
  inl, inr, ltb, find, update, select, All, find-update, find-hit, change, Bool-cases, Option-cases,
  ==_refl,
}
use solodesk.Prelude.Action.{Result, ok, err, unauthorized, invalid_token}
use solodesk.Auth.{
  User, AuthSession, AuthToken, password_reset, Directory, find_by_id, has_id, revoke,
  revoke_all_for_user,
}
use solodesk.Auth.Login.{Hasher}
use solodesk.Auth.Signup.{is_token, is_used, usable, reset_password}

module _ (h : Hasher) (hash_token : ℕ → ℕ) (raw : ℕ) where
  -- The token of the link.
  abbrev pub Names : Directory → AuthToken → Type 0
  Names d t = find (is_token (hash_token raw) password_reset) d.tokens ≡ some t

  abbrev pub Unusable : ℕ → Directory → Type 0
  Unusable now d = usable now (find (is_token (hash_token raw) password_reset) d.tokens) ≡ none

  abbrev pub refusal : Result (Unit {0})
  refusal = err (unauthorized invalid_token)

  reset_password-Unusable :
      (now salt password : ℕ) (d : Directory)
      → Unusable now d
      → reset_password h hash_token now salt raw password d ≡ (refusal, d)
  unfolding reset_password
  reset_password-Unusable now salt password d e = rw e refl

  module _ (now salt password : ℕ) (d : Directory) (t : AuthToken) where
    -- What a reset through the token t leaves.
    abbrev after : Directory
    after = record d {
      users =
          update (has_id t.user) (λ u. record u { password_hash = some (h.hash salt password) })
            d.users;
      tokens =
          update (λ (k : AuthToken). k.id == t.id) (λ k. record k { used_at = some now }) d.tokens;
      sessions = update (λ (s : AuthSession). s.user == t.user) revoke d.sessions;
    }

    reset_password_lem :
        usable now (find (is_token (hash_token raw) password_reset) d.tokens) ≡ some t
        → reset_password h hash_token now salt raw password d ≡ (ok tt, after)
    unfolding reset_password revoke_all_for_user
    reset_password_lem e = rw e refl

  usable→ : (now : ℕ) (o : Option AuthToken) (t : AuthToken) → usable now o ≡ some t → o ≡ some t
  usable→ now none t e = absurd (cc)
  usable→ now (some k) t e = ground (arith, e)

  used-Unusable :
      (now later : ℕ) (d : Directory) (t : AuthToken)
      → Names d t
      → usable later (
          find (is_token (hash_token raw) password_reset) (
            update
              (λ (k : AuthToken). k.id == t.id)
              (λ k. record k { used_at = some now })
              d.tokens))
        ≡ none
  used-Unusable now later d t e =
      let q = is_token (hash_token raw) password_reset in
      let p = λ (k : AuthToken). k.id == t.id in
      let f = λ (k : AuthToken). record k { used_at = some now } in
      let hit : change q p f (λ _. refl) (some t) ≡ some (f t) = ground (arith, ==_refl t.id) in
      ap (usable later)
        (find-update q p f (λ _. refl) d.tokens ∙ ap (change q p f (λ _. refl)) e ∙ hit)

revoked_all :
    (user : ℕ) (ss : List AuthSession)
    → All
        (λ (s : AuthSession). (s.user == user) ≡ true → s.is_revoked ≡ true)
        (update (λ (s : AuthSession). s.user == user) revoke ss)
revoked_all user [] = tt
revoked_all user (s ∷ ss) = (ground arith, revoked_all user ss)

others_kept :
    (user : ℕ) (ss : List AuthSession)
    → select
        (λ (s : AuthSession). not (s.user == user))
        (update (λ (s : AuthSession). s.user == user) revoke ss)
      ≡ select (λ (s : AuthSession). not (s.user == user)) ss
others_kept user [] = refl
others_kept user (s ∷ ss) = elim (Bool-cases (s.user == user)) [
  | inl own ↦ ground (arith, own, others_kept user ss)
  | inr other ↦ ground (arith, other, others_kept user ss)
]

-- What a reset does to its user.
pub record HasReset (h : Hasher) (now salt password : ℕ) (t : AuthToken) (d d' : Directory)
    : Type 0 where
  pub unused : is_used t.used_at ≡ false
  pub in_time : ltb t.expires_at now ≡ false
  pub revoked :
      All (λ (s : AuthSession). (s.user == t.user) ≡ true → s.is_revoked ≡ true) d'.sessions
  pub others :
      select (λ (s : AuthSession). not (s.user == t.user)) d'.sessions
      ≡ select (λ (s : AuthSession). not (s.user == t.user)) d.sessions
  pub set :
      (u : User)
      → find_by_id t.user d ≡ some u
      → find_by_id t.user d' ≡ some (record u { password_hash = some (h.hash salt password) })

usable_now :
    (now : ℕ) (t : AuthToken)
    → usable now (some t) ≡ some t
    → (is_used t.used_at ≡ false) × (ltb t.expires_at now ≡ false)
usable_now now t e = ground (arith, e)

find_by_id-set :
    (user : ℕ) (f : User → User) (us : List User) (u : User)
    → ((u : User) → (f u).id ≡ u.id)
    → find (has_id user) us ≡ some u
    → find (has_id user) (update (has_id user) f us) ≡ some (f u)
find_by_id-set user f us u same e =
    let q = has_id user in
    let keeps = λ (u : User). ap (λ (k : ℕ). k == user) (same u) in
    let hit : change q q f keeps (some u) ≡ some (f u) = ground (arith, find-hit q us u e) in
    find-update q q f keeps us ∙ ap (change q q f keeps) e ∙ hit

module _ (h : Hasher) (hash_token : ℕ → ℕ) (now salt raw password : ℕ) (d : Directory) where
  -- The link of a reset resets its user's password, and never works again.
  abbrev pub ResetsOnce : AuthToken → Directory → Type 0
  ResetsOnce t d' =
      (reset_password h hash_token now salt raw password d ≡ (ok tt, d'))
      × HasReset h now salt password t d d'
      × ((now' salt' password' : ℕ)
          → reset_password h hash_token now' salt' raw password' d'
            ≡ (refusal h hash_token raw, d'))

  -- The link is unusable and the reset refused, or the link is good and used up.
  abbrev pub RefusesOrResets : Type 0
  RefusesOrResets =
      (Unusable h hash_token raw now d
        × (reset_password h hash_token now salt raw password d ≡ (refusal h hash_token raw, d)))
      ⊎ ((t : AuthToken) × (d' : Directory) × Names h hash_token raw d t × ResetsOnce t d')

  -- A reset by an unknown, used or expired link throws and writes nothing. Any other sets the
  -- password of the link's user, revokes every session of that user and no other session; and the
  -- link is refused from then on, whenever it comes and whatever the password.
  pub reset_password-ResetsOnce : RefusesOrResets
  unfolding find_by_id
  reset_password-ResetsOnce =
      elim (Option-cases (usable now (find (is_token (hash_token raw) password_reset) d.tokens))) [
        | inl none_left ↦
            inl (none_left, reset_password-Unusable h hash_token raw now salt password d none_left)
        | inr (t, e) ↦
            let named =
              usable→ h hash_token raw now
                (find (is_token (hash_token raw) password_reset) d.tokens) t e in
            let d' = after h hash_token raw now salt password d t in
            let valid = usable_now now t (ap (usable now) (sym named) ∙ e) in
            inr (
              t,
              d',
              named,
              (
                reset_password_lem h hash_token raw now salt password d t e,
                record {
                  unused = valid.0;
                  in_time = valid.1;
                  revoked = revoked_all t.user d.sessions;
                  others = others_kept t.user d.sessions;
                  set = λ u found.
                      find_by_id-set t.user
                        (λ u. record u { password_hash = some (h.hash salt password) }) d.users u
                        (λ _. refl) found;
                },
                λ now' salt' password'.
                    reset_password-Unusable h hash_token raw now' salt' password' d'
                      (used-Unusable h hash_token raw now now' d t named),
              ),
            )
      ]
