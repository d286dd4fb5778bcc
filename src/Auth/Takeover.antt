-- ===== src/Auth/Takeover.antt =====
-- Google logins that meet a password nobody verified, or an account that is not active.
use solodesk.Prelude.{ℕ, true, false, none, some, ◌∷◌, ◌≡◌, refl, find}
use solodesk.Prelude.Action.{
  Result, err, Failure, unauthorized, email_not_verified, account_not_active,
}
use solodesk.Auth.{
  User, find_by_id, by_sso, SsoIdentity, Directory, find_by_email, update_user,
  find_tenant_ids_for_user, first_tenant,
}
use solodesk.Auth.Login.{Drawn, LoginResult, mint, is_active, Hasher, matches, login}
use solodesk.Auth.Signup.{
  Ids, GoogleClaims, google, is_identity, upsert_by_sso_identity, login_with_google,
}
use solodesk.Auth.Minted.{find_by_email-update_user, minted, answer, mint_lem, find_by_email-minted}
use solodesk.Auth.Access.{Opens, MayLogin, login-Opens, known_password}

-- A password account of the address, whose owner never proved to own it, and no Google account yet.
pub record Unproved (h : Hasher) (claims : GoogleClaims) (password : ℕ) (u : User) (d : Directory)
    : Type 0 where
  pub found : find_by_email claims.email d ≡ some u
  pub known : matches h password u.password_hash ≡ true
  pub unverified : u.email_verified ≡ false
  pub live : is_active u.status ≡ true
  pub tenant : ℕ
  pub home : first_tenant (find_tenant_ids_for_user u.id d) ≡ some tenant
  pub unlinked : find (is_identity google claims.sub) d.identities ≡ none

module _ (h : Hasher) (hash_token : ℕ → ℕ) (password : ℕ) (now : ℕ) (ids : Ids) (drawn : Drawn)
    (rejected : Failure) (claims : GoogleClaims) (u : User) (d : Directory)
    (before : Unproved h claims password u d) where
  abbrev verified_user : User
  verified_user = record u { email_verified = true }

  -- What the login leaves before it mints a session.
  abbrev linked_now : Directory
  linked_now = record (update_user u.id (λ v. record v { email_verified = true }) d) {
    identities =
        record {
          user = u.id;
          provider = google;
          provider_sub = claims.sub;
          provider_email = claims.email;
        }
        ∷ d.identities;
  }

  login_with_google-mint :
      login_with_google h hash_token now ids drawn rejected (some claims) d
      ≡ mint now drawn verified_user before.tenant by_sso (some google) linked_now
  unfolding login_with_google upsert_by_sso_identity find_tenant_ids_for_user
  login_with_google-mint = rw (before.unlinked, before.found, before.unverified, before.home) refl

  found_linked : find_by_email claims.email linked_now ≡ some verified_user
  unfolding find_by_email
  found_linked =
      find_by_email-update_user claims.email (λ v. record v { email_verified = true }) d u
        (λ _. refl) before.found

  abbrev opened : Directory
  opened = minted now drawn verified_user before.tenant by_sso (some google) linked_now

  home_opened : first_tenant (find_tenant_ids_for_user u.id opened) ≡ some before.tenant
  unfolding find_tenant_ids_for_user
  home_opened = before.home

  may_login :
      MayLogin h claims.email password (record verified_user { last_login_at = some now }) opened
  may_login = record {
    found =
        find_by_email-minted now drawn verified_user before.tenant by_sso (some google) linked_now
          claims.email found_linked;
    known = before.known;
    verified = refl;
    live = before.live;
    tenant = before.tenant;
    home = home_opened;
  }

  refused_before :
      (at : ℕ) (again : Drawn)
      → login h true at again claims.email password d ≡ (err (unauthorized email_not_verified), d)
  unfolding login
  refused_before at again =
      rw (before.found, known_password h password u before.known, before.unverified) refl

  abbrev after_google : Result LoginResult × Directory
  after_google = login_with_google h hash_token now ids drawn rejected (some claims) d

  -- Where a password was registered for an address that was never verified, that password opens no
  -- session. The first Google login with the address opens one for the same user; and from then on
  -- the password opens one too, although whoever chose it never proved to own the address.
  pub login_with_google-Opens :
      ((at : ℕ) (again : Drawn)
        → login h true at again claims.email password d
          ≡ (err (unauthorized email_not_verified), d))
      × Opens u.id after_google
      × ((at : ℕ) (again : Drawn)
          → Opens u.id (login h true at again claims.email password after_google.1))
  login_with_google-Opens =
      let minting =
        mint_lem now drawn verified_user before.tenant by_sso (some google) linked_now in
      (
        refused_before,
        rw (login_with_google-mint, minting)
            (
              answer now drawn verified_user before.tenant by_sso (some google) linked_now,
              refl,
              refl,
            ),
        λ at again.
            rw (login_with_google-mint, minting)
              (login-Opens h at again claims.email password
                (record verified_user { last_login_at = some now }) opened may_login),
      )

-- A verified account that is not active, and that Google is linked to.
pub record Suspended (h : Hasher) (claims : GoogleClaims) (password : ℕ) (u : User) (d : Directory)
    : Type 0 where
  pub found : find_by_email u.email d ≡ some u
  pub known : matches h password u.password_hash ≡ true
  pub verified : u.email_verified ≡ true
  pub suspended : is_active u.status ≡ false
  pub tenant : ℕ
  pub home : first_tenant (find_tenant_ids_for_user u.id d) ≡ some tenant
  pub identity : SsoIdentity
  pub linked : find (is_identity google claims.sub) d.identities ≡ some identity
  pub owner : find_by_id identity.user d ≡ some u

module _ (h : Hasher) (hash_token : ℕ → ℕ) (password : ℕ) (now : ℕ) (ids : Ids) (drawn : Drawn)
    (rejected : Failure) (claims : GoogleClaims) (u : User) (d : Directory)
    (locked : Suspended h claims password u d) where
  refused_locked :
      login h true now drawn u.email password d ≡ (err (unauthorized account_not_active), d)
  unfolding login
  refused_locked =
      rw (locked.found, known_password h password u locked.known, locked.verified, locked.suspended)
        refl

  mints_locked :
      login_with_google h hash_token now ids drawn rejected (some claims) d
      ≡ mint now drawn u locked.tenant by_sso (some google) d
  unfolding login_with_google upsert_by_sso_identity
  mints_locked = rw (locked.linked, locked.owner, locked.home) refl

  -- An account that is not active is refused to its password, and opened all the same to a Google
  -- account that is linked to it.
  pub login_with_google-Suspended :
      (login h true now drawn u.email password d ≡ (err (unauthorized account_not_active), d))
      × Opens u.id (login_with_google h hash_token now ids drawn rejected (some claims) d)
  login_with_google-Suspended = (
    refused_locked,
    rw (mints_locked, mint_lem now drawn u locked.tenant by_sso (some google) d)
        (answer now drawn u locked.tenant by_sso (some google) d, refl, refl),
  )
