-- ===== src/Auth/Signup.antt =====
-- signup.service.ts. Hashing is a parameter; ids, raw tokens and salts that a call draws at random
-- are arguments, and so is what Google's verifier makes of an id token.
use solodesk.Prelude.{
  ℕ, ◌+◌, ◌*◌, Bool, true, false, ◌&&◌, ◌||◌, Option, none, some, ◌∷◌, ◌==◌, ltb, find, update,
}
use solodesk.Prelude.Action.{
  Action, Failure, conflict, unauthorized, email_already_registered, invalid_token, throw_if,
  or_throw, gets, modify, pure, ◌>>=◌, ◌>>◌, refused,
}
use solodesk.Tenancy.{with_tenant_transaction}
use solodesk.Notifications.{NotifyInput, notify, verify_link, reset_link}
use solodesk.Auth.{
  User, active, AuthToken, TokenPurpose, email_verify, password_reset, SsoIdentity, owner,
  by_password, by_sso, Directory, find_by_email, find_by_id, update_user, insert_user,
  revoke_all_for_user, find_tenant_ids_for_user, first_tenant, add_member, create_tenant,
}
use solodesk.Auth.Login.{Drawn, LoginResult, mint, Hasher}

abbrev pub email_verify_ttl_ms : ℕ
email_verify_ttl_ms = 24 * 3600 * 1000

abbrev pub password_reset_ttl_ms : ℕ
password_reset_ttl_ms = 60 * 60 * 1000

pub record SignupInput : Type 0 where
  pub email : ℕ
  pub password : ℕ
  pub legal_name : ℕ
  pub industry : ℕ
  pub province : Option ℕ

-- The ids of the rows that a call may insert, the raw token with its first 16 characters, and the
-- salt.
pub record Ids : Type 0 where
  pub tenant : ℕ
  pub user : ℕ
  pub token : ℕ
  pub notification : ℕ
  pub raw_token : ℕ
  pub token_start : ℕ
  pub salt : ℕ

-- `input.province ?? 'gia_lai'`
abbrev pub province_of : Option ℕ → ℕ
province_of none = 0
province_of (some p) = p

abbrev pub is_taken : Option User → Bool
is_taken none = false
is_taken (some u) = true

-- The title and the body of a notification do not depend on the call.
abbrev pub fixed_text : ℕ
fixed_text = 0

abbrev pub insert_token : AuthToken → Action Directory (Unit {0})
insert_token token = modify (λ d. record d { tokens = token ∷ d.tokens })

abbrev pub notify_user : ℕ → ℕ → ℕ → NotifyInput → Action Directory (Unit {0})
notify_user id now tenant input =
    modify (λ d. record d { inbox = notify id now tenant input d.inbox })

abbrev pub same_purpose : TokenPurpose → TokenPurpose → Bool
same_purpose email_verify email_verify = true
same_purpose password_reset password_reset = true
same_purpose _ _ = false

abbrev pub is_token : ℕ → TokenPurpose → AuthToken → Bool
is_token hash purpose t = t.token_hash == hash && same_purpose t.purpose purpose

abbrev pub is_used : Option ℕ → Bool
is_used none = false
is_used (some at) = true

-- `!row || row.usedAt || row.expiresAt < new Date()`
abbrev pub usable : ℕ → Option AuthToken → Option AuthToken
usable now none = none
usable now (some t) = elim (is_used t.used_at || ltb t.expires_at now) [
  | true ↦ none
  | false ↦ some t
]

abbrev pub use_token : ℕ → ℕ → Action Directory (Unit {0})
use_token now id = modify (λ d. record d {
  tokens = update (λ (t : AuthToken). t.id == id) (λ t. record t { used_at = some now }) d.tokens;
})

pub record GoogleClaims : Type 0 where
  pub sub : ℕ
  pub email : ℕ
  pub display_name : ℕ

abbrev pub google : ℕ
google = 0

abbrev pub is_identity : ℕ → ℕ → SsoIdentity → Bool
is_identity provider sub i = i.provider == provider && i.provider_sub == sub

-- The user that the e-mail address names, verified from now on, or a new one.
abbrev pub linked : ℕ → ℕ → ℕ → Option User → Action Directory User
linked id email display_name none = insert_user (record {
  id = id;
  email = email;
  password_hash = none;
  display_name = display_name;
  email_verified = true;
  status = active;
  last_login_at = none;
})
linked id email display_name (some u) = elim (u.email_verified) [
  | true ↦ pure u
  | false ↦ do
    modify (update_user u.id (λ u. record u { email_verified = true }))
    pure (record u { email_verified = true })
]

abbrev pub upsert_unlinked : ℕ → ℕ → ℕ → ℕ → ℕ → Option SsoIdentity → Action Directory User
upsert_unlinked id provider sub email display_name (some i) = do
  found ← gets (find_by_id i.user)
  or_throw found refused
upsert_unlinked id provider sub email display_name none = do
  existing ← gets (find_by_email email)
  user ← linked id email display_name existing
  modify (λ d. record d {
    identities =
        record { user = user.id; provider = provider; provider_sub = sub; provider_email = email }
        ∷ d.identities;
  })
  pure user

unfoldable pub upsert_by_sso_identity : ℕ → ℕ → ℕ → ℕ → ℕ → Action Directory User
upsert_by_sso_identity id provider sub email display_name = do
  identity ← gets (λ d. find (is_identity provider sub) d.identities)
  upsert_unlinked id provider sub email display_name identity

-- A tenant of the user's own, if it has none.
abbrev pub tenant_for : ℕ → GoogleClaims → User → Option ℕ → Action Directory ℕ
tenant_for id claims user (some tenant) = pure tenant
tenant_for id claims user none = do
  tenant ← create_tenant (record {
    id = id;
    legal_name = claims.display_name;
    industry = 0;
    province = province_of none;
  })
  add_member (record {
    tenant = tenant.id;
    user = user.id;
    display_name = claims.display_name;
    role = owner;
    can_edit = true;
  })
  pure tenant.id

module _ (h : Hasher) (hash_token : ℕ → ℕ) where
  abbrev pub set_up : ℕ → Ids → SignupInput → ℕ → Action Directory (Unit {0})
  set_up now ids input tenant = do
    user ← insert_user (record {
      id = ids.user;
      email = input.email;
      password_hash = some (h.hash ids.salt input.password);
      display_name = input.legal_name;
      email_verified = false;
      status = active;
      last_login_at = none;
    })
    add_member (record {
      tenant = tenant;
      user = user.id;
      display_name = input.legal_name;
      role = owner;
      can_edit = true;
    })
    insert_token (record {
      id = ids.token;
      user = user.id;
      tenant = some tenant;
      token_hash = hash_token ids.raw_token;
      purpose = email_verify;
      expires_at = now + email_verify_ttl_ms;
      used_at = none;
    })
    notify_user ids.notification now tenant (record {
      user = user.id;
      type = solodesk.Notifications.email_verify;
      body = fixed_text;
      source_event = some (verify_link user.id);
      email =
          some (record { template = solodesk.Notifications.email_verify; vars = ids.raw_token });
    })

  -- The tenant is written before the transaction, and stays if that rolls back.
  unfoldable pub signup_with_password : ℕ → Ids → SignupInput → Action Directory (Unit {0})
  signup_with_password now ids input = do
    existing ← gets (find_by_email input.email)
    throw_if (is_taken existing) (conflict email_already_registered)
    tenant ← create_tenant (record {
      id = ids.tenant;
      legal_name = input.legal_name;
      industry = input.industry;
      province = province_of input.province;
    })
    with_tenant_transaction (set_up now ids input tenant.id)

  unfoldable pub verify_email : ℕ → Drawn → ℕ → Action Directory LoginResult
  verify_email now drawn raw = do
    found ← gets (λ d. find (is_token (hash_token raw) email_verify) d.tokens)
    row ← or_throw (usable now found) (unauthorized invalid_token)
    tenant ← or_throw row.tenant (unauthorized invalid_token)
    use_token now row.id
    modify (update_user row.user (λ u. record u { email_verified = true }))
    user ← gets (find_by_id row.user)
    u ← or_throw user (unauthorized invalid_token)
    mint now drawn u tenant by_password none

  -- `verified` is what Google's verifier makes of the id token, or its error.
  unfoldable pub login_with_google :
      ℕ → Ids → Drawn → Failure → Option GoogleClaims → Action Directory LoginResult
  login_with_google now ids drawn rejected verified = do
    claims ← or_throw verified rejected
    user ← upsert_by_sso_identity ids.user google claims.sub claims.email claims.display_name
    tenants ← gets (find_tenant_ids_for_user user.id)
    tenant ← tenant_for ids.tenant claims user (first_tenant tenants)
    mint now drawn user tenant by_sso (some google)

  abbrev tell : ℕ → Ids → User → Option ℕ → Action Directory (Unit {0})
  tell now ids user none = pure tt
  tell now ids user (some tenant) = notify_user ids.notification now tenant (record {
    user = user.id;
    type = solodesk.Notifications.password_reset;
    body = fixed_text;
    source_event = some (reset_link ids.token_start);
    email =
        some (record { template = solodesk.Notifications.password_reset; vars = ids.raw_token });
  })

  abbrev pub send_reset : ℕ → Ids → Option User → Action Directory (Unit {0})
  send_reset now ids none = pure tt
  send_reset now ids (some user) = elim (user.password_hash) [
    | none ↦ pure tt
    | some stored ↦ do
      insert_token (record {
        id = ids.token;
        user = user.id;
        tenant = none;
        token_hash = hash_token ids.raw_token;
        purpose = password_reset;
        expires_at = now + password_reset_ttl_ms;
        used_at = none;
      })
      tenants ← gets (find_tenant_ids_for_user user.id)
      tell now ids user (first_tenant tenants)
  ]

  unfoldable pub forgot_password : ℕ → Ids → ℕ → Action Directory (Unit {0})
  forgot_password now ids email = do found ← gets (find_by_email email); send_reset now ids found

  unfoldable pub reset_password : ℕ → ℕ → ℕ → ℕ → Action Directory (Unit {0})
  reset_password now salt raw password = do
    found ← gets (λ d. find (is_token (hash_token raw) password_reset) d.tokens)
    row ← or_throw (usable now found) (unauthorized invalid_token)
    use_token now row.id
    modify (update_user row.user (λ u. record u { password_hash = some (h.hash salt password) }))
    revoke_all_for_user row.user
