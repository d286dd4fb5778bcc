-- ===== src/Auth/Login.antt =====
-- session-minter.ts and login.service.ts. The cache behind the rate limits and the password hasher
-- of the identity package are parameters; what a mint draws at random is an argument. The signed
-- access token is left out: it is made of the other values.
use solodesk.Prelude.{ℕ, ◌+◌, ◌*◌, Bool, true, false, not, Option, none, some}
use solodesk.Prelude.Action.{
  Action, unauthorized, rate_limited, invalid_credentials, email_not_verified, account_not_active,
  no_tenant_membership, throw_if, or_throw, gets, pure, ◌>>=◌, ◌>>◌,
}
use solodesk.Auth.{
  User, UserStatus, active, AuthSession, AuthMethod, by_password, Directory, find_by_email,
  find_tenant_ids_for_user, first_tenant, create_session, update_last_login, record_audit,
}

-- 30 days.
abbrev pub refresh_token_ttl_ms : ℕ
refresh_token_ttl_ms = 30 * 24 * 3600 * 1000

pub record Drawn : Type 0 where
  pub session : ℕ
  pub refresh_token : ℕ
  pub token_hash : ℕ
  pub family : ℕ
  pub csrf_token : ℕ

pub record LoginResult : Type 0 where
  pub refresh_token : ℕ
  pub csrf_token : ℕ
  pub user : ℕ

abbrev pub session_of : ℕ → Drawn → User → ℕ → Option ℕ → AuthSession
session_of now drawn user tenant sso = record {
  id = drawn.session;
  context = tenant;
  user = user.id;
  token_hash = drawn.token_hash;
  family = drawn.family;
  is_revoked = false;
  expires_at = now + refresh_token_ttl_ms;
  sso_provider = sso;
  csrf_token = drawn.csrf_token;
}

unfoldable pub mint : ℕ → Drawn → User → ℕ → AuthMethod → Option ℕ → Action Directory LoginResult
mint now drawn user tenant method sso = do
  create_session (session_of now drawn user tenant sso)
  update_last_login now user.id
  record_audit (record {
    workspace = tenant;
    session = drawn.session;
    actor = user.id;
    actor_email = user.email;
    action = method;
  })
  pure (record {
    refresh_token = drawn.refresh_token;
    csrf_token = drawn.csrf_token;
    user = user.id;
  })

abbrev pub is_active : UserStatus → Bool
is_active active = true
is_active _ = false

-- The password hash of the identity package.
pub record Hasher : Type 0 where
  pub hash : ℕ → ℕ → ℕ
  pub verify : ℕ → ℕ → Bool

-- `found?.passwordHash ? await verify(…) : false`, and the user if it is true.
abbrev pub matches : Hasher → ℕ → Option ℕ → Bool
matches h password none = false
matches h password (some stored) = h.verify stored password

abbrev pub authenticated : Hasher → ℕ → Option User → Option User
authenticated h password none = none
authenticated h password (some u) = elim (matches h password u.password_hash) [
  | true ↦ some u
  | false ↦ none
]

-- The rate limit of the key lets the call through: the argument `allowed`.
unfoldable pub login : Hasher → Bool → ℕ → Drawn → ℕ → ℕ → Action Directory LoginResult
login h allowed now drawn email password = do
  throw_if (not allowed) rate_limited
  found ← gets (find_by_email email)
  user ← or_throw (authenticated h password found) (unauthorized invalid_credentials)
  throw_if (not user.email_verified) (unauthorized email_not_verified)
  throw_if (not (is_active user.status)) (unauthorized account_not_active)
  tenants ← gets (find_tenant_ids_for_user user.id)
  tenant ← or_throw (first_tenant tenants) (unauthorized no_tenant_membership)
  mint now drawn user tenant by_password none
