-- ===== src/Auth.antt =====
-- services/backend-api/src/modules/auth: the rows of `identity` (src/db/schema), and
-- user.drizzle-repository.ts, auth-session.drizzle-repository.ts, auth-audit.service.ts. Ids, e-mail
-- addresses, passwords, hashes and texts are numbers; times are milliseconds.
pub mod Login
pub mod Signup
pub mod Admission
pub mod Reset
pub mod Minted
pub mod Access
pub mod Onboarding
pub mod Takeover
mod Tests
use solodesk.Prelude.{
  ℕ, Bool, true, false, not, ◌&&◌, Option, none, some, List, [], ◌∷◌, ◌==◌, find, any, update,
  select, map,
}
use solodesk.Prelude.Tables.{Update, unchanged, changed, update_first}
use solodesk.Prelude.Action.{
  Action, ok, Failure, refused, throw_if, or_throw, gets, modify, pure, ◌>>=◌, ◌>>◌,
}
use solodesk.Notifications.{Inbox}

pub data UserStatus : Type 0 where
  invited active inactive suspended : UserStatus

pub record User : Type 0 where
  pub id : ℕ
  pub email : ℕ
  pub password_hash : Option ℕ
  pub display_name : ℕ
  pub email_verified : Bool
  pub status : UserStatus
  pub last_login_at : Option ℕ

pub record AuthSession : Type 0 where
  pub id : ℕ
  pub context : ℕ
  pub user : ℕ
  pub token_hash : ℕ
  pub family : ℕ
  pub is_revoked : Bool
  pub expires_at : ℕ
  pub sso_provider : Option ℕ
  pub csrf_token : ℕ

pub data TokenPurpose : Type 0 where
  email_verify password_reset : TokenPurpose

pub record AuthToken : Type 0 where
  pub id : ℕ
  pub user : ℕ
  pub tenant : Option ℕ
  pub token_hash : ℕ
  pub purpose : TokenPurpose
  pub expires_at : ℕ
  pub used_at : Option ℕ

pub record SsoIdentity : Type 0 where
  pub user : ℕ
  pub provider : ℕ
  pub provider_sub : ℕ
  pub provider_email : ℕ

pub data Role : Type 0 where
  owner accountant_delegate successor : Role

-- A row of tenant_members, with the row of user_tenant_memberships that is written beside it.
pub record Membership : Type 0 where
  pub tenant : ℕ
  pub user : ℕ
  pub display_name : ℕ
  pub role : Role
  pub can_edit : Bool

pub record TenantRow : Type 0 where
  pub id : ℕ
  pub legal_name : ℕ
  pub industry : ℕ
  pub province : ℕ

pub data AuthMethod : Type 0 where
  by_password by_sso : AuthMethod

-- A row of auth_audit_log.
pub record AuditRow : Type 0 where
  pub workspace : ℕ
  pub session : ℕ
  pub actor : ℕ
  pub actor_email : ℕ
  pub action : AuthMethod

pub record Directory : Type 0 where
  pub users : List User
  pub sessions : List AuthSession
  pub tokens : List AuthToken
  pub identities : List SsoIdentity
  pub memberships : List Membership
  pub tenants : List TenantRow
  pub audit : List AuditRow
  pub inbox : Inbox

abbrev pub has_email : ℕ → User → Bool
has_email email u = u.email == email

abbrev pub has_id : ℕ → User → Bool
has_id id u = u.id == id

-- `findPasswordHashByEmail` reads the same row.
unfoldable pub find_by_email : ℕ → Directory → Option User
find_by_email email d = find (has_email email) d.users

unfoldable pub find_by_id : ℕ → Directory → Option User
find_by_id id d = find (has_id id) d.users

-- An UPDATE of the user of an id.
abbrev pub update_user : ℕ → (User → User) → Directory → Directory
update_user id f d = record d { users = update (has_id id) f d.users }

unfoldable pub update_last_login : ℕ → ℕ → Action Directory (Unit {0})
update_last_login now id = modify (update_user id (λ u. record u { last_login_at = some now }))

pub update_status : ℕ → UserStatus → Action Directory (Unit {0})
update_status id status = modify (update_user id (λ u. record u { status = status }))

-- The unique index on `email`.
unfoldable pub insert_user : User → Action Directory User
insert_user user d =
    (throw_if (any (has_email user.email) d.users) refused
        >> (λ d. pure user (record d { users = user ∷ d.users })))
      d

unfoldable pub create_session : AuthSession → Action Directory (Unit {0})
create_session session = modify (λ d. record d { sessions = session ∷ d.sessions })

abbrev pub revoke : AuthSession → AuthSession
revoke s = record s { is_revoked = true }

unfoldable pub revoke_all_for_user : ℕ → Action Directory (Unit {0})
revoke_all_for_user user =
    modify
      (λ d. record d { sessions = update (λ (s : AuthSession). s.user == user) revoke d.sessions })

pub revoke_by_id : ℕ → Action Directory (Unit {0})
revoke_by_id id =
    modify (λ d. record d { sessions = update (λ (s : AuthSession). s.id == id) revoke d.sessions })

pub revoke_family : ℕ → Action Directory (Unit {0})
revoke_family family = modify (λ d. record d {
  sessions = update (λ (s : AuthSession). s.family == family) revoke d.sessions;
})

abbrev revoked : Update AuthSession → Action Directory Bool
revoked unchanged d = (ok false, d)
revoked (changed row rows) d = (ok true, record d { sessions = rows })

-- Whether the session was active until now.
pub revoke_by_id_if_active : ℕ → Action Directory Bool
revoke_by_id_if_active id d =
    revoked (update_first (λ (s : AuthSession). s.id == id && not s.is_revoked) revoke d.sessions) d

pub find_by_token_hash : ℕ → Directory → Option AuthSession
find_by_token_hash hash d = find (λ (s : AuthSession). s.token_hash == hash) d.sessions

unfoldable pub find_tenant_ids_for_user : ℕ → Directory → List ℕ
find_tenant_ids_for_user user d =
    map (λ (m : Membership). m.tenant) (select (λ (m : Membership). m.user == user) d.memberships)

abbrev pub first_tenant : List ℕ → Option ℕ
first_tenant [] = none
first_tenant (t ∷ ts) = some t

-- The unique index on (tenant_id, user_id).
unfoldable pub add_member : Membership → Action Directory (Unit {0})
add_member member d =
    (throw_if
          (any (λ (m : Membership). m.tenant == member.tenant && m.user == member.user)
            d.memberships)
          refused
        >> modify (λ d. record d { memberships = member ∷ d.memberships }))
      d

unfoldable pub create_tenant : TenantRow → Action Directory TenantRow
create_tenant tenant d = (ok tenant, record d { tenants = tenant ∷ d.tenants })

-- `record` catches whatever the INSERT throws: an audit row may be missing, but no caller fails.
unfoldable pub record_audit : AuditRow → Action Directory (Unit {0})
record_audit row = modify (λ d. record d { audit = row ∷ d.audit })
