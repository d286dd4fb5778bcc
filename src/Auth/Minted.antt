-- ===== src/Auth/Minted.antt =====
-- What a minted session leaves.
use solodesk.Prelude.{ℕ, Option, some, ◌∷◌, ◌==◌, ◌≡◌, refl, ap, update, find-updated, ==_refl}
use solodesk.Prelude.Action.{ok}
use solodesk.Auth.{
  User, AuthMethod, Directory, has_email, has_id, find_by_email, create_session, update_last_login,
  update_user, record_audit,
}
use solodesk.Auth.Login.{Drawn, LoginResult, session_of, mint}

-- An UPDATE of a user who is found by an address that it does not set.
pub find_by_email-update_user :
    (email : ℕ) (f : User → User) (d : Directory) (u : User)
    → ((v : User) → (f v).email ≡ v.email)
    → find_by_email email d ≡ some u
    → find_by_email email (update_user u.id f d) ≡ some (f u)
unfolding find_by_email
find_by_email-update_user email f d u same e =
    find-updated (has_email email) (has_id u.id) f (λ v. ap (λ (k : ℕ). k == email) (same v))
      d.users u e (==_refl u.id)

module _ (now : ℕ) (drawn : Drawn) (u : User) (tenant : ℕ) (method : AuthMethod) (sso : Option ℕ)
    (d : Directory) where
  abbrev pub minted : Directory
  minted = record d {
    sessions = session_of now drawn u tenant sso ∷ d.sessions;
    users = update (has_id u.id) (λ v. record v { last_login_at = some now }) d.users;
    audit =
        record {
          workspace = tenant;
          session = drawn.session;
          actor = u.id;
          actor_email = u.email;
          action = method;
        }
        ∷ d.audit;
  }

  abbrev pub answer : LoginResult
  answer = record {
    refresh_token = drawn.refresh_token;
    csrf_token = drawn.csrf_token;
    user = u.id;
  }

  pub mint_lem : mint now drawn u tenant method sso d ≡ (ok answer, minted)
  unfolding mint create_session update_last_login record_audit
  mint_lem = refl

  pub find_by_email-minted :
      (email : ℕ)
      → find_by_email email d ≡ some u
      → find_by_email email minted ≡ some (record u { last_login_at = some now })
  unfolding find_by_email
  find_by_email-minted email e =
      find_by_email-update_user email (λ v. record v { last_login_at = some now }) d u (λ _. refl) e
