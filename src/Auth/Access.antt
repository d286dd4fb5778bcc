-- ===== src/Auth/Access.antt =====
-- The logins that open a session.
use solodesk.Prelude.{ℕ, true, none, some, ◌≡◌, refl, ap, ◌∙◌, arith}
use solodesk.Prelude.Action.{Result, ok}
use solodesk.Auth.{
  User, by_password, Directory, find_by_email, find_tenant_ids_for_user, first_tenant,
}
use solodesk.Auth.Login.{Drawn, LoginResult, is_active, Hasher, matches, authenticated, login}
use solodesk.Auth.Admission.{login-opened}
use solodesk.Auth.Minted.{answer, mint_lem}
use solodesk.Prelude.{ap, ◌∙◌}

-- A session is opened for the user.
abbrev pub Opens : ℕ → Result LoginResult × Directory → Type 0
Opens user (r, d) = (l : LoginResult) × (r ≡ ok l) × (l.user ≡ user)

-- The password opens a session for u.
pub record MayLogin (h : Hasher) (email password : ℕ) (u : User) (d : Directory) : Type 0 where
  pub found : find_by_email email d ≡ some u
  pub known : matches h password u.password_hash ≡ true
  pub verified : u.email_verified ≡ true
  pub live : is_active u.status ≡ true
  pub tenant : ℕ
  pub home : first_tenant (find_tenant_ids_for_user u.id d) ≡ some tenant

pub known_password :
    (h : Hasher) (password : ℕ) (u : User)
    → matches h password u.password_hash ≡ true
    → authenticated h password (some u) ≡ some u
known_password h password u e = ground (arith, e)

pub login-Opens :
    (h : Hasher) (now : ℕ) (drawn : Drawn) (email password : ℕ) (u : User) (d : Directory)
    → MayLogin h email password u d
    → Opens u.id (login h true now drawn email password d)
login-Opens h now drawn email password u d may =
    let known : authenticated h password (find_by_email email d) ≡ some u =
      ap (authenticated h password) may.found ∙ known_password h password u may.known in
    rw
      (
        login-opened h now drawn email password d u may.tenant known may.verified may.live may.home,
        mint_lem now drawn u may.tenant by_password none d,
      )
      (answer now drawn u may.tenant by_password none d, refl, refl)
