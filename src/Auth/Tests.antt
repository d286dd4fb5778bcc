-- ===== src/Auth/Tests.antt =====
-- A directory of one business and its theorems.
use solodesk.Prelude.{ℕ, ◌+◌, ◌*◌, ◌%◌, true, false, none, some, List, [], ◌∷◌, ◌==◌, ◌≡◌, refl}
use solodesk.Prelude.Action.{
  err, unauthorized, account_not_active, email_not_verified, invalid_token,
}
use solodesk.Auth.{
  User, active, suspended, AuthSession, password_reset, SsoIdentity, owner, Directory,
  find_by_email, find_by_id, find_tenant_ids_for_user,
}
use solodesk.Auth.Login.{Drawn, Hasher, login}
use solodesk.Auth.Signup.{SignupInput, Ids, GoogleClaims, google, login_with_google}
use solodesk.Auth.Admission.{LoginEnds, login-LoginEnds}
use solodesk.Auth.Reset.{RefusesOrResets, reset_password-ResetsOnce}
use solodesk.Auth.Access.{Opens}
use solodesk.Auth.Onboarding.{Onboards, signup_with_password-Onboards}
use solodesk.Auth.Takeover.{
  Unproved, Suspended, login_with_google-Opens, login_with_google-Suspended,
}

-- Passwords are below 1000.
abbrev hasher : Hasher
hasher = record {
  hash = λ salt password. salt * 1000 + password;
  verify = λ stored password. (stored % 1000) == password;
}

abbrev token_hash : ℕ → ℕ
token_hash raw = raw + 1

abbrev drawn : ℕ → Drawn
drawn n = record {
  session = n;
  refresh_token = n + 1;
  token_hash = n + 2;
  family = n + 3;
  csrf_token = n + 4;
}

abbrev ids : Ids
ids = record {
  tenant = 40;
  user = 41;
  token = 42;
  notification = 43;
  raw_token = 44;
  token_start = 4;
  salt = 45;
}

abbrev anna : User
anna = record {
  id = 1;
  email = 100;
  password_hash = some 7123;
  display_name = 10;
  email_verified = true;
  status = active;
  last_login_at = none;
}

abbrev session : AuthSession
session = record {
  id = 5;
  context = 3;
  user = 1;
  token_hash = 50;
  family = 6;
  is_revoked = false;
  expires_at = 99999;
  sso_provider = none;
  csrf_token = 9;
}

abbrev directory : User → List SsoIdentity → Directory
directory user identities = record {
  users = user ∷ [];
  sessions = session ∷ record session { id = 6; user = 2 } ∷ [];
  tokens =
      record {
        id = 8;
        user = 1;
        tenant = none;
        token_hash = 78;
        purpose = password_reset;
        expires_at = 5000;
        used_at = none;
      }
      ∷ [];
  identities = identities;
  memberships =
      record { tenant = 3; user = 1; display_name = 10; role = owner; can_edit = true } ∷ [];
  tenants = [];
  audit = [];
  inbox = record { notifications = []; emails = [] };
}

login-LoginEnds_example :
    LoginEnds hasher 1000
      (drawn 20)
      100
      123
      (directory anna [])
      true
      (login hasher true 1000 (drawn 20) 100 123 (directory anna []))
login-LoginEnds_example = login-LoginEnds hasher 1000 (drawn 20) 100 123 (directory anna []) true

reset_password-ResetsOnce_example :
    RefusesOrResets hasher token_hash 1000 30 77 456 (directory anna [])
reset_password-ResetsOnce_example =
    reset_password-ResetsOnce hasher token_hash 1000 30 77 456 (directory anna [])

abbrev input : SignupInput
input = record { email = 200; password = 321; legal_name = 11; industry = 1; province = none }

signup_with_password-Onboards_example :
    Onboards hasher token_hash 1000 ids input (directory anna [])
signup_with_password-Onboards_example =
    signup_with_password-Onboards hasher token_hash 1000 ids input (directory anna []) (refl, refl)
      refl

abbrev claims : GoogleClaims
claims = record { sub = 900; email = 100; display_name = 12 }

-- Registered by someone who knows the address.
abbrev unproved : User
unproved = record anna { email_verified = false }

unproved-Unproved : Unproved hasher claims 123 unproved (directory unproved [])
unfolding find_by_email find_tenant_ids_for_user
unproved-Unproved = record {
  found = refl;
  known = refl;
  unverified = refl;
  live = refl;
  tenant = 3;
  home = refl;
  unlinked = refl;
}

login_with_google-Opens_example :
    ((at : ℕ) (again : Drawn)
      → login hasher true at again 100 123 (directory unproved [])
        ≡ (err (unauthorized email_not_verified), directory unproved []))
    × Opens 1 (
        login_with_google hasher token_hash 1000 ids
          (drawn 20)
          (unauthorized invalid_token)
          (some claims)
          (directory unproved []))
    × ((at : ℕ) (again : Drawn)
        → Opens 1 (
            login hasher true at again 100 123
              (login_with_google hasher token_hash 1000 ids
                (drawn 20)
                (unauthorized invalid_token)
                (some claims)
                (directory unproved [])).1))
login_with_google-Opens_example =
    login_with_google-Opens hasher token_hash 123 1000 ids (drawn 20) (unauthorized invalid_token)
      claims unproved (directory unproved []) unproved-Unproved

abbrev barred : User
barred = record anna { status = suspended }

abbrev google_of_anna : SsoIdentity
google_of_anna = record { user = 1; provider = google; provider_sub = 900; provider_email = 100 }

barred-Suspended : Suspended hasher claims 123 barred (directory barred (google_of_anna ∷ []))
unfolding find_by_email find_by_id find_tenant_ids_for_user
barred-Suspended = record {
  found = refl;
  known = refl;
  verified = refl;
  suspended = refl;
  tenant = 3;
  home = refl;
  identity = google_of_anna;
  linked = refl;
  owner = refl;
}

login_with_google-Suspended_example :
    (login hasher true 1000 (drawn 20) 100 123 (directory barred (google_of_anna ∷ []))
      ≡ (err (unauthorized account_not_active), directory barred (google_of_anna ∷ [])))
    × Opens 1 (
        login_with_google hasher token_hash 1000 ids
          (drawn 20)
          (unauthorized invalid_token)
          (some claims)
          (directory barred (google_of_anna ∷ [])))
login_with_google-Suspended_example =
    login_with_google-Suspended hasher token_hash 123 1000 ids (drawn 20)
      (unauthorized invalid_token) claims barred (directory barred (google_of_anna ∷ []))
      barred-Suspended
