-- ===== src/Connectors/Vault.antt =====
-- services/connector-hub/src/modules/vault: vault.service.ts, credential.drizzle-repository.ts and
-- webhook-token.drizzle-repository.ts, and connector-verification.service.ts. The cipher behind
-- platform/crypto/encryption.service.ts, with JSON.stringify before it and JSON.parse behind it, is
-- the parameter `c`, whose decrypt is `none` where one of them throws; a random nonce, id or token
-- is an argument.
pub mod Secrets
use mathlib.Core.Option
use solodesk.Prelude.{
  ℕ, Bool, true, false, not, ◌&&◌, Option, none, some, List, [], ◌∷◌, ◌==◌, find, select, map, any,
}
use solodesk.Prelude.Tables.{Update, unchanged, changed, update_first}
use solodesk.Prelude.Action.{
  Action, Result, ok, err, undecryptable, refused, not_found, credential_not_found,
  adapter_not_implemented, throw, or_throw, gets, modify, pure, ◌>>=◌, ◌>>◌,
}
use solodesk.Tenancy.{assert_tenant_matches_session}
use solodesk.Money.{Text}
use solodesk.Connectors.{
  Provider, sepay, zalo, same_provider, EncryptedPayload, Credential, WebhookToken, PathToken, uuid,
  no_uuid, Hub,
}

-- `Record<string, string>`
abbrev pub CredentialPayload : Type 0
CredentialPayload = List (Text × Text)

pub record Cipher : Type 0 where
  pub encrypt : ℕ → CredentialPayload → EncryptedPayload
  pub decrypt : EncryptedPayload → Option CredentialPayload

-- What the row shows to the outside: never the payload.
pub record StoredCredential : Type 0 where
  pub id : ℕ
  pub tenant : ℕ
  pub provider : Provider
  pub is_active : Bool
  pub last_verified_at : Option ℕ
  pub last_verification_ok : Option Bool
  pub updated_at : ℕ

abbrev pub to_metadata : Credential → StoredCredential
to_metadata r = record {
  id = r.id;
  tenant = r.tenant;
  provider = r.provider;
  is_active = r.is_active;
  last_verified_at = r.last_verified_at;
  last_verification_ok = r.last_verification_ok;
  updated_at = r.updated_at;
}

abbrev pub of_provider : ℕ → Provider → Credential → Bool
of_provider tenant provider r = r.tenant == tenant && same_provider r.provider provider

abbrev pub is_live : ℕ → Provider → Credential → Bool
is_live tenant provider r = of_provider tenant provider r && r.is_active

pub list_metadata_by_tenant : ℕ → Hub → List StoredCredential
list_metadata_by_tenant tenant h =
    map to_metadata (select (λ (r : Credential). r.tenant == tenant) h.credentials)

unfoldable pub find_encrypted_by_provider : ℕ → Provider → Hub → Option EncryptedPayload
find_encrypted_by_provider tenant provider h =
    Option.map (λ (r : Credential). r.encrypted) (find (is_live tenant provider) h.credentials)

abbrev pub new_credential : ℕ → ℕ → ℕ → Provider → EncryptedPayload → Credential
new_credential id now tenant provider encrypted = record {
  id = id;
  tenant = tenant;
  provider = provider;
  encrypted = encrypted;
  is_active = true;
  last_verified_at = none;
  last_verification_ok = none;
  updated_at = now;
}

abbrev pub renewed : ℕ → EncryptedPayload → Credential → Credential
renewed now encrypted r = record r { encrypted = encrypted; is_active = true; updated_at = now }

-- `INSERT … ON CONFLICT (tenant_id, provider) DO UPDATE`
abbrev pub upserted :
    Credential → List Credential → Update Credential → Credential × List Credential
upserted new rows unchanged = (new, new ∷ rows)
upserted new rows (changed row rows') = (row, rows')

unfoldable pub upsert : ℕ → ℕ → ℕ → Provider → EncryptedPayload → Action Hub StoredCredential
upsert id now tenant provider encrypted h =
    let (row, rows) =
      upserted (new_credential id now tenant provider encrypted) h.credentials
        (update_first (of_provider tenant provider) (renewed now encrypted) h.credentials) in
    pure (to_metadata row) (record h { credentials = rows })

abbrev updated : Update Credential → Action Hub (Option StoredCredential)
updated unchanged h = (ok none, h)
updated (changed row rows) h = (ok (some (to_metadata row)), record h { credentials = rows })

unfoldable pub deactivate_credential : ℕ → ℕ → Provider → Action Hub (Option StoredCredential)
deactivate_credential now tenant provider h =
    updated
      (update_first (is_live tenant provider)
        (λ r. record r { is_active = false; updated_at = now }) h.credentials)
      h

unfoldable pub record_verification : ℕ → ℕ → Provider → Bool → Action Hub (Option StoredCredential)
record_verification now tenant provider passed h =
    updated
      (update_first (is_live tenant provider)
        (λ r. record r {
          last_verified_at = some now;
          last_verification_ok = some passed;
          updated_at = now;
        })
        h.credentials)
      h

abbrev pub of_pair : ℕ → Provider → WebhookToken → Bool
of_pair tenant provider t = t.tenant == tenant && same_provider t.provider provider

abbrev get_or_insert : ℕ → ℕ → Provider → Option WebhookToken → Action Hub ℕ
get_or_insert new tenant provider (some t) h = (ok t.token, h)
get_or_insert new tenant provider none h = (
  ok new,
  record h { tokens = record { token = new; tenant = tenant; provider = provider } ∷ h.tokens },
)

-- `INSERT … ON CONFLICT (tenant_id, provider) DO NOTHING`, and the SELECT behind it.
unfoldable pub get_or_create : ℕ → ℕ → Provider → Action Hub ℕ
get_or_create new tenant provider h =
    get_or_insert new tenant provider (find (of_pair tenant provider) h.tokens) h

-- No tenant: the table has no row-level policy.
unfoldable pub resolve : ℕ → Hub → Option WebhookToken
resolve token h = find (λ (t : WebhookToken). t.token == token) h.tokens

-- `encrypted ? decrypt(encrypted) : null`
abbrev pub opened : Cipher → Option EncryptedPayload → Action Hub (Option CredentialPayload)
opened c none = pure none
opened c (some e) = do payload ← or_throw (c.decrypt e) undecryptable; pure (some payload)

module _ (c : Cipher) where
  unfoldable pub set_credentials :
      ℕ → ℕ → ℕ → ℕ → ℕ → Provider → CredentialPayload → Action Hub StoredCredential
  set_credentials session iv id now tenant provider payload = do
    assert_tenant_matches_session session tenant
    upsert id now tenant provider (c.encrypt iv payload)

  unfoldable pub get_decrypted_payload : ℕ → ℕ → Provider → Action Hub (Option CredentialPayload)
  get_decrypted_payload session tenant provider = do
    assert_tenant_matches_session session tenant
    encrypted ← gets (find_encrypted_by_provider tenant provider)
    opened c encrypted

pub list_providers : ℕ → ℕ → Action Hub (List StoredCredential)
list_providers session tenant = do
  assert_tenant_matches_session session tenant
  gets (list_metadata_by_tenant tenant)

unfoldable pub deactivate : ℕ → ℕ → ℕ → Provider → Action Hub StoredCredential
deactivate session now tenant provider = do
  assert_tenant_matches_session session tenant
  result ← deactivate_credential now tenant provider
  or_throw result (not_found credential_not_found)

unfoldable pub record_verification_result :
    ℕ → ℕ → ℕ → Provider → Bool → Action Hub (Option StoredCredential)
record_verification_result session now tenant provider passed = do
  assert_tenant_matches_session session tenant
  record_verification now tenant provider passed

unfoldable pub get_or_create_webhook_token : ℕ → ℕ → ℕ → Provider → Action Hub ℕ
get_or_create_webhook_token session new tenant provider = do
  assert_tenant_matches_session session tenant
  get_or_create new tenant provider

-- The database refuses to compare its uuid column with a text that is none.
unfoldable pub resolve_webhook_token : PathToken → Action Hub (Option WebhookToken)
resolve_webhook_token (uuid token) = gets (resolve token)
resolve_webhook_token no_uuid = throw refused

-- Every provider but zalo is in the registry of adapters.
abbrev pub has_adapter : Provider → Bool
has_adapter zalo = false
has_adapter _ = true

-- The adapters' answers are third-party calls: the argument `answer`.
abbrev conclude : ℕ → ℕ → ℕ → Provider → Result Bool → Action Hub Bool
conclude session now tenant provider (ok passed) = do
  record_verification_result session now tenant provider passed
  pure passed
conclude session now tenant provider (err e) = do
  record_verification_result session now tenant provider false
  throw e

abbrev ask :
    ℕ
    → ℕ
    → ℕ
    → Provider
    → (CredentialPayload → Result Bool)
    → Bool
    → CredentialPayload
    → Action Hub Bool
ask session now tenant provider answer false payload = throw (not_found adapter_not_implemented)
ask session now tenant provider answer true payload =
    conclude session now tenant provider (answer payload)

unfoldable pub verify :
    Cipher → ℕ → ℕ → ℕ → Provider → (CredentialPayload → Result Bool) → Action Hub Bool
verify c session now tenant provider answer = do
  found ← get_decrypted_payload c session tenant provider
  payload ← or_throw found (not_found credential_not_found)
  ask session now tenant provider answer (has_adapter provider) payload
