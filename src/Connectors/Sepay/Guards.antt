-- ===== src/Connectors/Sepay/Guards.antt =====
-- Which deliveries the SePay webhook admits.
use solodesk.Prelude.{
  ℕ, true, false, ap, Option, none, some, [], ◌∷◌, ◌≡◌, ◌≢◌, ◌↔◌, refl, ◌∙◌, arith, inl, inr,
  Bool-cases, Option-cases,
}
use solodesk.Prelude.Action.{
  Action, Result, err, refused, undecryptable, Failure, not_found, permission_denied,
  webhook_token_not_found, credential_not_found, sepay_webhook_auth_failed, transaction_id_missing,
  or_throw, ◌>>=◌,
}
use solodesk.Money.{Text}
use solodesk.Sales.{Store}
use solodesk.Connectors.{
  Provider, same_provider, EncryptedPayload, PathToken, uuid, no_uuid, sepay, SepayBody,
  WebhookToken, Hub,
}
use solodesk.Connectors.Vault.{
  CredentialPayload, Cipher, resolve, find_encrypted_by_provider, resolve_webhook_token,
}
use solodesk.Connectors.Vault.Secrets.{get_decrypted_payload_lem}
use solodesk.Connectors.Resilience.{Link}
use solodesk.Connectors.Sepay.{
  same_text, field, webhook_secret, expected_header, is_header, Fresh, World, Answer, is_sepay,
  take_transfer, handle,
}

same_text_iff : (s t : Text) → (same_text s t ≡ true) ↔ (s ≡ t)
same_text_iff [] [] = (λ _. refl, λ _. refl)
same_text_iff [] (d ∷ t) = (λ e. cc, λ e. cc)
same_text_iff (c ∷ s) [] = (λ e. cc, λ e. cc)
same_text_iff (c ∷ s) (d ∷ t) = ground (arith, same_text_iff s t)

is_header_iff :
    (header : Option Text) (expected : Text)
    → (is_header header expected ≡ true) ↔ (header ≡ some expected)
is_header_iff none expected = (λ e. cc, λ e. cc)
is_header_iff (some s) expected = ground (arith, same_text_iff s expected)

same_provider_sepay : (p : Provider) → same_provider p sepay ≡ true → p ≡ sepay
same_provider_sepay sepay h = refl
same_provider_sepay _ h = absurd (cc)

-- The row of the token, which is one for SePay.
abbrev pub Resolves : PathToken → Hub → WebhookToken → Type 0
Resolves token h t = (k : ℕ) × (token ≡ uuid k) × (resolve k h ≡ some t) × (t.provider ≡ sepay)

-- The decrypted payload of the tenant's active SePay credentials.
abbrev pub Vaulted : Cipher → Hub → WebhookToken → CredentialPayload → Type 0
Vaulted c h t p =
    (e : EncryptedPayload) × (find_encrypted_by_provider t.tenant sepay h ≡ some e)
    × (c.decrypt e ≡ some p)

own_row : (t : WebhookToken) → t.provider ≡ sepay → is_sepay (some t) ≡ some t
own_row t own =
    let same : same_provider t.provider sepay ≡ true = rw own refl in ground (arith, same)

other_row : (t : WebhookToken) → same_provider t.provider sepay ≡ false → is_sepay (some t) ≡ none
other_row t other = ground (arith, other)

-- `Apikey undefined`
abbrev pub undefined_header : Text
undefined_header =
    b'A' ∷ b'p' ∷ b'i' ∷ b'k' ∷ b'e' ∷ b'y' ∷ b' ' ∷ b'u' ∷ b'n' ∷ b'd' ∷ b'e' ∷ b'f' ∷ b'i' ∷ b'n'
    ∷ b'e' ∷ b'd' ∷ []

module _ (status : Failure → ℕ)
    (execute : Action (Link Store) (Unit {0}) → Action (Link Store) (Unit {0})) (c : Cipher)
    (fresh : Fresh) (token : PathToken) (header : Option Text) (body : SepayBody) (w : World) where
  -- What a delivery comes to, by what the hub's tables hold and what it carries.
  pub data Admission : Result Answer × World → Type 0 where
    malformed_token : token ≡ no_uuid → Admission (err refused, w)
    unknown_token :
        (k : ℕ)
        → token ≡ uuid k
        → resolve k w.hub ≡ none
        → Admission (err (not_found webhook_token_not_found), w)
    foreign_token :
        (k : ℕ) (t : WebhookToken)
        → token ≡ uuid k
        → resolve k w.hub ≡ some t
        → t.provider ≢ sepay
        → Admission (err (not_found webhook_token_not_found), w)
    no_credentials :
        (t : WebhookToken)
        → Resolves token w.hub t
        → find_encrypted_by_provider t.tenant sepay w.hub ≡ none
        → Admission (err (not_found credential_not_found), w)
    unreadable :
        (t : WebhookToken) (e : EncryptedPayload)
        → Resolves token w.hub t
        → find_encrypted_by_provider t.tenant sepay w.hub ≡ some e
        → c.decrypt e ≡ none
        → Admission (err undecryptable, w)
    forged :
        (t : WebhookToken) (p : CredentialPayload)
        → Resolves token w.hub t
        → Vaulted c w.hub t p
        → header ≢ some (expected_header p)
        → Admission (err (permission_denied sepay_webhook_auth_failed), w)
    no_id :
        (t : WebhookToken) (p : CredentialPayload)
        → Resolves token w.hub t
        → Vaulted c w.hub t p
        → header ≡ some (expected_header p)
        → body.id ≡ none
        → Admission (err (not_found transaction_id_missing), w)
    admitted :
        (t : WebhookToken) (p : CredentialPayload) (id : ℕ)
        → Resolves token w.hub t
        → Vaulted c w.hub t p
        → header ≡ some (expected_header p)
        → body.id ≡ some id
        → Admission (take_transfer status execute fresh t.tenant body id w)

-- Behind the row of the token.
module _ (status : Failure → ℕ)
    (execute : Action (Link Store) (Unit {0}) → Action (Link Store) (Unit {0})) (c : Cipher)
    (fresh : Fresh) (k : ℕ) (header : Option Text) (body : SepayBody) (w : World) (t : WebhookToken)
    (there : resolve k w.hub ≡ some t) (own : t.provider ≡ sepay) where
  abbrev Ends : Result Answer × World → Type 0
  Ends = Admission status execute c fresh (uuid k) header body w

  abbrev outcome : Result Answer × World
  outcome = handle status execute c fresh (uuid k) header body w

  abbrev row : Resolves (uuid k) w.hub t
  row = (k, refl, there, own)

  passes : is_sepay (resolve k w.hub) ≡ some t
  passes = ap is_sepay there ∙ own_row t own

  behind_id :
      (p : CredentialPayload)
      → Vaulted c w.hub t p
      → header ≡ some (expected_header p)
      → (id : Option ℕ) → body.id ≡ id
      → Ends (
          ((λ (w : World). or_throw id (not_found transaction_id_missing) w) >>= λ id.
          take_transfer status execute fresh t.tenant body id)
            w)
  behind_id p v h none found = no_id t p row v h found
  behind_id p v h (some id) found = admitted t p id row v h found

  behind_vault : (p : CredentialPayload) → Vaulted c w.hub t p → Ends outcome
  unfolding handle resolve_webhook_token
  behind_vault p (e, stored, reads) = elim (Bool-cases (is_header header (expected_header p))) [
    | inl passed ↦
        rw (passes, get_decrypted_payload_lem c t.tenant sepay w.hub, stored, reads, passed)
          (behind_id p (e, stored, reads) ((is_header_iff header (expected_header p)).0 passed)
            (body.id) refl)
    | inr failed ↦
        rw (passes, get_decrypted_payload_lem c t.tenant sepay w.hub, stored, reads, failed)
          (forged t p row (e, stored, reads)
            (λ h. (let passed = (is_header_iff header (expected_header p)).1 h in cc)))
  ]

  behind_row : Ends outcome
  unfolding handle resolve_webhook_token
  behind_row = elim (Option-cases (find_encrypted_by_provider t.tenant sepay w.hub)) [
    | inl missing ↦
        rw (passes, get_decrypted_payload_lem c t.tenant sepay w.hub, missing)
          (no_credentials t row missing)
    | inr (e, stored) ↦ elim (Option-cases (c.decrypt e)) [
      | inl fails ↦
          rw (passes, get_decrypted_payload_lem c t.tenant sepay w.hub, stored, fails)
            (unreadable t e row stored fails)
      | inr (p, reads) ↦ behind_vault p (e, stored, reads)
    ]
  ]

module _ (status : Failure → ℕ)
    (execute : Action (Link Store) (Unit {0}) → Action (Link Store) (Unit {0})) (c : Cipher)
    (fresh : Fresh) where
  behind_token :
      (k : ℕ) (header : Option Text) (body : SepayBody) (w : World) (t : WebhookToken)
      → resolve k w.hub ≡ some t
      → Admission status execute c fresh
          (uuid k)
          header
          body
          w
          (handle status execute c fresh (uuid k) header body w)
  unfolding handle resolve_webhook_token
  behind_token k header body w t there = elim (Bool-cases (same_provider t.provider sepay)) [
    | inl own ↦
        behind_row status execute c fresh k header body w t there
          (same_provider_sepay t.provider own)
    | inr other ↦
        let stopped : is_sepay (resolve k w.hub) ≡ none = ap is_sepay there ∙ other_row t other in
        rw stopped (
          foreign_token k t refl there
            (λ own. (let same = ap (λ p. same_provider p sepay) own in cc)))
  ]

  -- Every delivery whose token's row is for SePay and whose tenant's active SePay credentials can be
  -- decrypted to a payload with the header's secret, and that has an id, is taken for the tenant of
  -- the token. Any other delivery throws and writes nothing, each with its own error: a token that
  -- is no uuid is refused by the database; an unknown token and one of another provider are not
  -- found; then credentials that are missing, credentials that cannot be decrypted, a header other
  -- than `Apikey` with the vaulted secret, and a body with no id.
  pub handle-Admission :
      (token : PathToken) (header : Option Text) (body : SepayBody) (w : World)
      → Admission status execute c fresh token header body w
          (handle status execute c fresh token header body w)
  unfolding handle resolve_webhook_token
  handle-Admission no_uuid header body w = malformed_token refl
  handle-Admission (uuid k) header body w = elim (Option-cases (resolve k w.hub)) [
    | inl missing ↦ rw missing (unknown_token k refl missing)
    | inr (t, there) ↦ behind_token k header body w t there
  ]

  pub handle-admitted :
      (token : PathToken) (header : Option Text) (body : SepayBody) (w : World) (t : WebhookToken)
      (p : CredentialPayload) (id : ℕ)
      → Resolves token w.hub t
      → Vaulted c w.hub t p
      → header ≡ some (expected_header p)
      → body.id ≡ some id
      → handle status execute c fresh token header body w
        ≡ take_transfer status execute fresh t.tenant body id w
  unfolding handle resolve_webhook_token
  handle-admitted token header body w t p id (k, is, there, own) (e, stored, reads) h found =
      let passed = (is_header_iff header (expected_header p)).1 h in
      let passes : is_sepay (resolve k w.hub) ≡ some t = ap is_sepay there ∙ own_row t own in
      rw
        (is, passes, get_decrypted_payload_lem c t.tenant sepay w.hub, stored, reads, passed, found)
        refl

  -- A tenant whose vaulted SePay payload has no `webhookSecret` takes every delivery with an id to
  -- its token whose header is `Apikey undefined`.
  pub handle-undefined :
      (token : PathToken) (header : Option Text) (body : SepayBody) (w : World) (t : WebhookToken)
      (p : CredentialPayload) (id : ℕ)
      → Resolves token w.hub t
      → Vaulted c w.hub t p
      → field webhook_secret p ≡ none
      → header ≡ some (undefined_header)
      → body.id ≡ some id
      → handle status execute c fresh token header body w
        ≡ take_transfer status execute fresh t.tenant body id w
  unfolding expected_header
  handle-undefined token header body w t p id e v missing h found =
      handle-admitted token header body w t p id e v (h ∙ rw missing refl) found
