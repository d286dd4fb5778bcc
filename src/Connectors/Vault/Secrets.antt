-- ===== src/Connectors/Vault/Secrets.antt =====
-- Who reads which payload out of the vault.
use mathlib.Core.Option
use solodesk.Prelude.{
  ℕ, Bool, true, false, ◌&&◌, Option, some, ◌==◌, ◌≡◌, refl, ap, ◌∙◌, find, arith, ==_refl,
  find_here, find_later, Option-cases, inl, inr, none,
}
use solodesk.Prelude.Tables.{Update, unchanged, changed, update_first, update_first-Updated}
use solodesk.Prelude.Finding.{find-update_first, find-update_first_other}
use solodesk.Prelude.Action.{ok}
use solodesk.Tenancy.{assert_tenant_matches_session}
use solodesk.Connectors.{Provider, same_provider, catalog_index, EncryptedPayload, Credential, Hub}
use solodesk.Connectors.Vault.{
  CredentialPayload, Cipher, upserted, new_credential, renewed, of_provider, is_live, opened,
  find_encrypted_by_provider, upsert, set_credentials, get_decrypted_payload,
}

module _ (id now tenant : ℕ) (provider : Provider) (encrypted : EncryptedPayload) (h : Hub) where
  abbrev written : Hub
  written = (upsert id now tenant provider encrypted h).1

  abbrev Wrote : Update Credential → Type 0
  Wrote u = update_first (of_provider tenant provider) (renewed now encrypted) h.credentials ≡ u

  found : Update Credential → (Credential → Bool) → Option EncryptedPayload
  found u q =
      Option.map (λ (r : Credential). r.encrypted)
        (find q (upserted (new_credential id now tenant provider encrypted) h.credentials u).1)

  own :
      (r : Credential)
      → of_provider tenant provider r ≡ true
      → is_live tenant provider (renewed now encrypted r) ≡ true
  own r e = ground (arith, e)

  upsert-reads :
      (u : Update Credential) → Wrote u → found u (is_live tenant provider) ≡ some encrypted
  unfolding found
  upsert-reads unchanged e = ap (Option.map (λ (r : Credential). r.encrypted)) (
      find_here (is_live tenant provider) (new_credential id now tenant provider encrypted)
        h.credentials (ground (arith, ==_refl tenant, ==_refl (catalog_index provider))))
  upsert-reads (changed row rows) e =
      ap (Option.map (λ (r : Credential). r.encrypted)) (
        find-update_first (is_live tenant provider) (of_provider tenant provider)
          (renewed now encrypted) h.credentials row rows (λ r no. ground (arith, no)) own e)
      ∙ ap (λ (r : Credential). some r.encrypted)
          (update_first-Updated (of_provider tenant provider) (renewed now encrypted) h.credentials
            e).new

  upsert-others :
      (t : ℕ) (p : Provider) (u : Update Credential)
      → (t == tenant && same_provider p provider) ≡ false
      → Wrote u
      → found u (is_live t p) ≡ find_encrypted_by_provider t p h
  unfolding found find_encrypted_by_provider
  upsert-others t p unchanged other e = ap (Option.map (λ (r : Credential). r.encrypted)) (
      find_later (is_live t p) (new_credential id now tenant provider encrypted) h.credentials
        (ground (arith, other)))
  upsert-others t p (changed row rows) other e = ap (Option.map (λ (r : Credential). r.encrypted)) (
      find-update_first_other (is_live t p) (of_provider tenant provider) (renewed now encrypted)
        h.credentials row rows
        (λ r yes_. (ground (arith, yes_, other), ground (arith, yes_, other))) e)

  after : Hub
  after = (upsert id now tenant provider encrypted h).1

  after-reads : find_encrypted_by_provider tenant provider after ≡ some encrypted
  unfolding after upsert find_encrypted_by_provider found
  after-reads =
      upsert-reads
        (update_first (of_provider tenant provider) (renewed now encrypted) h.credentials) refl

  after-others :
      (t : ℕ) (p : Provider)
      → (t == tenant && same_provider p provider) ≡ false
      → find_encrypted_by_provider t p after ≡ find_encrypted_by_provider t p h
  unfolding after upsert find_encrypted_by_provider found
  after-others t p other =
      upsert-others t p
        (update_first (of_provider tenant provider) (renewed now encrypted) h.credentials) other
        refl

pub get_decrypted_payload_lem :
    (c : Cipher) (t : ℕ) (p : Provider) (h : Hub)
    → get_decrypted_payload c t t p h ≡ opened c (find_encrypted_by_provider t p h) h
unfolding get_decrypted_payload assert_tenant_matches_session
get_decrypted_payload_lem c t p h = rw (==_refl t) refl

opened_own :
    (c : Cipher) (e : EncryptedPayload) (p : CredentialPayload) (h : Hub)
    → c.decrypt e ≡ some p
    → opened c (some e) h ≡ (ok (some p), h)
opened_own c e p h ok_ = rw ok_ refl

-- Only the hub that is passed along differs.
opened_elsewhere :
    (c : Cipher) (o : Option EncryptedPayload) (h h' : Hub) → opened c o h' ≡ ((opened c o h).0, h')
opened_elsewhere c none h h' = refl
opened_elsewhere c (some e) h h' = elim (Option-cases (c.decrypt e)) [
  | inl fails ↦ rw fails refl
  | inr (p, reads) ↦ rw reads refl
]

set_credentials_lem :
    (c : Cipher) (iv id now tenant : ℕ) (provider : Provider) (payload : CredentialPayload)
    (h : Hub)
    → (set_credentials c tenant iv id now tenant provider payload h).1
      ≡ after id now tenant provider (c.encrypt iv payload) h
unfolding set_credentials assert_tenant_matches_session after
set_credentials_lem c iv id now tenant provider payload h = rw (==_refl tenant) refl

module _ (c : Cipher)
    (faithful : (iv : ℕ) (p : CredentialPayload) → c.decrypt (c.encrypt iv p) ≡ some p) where
  -- Credentials that a tenant of the session stores are what its provider's adapter gets, decrypted,
  -- from then on, and every other payload of any tenant and provider reads as before. The cipher's
  -- decrypt undoes its encrypt.
  pub set_credentials-get_decrypted_payload :
      (iv id now tenant : ℕ) (provider : Provider) (payload : CredentialPayload) (h : Hub)
      → let h' = (set_credentials c tenant iv id now tenant provider payload h).1 in
        (get_decrypted_payload c tenant tenant provider h' ≡ (ok (some payload), h'))
        × ((t : ℕ) (p : Provider)
            → (t == tenant && same_provider p provider) ≡ false
            → get_decrypted_payload c t t p h' ≡ ((get_decrypted_payload c t t p h).0, h'))
  set_credentials-get_decrypted_payload iv id now tenant provider payload h =
      let e = set_credentials_lem c iv id now tenant provider payload h in
      let encrypted = c.encrypt iv payload in
      (
        rw
            (
              e,
              get_decrypted_payload_lem c tenant provider,
              after-reads id now tenant provider encrypted h,
            )
            (opened_own c encrypted payload (after id now tenant provider encrypted h)
              (faithful iv payload)),
        λ t p other.
            rw
              (
                e,
                get_decrypted_payload_lem c t p (after id now tenant provider encrypted h),
                get_decrypted_payload_lem c t p h,
                after-others id now tenant provider encrypted h t p other,
              )
              (opened_elsewhere c (find_encrypted_by_provider t p h) h
                (after id now tenant provider encrypted h)),
      )
