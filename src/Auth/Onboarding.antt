-- ===== src/Auth/Onboarding.antt =====
-- From a signup to a session.
use solodesk.Prelude.{
  map, ℕ, ◌+◌, ◌≤◌, true, false, ◌&&◌, none, some, ◌∷◌, ◌==◌, ◌≡◌, refl, ap, ◌∙◌, arith, ltb, find,
  update, any, ==_refl, find-none, find_here, find-updated, select_keeps,
}
use solodesk.Prelude.Action.{ok, err, unauthorized, email_not_verified}
use solodesk.Tenancy.{with_tenant_transaction}
use solodesk.Notifications.{Inbox, notify, verify_link}
use solodesk.Auth.{
  User, first_tenant, by_password, update_user, active, AuthToken, email_verify, owner, Membership,
  TenantRow, Directory, has_email, has_id, find_by_email, find_by_id, insert_user, add_member,
  create_tenant, find_tenant_ids_for_user,
}
use solodesk.Auth.Minted.{answer, minted, mint_lem, find_by_email-minted}
use solodesk.Auth.Access.{known_password, Opens, MayLogin, login-Opens}
use solodesk.Auth.Login.{Drawn, mint, Hasher, login}
use solodesk.Auth.Signup.{
  fixed_text, SignupInput, Ids, is_token, usable, province_of, email_verify_ttl_ms,
  signup_with_password, verify_email,
}

module _ (h : Hasher) (hash_token : ℕ → ℕ) (now : ℕ) (drawn : Drawn) (raw : ℕ) (d : Directory) where
  -- What a verification through the token t leaves before it mints a session.
  abbrev verified_by : AuthToken → Directory
  verified_by t =
      update_user t.user (λ u. record u { email_verified = true })
        (record d {
          tokens =
              update (λ (k : AuthToken). k.id == t.id) (λ k. record k { used_at = some now })
                d.tokens;
        })

  verify_email-mint :
      (t : AuthToken) (tenant : ℕ) (u : User)
      → usable now (find (is_token (hash_token raw) email_verify) d.tokens) ≡ some t
      → t.tenant ≡ some tenant
      → find_by_id t.user (verified_by t) ≡ some u
      → verify_email h hash_token now drawn raw d
        ≡ mint now drawn u tenant by_password none (verified_by t)
  unfolding verify_email
  verify_email-mint t tenant u left home there = rw (left, home, there) refl

module _ (h : Hasher) (hash_token : ℕ → ℕ) (now : ℕ) (ids : Ids) (input : SignupInput)
    (d : Directory) where
  abbrev new_user : User
  new_user = record {
    id = ids.user;
    email = input.email;
    password_hash = some (h.hash ids.salt input.password);
    display_name = input.legal_name;
    email_verified = false;
    status = active;
    last_login_at = none;
  }

  abbrev new_tenant : TenantRow
  new_tenant = record {
    id = ids.tenant;
    legal_name = input.legal_name;
    industry = input.industry;
    province = province_of input.province;
  }

  abbrev new_member : Membership
  new_member = record {
    tenant = ids.tenant;
    user = ids.user;
    display_name = input.legal_name;
    role = owner;
    can_edit = true;
  }

  abbrev link : AuthToken
  link = record {
    id = ids.token;
    user = ids.user;
    tenant = some ids.tenant;
    token_hash = hash_token ids.raw_token;
    purpose = email_verify;
    expires_at = now + email_verify_ttl_ms;
    used_at = none;
  }

  -- What a signup leaves.
  abbrev pub signed_up : Directory
  signed_up = record d {
    tenants = new_tenant ∷ d.tenants;
    users = new_user ∷ d.users;
    memberships = new_member ∷ d.memberships;
    tokens = link ∷ d.tokens;
    inbox =
        notify ids.notification now ids.tenant
          (record {
            user = ids.user;
            type = solodesk.Notifications.email_verify;
            body = fixed_text;
            source_event = some (verify_link ids.user);
            email =
                some
                  (record { template = solodesk.Notifications.email_verify; vars = ids.raw_token });
          })
          d.inbox;
  }

  -- The address is new, and so is the membership.
  abbrev pub IsNew : Type 0
  IsNew =
      (any (has_email input.email) d.users ≡ false)
      × (any (λ (m : Membership). m.tenant == ids.tenant && m.user == ids.user) d.memberships
          ≡ false)

  pub signup_with_password_lem :
      IsNew → signup_with_password h hash_token now ids input d ≡ (ok tt, signed_up)
  unfolding signup_with_password find_by_email create_tenant with_tenant_transaction insert_user
      add_member
  signup_with_password_lem (email, member) =
      rw (find-none (has_email input.email) d.users email, email, member) refl

  -- The row that the verification writes.
  abbrev verified_user : User
  verified_user = record new_user { email_verified = true }

  module _ (later : ℕ) (drawn : Drawn) where
    abbrev verified : Directory
    verified = verified_by h hash_token later drawn ids.raw_token signed_up link

    found_verified : find_by_email input.email verified ≡ some verified_user
    unfolding find_by_email
    found_verified =
        find-updated (has_email input.email) (has_id ids.user)
          (λ u. record u { email_verified = true }) (λ _. refl) signed_up.users new_user
          (find_here (has_email input.email) new_user d.users (==_refl input.email))
          (==_refl ids.user)

    known_verified : find_by_id ids.user verified ≡ some verified_user
    unfolding find_by_id
    known_verified =
        find-updated (has_id ids.user) (has_id ids.user) (λ u. record u { email_verified = true })
          (λ _. refl) signed_up.users new_user
          (find_here (has_id ids.user) new_user d.users (==_refl ids.user)) (==_refl ids.user)

    link_left :
        later ≤ now + email_verify_ttl_ms
        → usable later (find (is_token (hash_token ids.raw_token) email_verify) signed_up.tokens)
          ≡ some link
    link_left in_time =
        let fresh : ltb (now + email_verify_ttl_ms) later ≡ false = ground arith in
        let left : usable later (some link) ≡ some link = rw (fresh, usable) refl in
        let hit : is_token (hash_token ids.raw_token) email_verify link ≡ true =
          rw (==_refl (hash_token ids.raw_token)) refl in
        ap (usable later)
          (find_here (is_token (hash_token ids.raw_token) email_verify) link d.tokens hit)
        ∙ left

    verify_email_lem :
        later ≤ now + email_verify_ttl_ms
        → verify_email h hash_token later drawn ids.raw_token signed_up
          ≡ mint later drawn verified_user ids.tenant by_password none verified
    verify_email_lem in_time =
        verify_email-mint h hash_token later drawn ids.raw_token signed_up link ids.tenant
          verified_user (link_left in_time) refl known_verified

    abbrev opened : Directory
    opened = minted later drawn verified_user ids.tenant by_password none verified

    home_opened : first_tenant (find_tenant_ids_for_user ids.user opened) ≡ some ids.tenant
    unfolding find_tenant_ids_for_user
    home_opened =
        ap (λ ms. first_tenant (map (λ (m : Membership). m.tenant) ms))
          (select_keeps (λ (m : Membership). m.user == ids.user) new_member d.memberships
            (==_refl ids.user))

    may_login :
        h.verify (h.hash ids.salt input.password) input.password ≡ true
        → MayLogin h input.email input.password
            (record verified_user { last_login_at = some later })
            opened
    may_login own = record {
      found =
          find_by_email-minted later drawn verified_user ids.tenant by_password none verified
            input.email found_verified;
      known = own;
      verified = refl;
      live = refl;
      tenant = ids.tenant;
      home = home_opened;
    }

  -- Until the address is verified, the password opens nothing.
  unverified-refused :
      (later : ℕ) (drawn : Drawn)
      → h.verify (h.hash ids.salt input.password) input.password ≡ true
      → login h true later drawn input.email input.password signed_up
        ≡ (err (unauthorized email_not_verified), signed_up)
  unfolding login find_by_email
  unverified-refused later drawn own =
      let found = find_here (has_email input.email) new_user d.users (==_refl input.email) in
      rw (found, known_password h input.password new_user own) refl

  -- What the signup leads to.
  pub record Onboards : Type 0 where
    pub signs_up : signup_with_password h hash_token now ids input d ≡ (ok tt, signed_up)
    pub waits :
        (later : ℕ) (drawn : Drawn)
        → login h true later drawn input.email input.password signed_up
          ≡ (err (unauthorized email_not_verified), signed_up)
    pub verifies :
        (later : ℕ) (drawn : Drawn)
        → later ≤ now + email_verify_ttl_ms
        → Opens ids.user (verify_email h hash_token later drawn ids.raw_token signed_up)
    pub returns :
        (later : ℕ) (drawn : Drawn)
        → later ≤ now + email_verify_ttl_ms
        → (at : ℕ) (again : Drawn)
        → Opens ids.user (
            login h true at again input.email input.password
              (verify_email h hash_token later drawn ids.raw_token signed_up).1)

  -- At a new address, with a hasher that accepts the hash of the password, a signup succeeds. Until
  -- its link is followed the password opens no session and the login names the unverified address.
  -- The link that was mailed, followed within 24 hours, opens a session of the new user, and from
  -- then on so does every login with the password that the rate limit lets through.
  pub signup_with_password-Onboards :
      IsNew → h.verify (h.hash ids.salt input.password) input.password ≡ true → Onboards
  signup_with_password-Onboards fresh own = record {
    signs_up = signup_with_password_lem fresh;
    waits = λ later drawn. unverified-refused later drawn own;
    verifies = λ later drawn in_time.
        rw
          (
            verify_email_lem later drawn in_time,
            mint_lem later drawn verified_user ids.tenant by_password none (verified later drawn),
          )
          (
            answer later drawn verified_user ids.tenant by_password none (verified later drawn),
            refl,
            refl,
          );
    returns = λ later drawn in_time at again.
        rw
          (
            verify_email_lem later drawn in_time,
            mint_lem later drawn verified_user ids.tenant by_password none (verified later drawn),
          )
          (login-Opens h at again input.email input.password
            (record verified_user { last_login_at = some later }) (opened later drawn)
            (may_login later drawn own));
  }
