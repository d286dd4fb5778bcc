-- ===== src/Connectors/Zalo/Guards.antt =====
-- Which deliveries the Zalo webhook admits.
use solodesk.Prelude.{
  ℕ, true, false, none, some, ◌≡◌, ◌≢◌, ◌⊎◌, refl, ap, ◌∙◌, arith, inl, inr, Bool-cases,
  Option-cases, some_injective,
}
use solodesk.Prelude.Action.{
  Action, Result, err, refused, Failure, not_found, webhook_token_not_found, message_id_missing,
  message_fields_missing,
}
use solodesk.Messaging.{Mailbox}
use solodesk.Connectors.{
  Provider, zalo, same_provider, Given, absent, blank, given, ZaloBody, PathToken, uuid, no_uuid,
  WebhookToken, Hub,
}
use solodesk.Connectors.Vault.{resolve, resolve_webhook_token}
use solodesk.Connectors.Resilience.{Link}
use solodesk.Connectors.Zalo.{
  Drawn, Exchange, Answer, is_zalo, is_empty, trim, nonempty, or_else, event_id, lacks_fields,
  take_message, handle_zalo,
}
use solodesk.Connectors.Zalo.Spaces.{IsBlank, HasInk, trim-IsBlank, trim-HasInk}

same_provider_zalo : (p : Provider) → same_provider p zalo ≡ true → p ≡ zalo
same_provider_zalo zalo h = refl
same_provider_zalo _ h = absurd (cc)

-- The row of the token, which is one for Zalo.
abbrev pub ResolvesZalo : PathToken → Hub → WebhookToken → Type 0
ResolvesZalo token h t = (k : ℕ) × (token ≡ uuid k) × (resolve k h ≡ some t) × (t.provider ≡ zalo)

-- `messageId`, or `maNguoiDung` where there is no `messageId`, is that id.
abbrev pub Identifies : ZaloBody → ℕ → Type 0
Identifies body id =
    (body.message_id ≡ given id) ⊎ ((body.message_id ≡ absent) × (body.ma_nguoi_dung ≡ given id))

abbrev pub Unidentified : ZaloBody → Type 0
Unidentified body =
    (body.message_id ≡ blank)
    ⊎ ((body.message_id ≡ absent) × (((id : ℕ) → body.ma_nguoi_dung ≢ given id)))

-- What `a ?? b` comes to.
nonempty-or_else :
    (a b : Given) (id : ℕ)
    → nonempty (or_else a b) ≡ some id
    → (a ≡ given id) ⊎ ((a ≡ absent) × (b ≡ given id))
nonempty-or_else absent absent id h = absurd (cc)
nonempty-or_else absent blank id h = absurd (cc)
nonempty-or_else absent (given k) id h = inr (refl, ap given (some_injective h))
nonempty-or_else blank b id h = absurd (cc)
nonempty-or_else (given k) b id h = inl (ap given (some_injective h))

empty-or_else :
    (a b : Given)
    → nonempty (or_else a b) ≡ none
    → (a ≡ blank) ⊎ ((a ≡ absent) × ((id : ℕ) → b ≢ given id))
empty-or_else absent absent h = inr (refl, λ id e. cc)
empty-or_else absent blank h = inr (refl, λ id e. cc)
empty-or_else absent (given k) h = absurd (cc)
empty-or_else blank b h = inl refl
empty-or_else (given k) b h = absurd (cc)

own_row : (t : WebhookToken) → t.provider ≡ zalo → is_zalo (some t) ≡ some t
own_row t own =
    let same : same_provider t.provider zalo ≡ true = rw own refl in ground (arith, same)

other_row : (t : WebhookToken) → same_provider t.provider zalo ≡ false → is_zalo (some t) ≡ none
other_row t other = ground (arith, other)

pub ResolvesZalo-is_zalo :
    (k : ℕ) (h : Hub) (t : WebhookToken)
    → resolve k h ≡ some t
    → t.provider ≡ zalo
    → is_zalo (resolve k h) ≡ some t
ResolvesZalo-is_zalo k h t there own = ap is_zalo there ∙ own_row t own

pub Identifies-event_id : (body : ZaloBody) (id : ℕ) → Identifies body id → event_id body ≡ some id
Identifies-event_id body id (inl here) = ap (λ a. nonempty (or_else a body.ma_nguoi_dung)) here
Identifies-event_id body id (inr (none_, there)) =
    ap (λ a. nonempty (or_else a body.ma_nguoi_dung)) none_ ∙ ap nonempty there

lacking : (body : ZaloBody) → lacks_fields body ≡ true → IsBlank body.noi_dung ⊎ IsBlank body.khach
lacking body h = elim (Bool-cases (is_empty (trim body.noi_dung))) [
  | inl empty ↦ inl (trim-IsBlank body.noi_dung empty)
  | inr full ↦ inr (trim-IsBlank body.khach (ground (arith, h, full)))
]

complete : (body : ZaloBody) → lacks_fields body ≡ false → HasInk body.noi_dung × HasInk body.khach
complete body h =
    (trim-HasInk body.noi_dung (ground (arith, h)), trim-HasInk body.khach (ground (arith, h)))

module _ (status : Failure → ℕ)
    (execute : Action (Link Mailbox) (Unit {0}) → Action (Link Mailbox) (Unit {0})) (drawn : Drawn)
    (token : PathToken) (body : ZaloBody) (w : Exchange) where
  -- What a delivery comes to, by the token and what it carries.
  pub data Reception : Result Answer × Exchange → Type 0 where
    malformed_token : token ≡ no_uuid → Reception (err refused, w)
    unknown_token :
        (k : ℕ)
        → token ≡ uuid k
        → resolve k w.hub ≡ none
        → Reception (err (not_found webhook_token_not_found), w)
    foreign_token :
        (k : ℕ) (t : WebhookToken)
        → token ≡ uuid k
        → resolve k w.hub ≡ some t
        → t.provider ≢ zalo
        → Reception (err (not_found webhook_token_not_found), w)
    no_id :
        (t : WebhookToken)
        → ResolvesZalo token w.hub t
        → Unidentified body
        → Reception (err (not_found message_id_missing), w)
    no_fields :
        (t : WebhookToken) (id : ℕ)
        → ResolvesZalo token w.hub t
        → Identifies body id
        → IsBlank body.noi_dung ⊎ IsBlank body.khach
        → Reception (err (not_found message_fields_missing), w)
    taken :
        (t : WebhookToken) (id : ℕ)
        → ResolvesZalo token w.hub t
        → Identifies body id
        → HasInk body.noi_dung
        → HasInk body.khach
        → Reception (take_message status execute drawn t.tenant body id w)

module _ (status : Failure → ℕ)
    (execute : Action (Link Mailbox) (Unit {0}) → Action (Link Mailbox) (Unit {0}))
    (drawn : Drawn) where
  behind_row :
      (k : ℕ) (body : ZaloBody) (w : Exchange) (t : WebhookToken)
      → resolve k w.hub ≡ some t
      → t.provider ≡ zalo
      → Reception status execute drawn
          (uuid k)
          body
          w
          (handle_zalo status execute drawn (uuid k) body w)
  unfolding handle_zalo resolve_webhook_token
  behind_row k body w t there own =
      let row : ResolvesZalo (uuid k) w.hub t = (k, refl, there, own) in
      let passes = ResolvesZalo-is_zalo k w.hub t there own in
      elim (Option-cases (event_id body)) [
        | inl lost ↦
            rw (passes, lost) (no_id t row (empty-or_else body.message_id body.ma_nguoi_dung lost))
        | inr (id, found) ↦
            let named = nonempty-or_else body.message_id body.ma_nguoi_dung id found in
            elim (Bool-cases (lacks_fields body)) [
              | inl lacks ↦
                  rw (passes, found, lacks) (no_fields t id row named (lacking body lacks))
              | inr full ↦
                  let (text, name) = complete body full in
                  rw (passes, found, full) (taken t id row named text name)
            ]
      ]

  behind_token :
      (k : ℕ) (body : ZaloBody) (w : Exchange) (t : WebhookToken)
      → resolve k w.hub ≡ some t
      → Reception status execute drawn
          (uuid k)
          body
          w
          (handle_zalo status execute drawn (uuid k) body w)
  unfolding handle_zalo resolve_webhook_token
  behind_token k body w t there = elim (Bool-cases (same_provider t.provider zalo)) [
    | inl own ↦ behind_row k body w t there (same_provider_zalo t.provider own)
    | inr other ↦
        let stopped : is_zalo (resolve k w.hub) ≡ none = ap is_zalo there ∙ other_row t other in
        rw stopped (
          foreign_token k t refl there
            (λ own. (let same = ap (λ p. same_provider p zalo) own in cc)))
  ]

  -- Every delivery throws and writes nothing, or is taken for the tenant of its token. The database
  -- refuses a token that is no uuid; an unknown token and one of another provider are not found;
  -- then a body whose `messageId` is empty, or is absent with no `maNguoiDung` to stand in, and a
  -- body whose text or name is white space alone each have their own error. Any other delivery is
  -- taken, whatever its headers.
  pub handle_zalo-Reception :
      (token : PathToken) (body : ZaloBody) (w : Exchange)
      → Reception status execute drawn token body w (handle_zalo status execute drawn token body w)
  unfolding handle_zalo resolve_webhook_token
  handle_zalo-Reception no_uuid body w = malformed_token refl
  handle_zalo-Reception (uuid k) body w = elim (Option-cases (resolve k w.hub)) [
    | inl missing ↦ rw missing (unknown_token k refl missing)
    | inr (t, there) ↦ behind_token k body w t there
  ]
