-- ===== src/Messaging/Inbound.antt =====
-- A message that the webhook delivers again.
use solodesk.Prelude.{
  ℕ, true, false, Option, none, some, [], ◌∷◌, ◌==◌, ◌≡◌, ◌⊎◌, refl, ap, ◌∙◌, arith, inl, inr, any,
  Bool-cases, ==_refl,
}
use solodesk.Prelude.Action.{Result, ok}
use solodesk.Tenancy.{assert_tenant_matches_session}
use solodesk.Messaging.{
  Message, InboundMessageInput, Mailbox, is_source, received, collides, record_inbound_if_new,
  record_inbound,
}

collision :
    (new : Message) (ms : Mailbox)
    → any (is_source new.tenant new.source_event) ms ≡ true
    → any (collides new) ms ≡ true
collision new [] h = h
collision new (m ∷ ms) h = elim (Bool-cases (is_source new.tenant new.source_event m)) [
  | inl here ↦ ground (arith, here)
  | inr later ↦ ground (arith, later, h, collision new ms)
]

no_collision :
    (new : Message) (ms : Mailbox)
    → any (λ (m : Message). m.id == new.id) ms ≡ false
    → any (is_source new.tenant new.source_event) ms ≡ false
    → any (collides new) ms ≡ false
no_collision new [] h k = refl
no_collision new (m ∷ ms) h k = ground (arith, h, k, no_collision new ms)

module _ (tenant id now : ℕ) (input : InboundMessageInput) (ms : Mailbox) where
  abbrev pub new : Message
  new = received id now tenant input

  -- An event that is there, under any id, is not recorded.
  pub known_event :
      any (is_source tenant input.source_event) ms ≡ true
      → record_inbound tenant id now tenant input ms ≡ (ok none, ms)
  unfolding record_inbound record_inbound_if_new assert_tenant_matches_session
  known_event there = rw (==_refl tenant, collision new ms there) refl

  pub new_event :
      any (λ (m : Message). m.id == id) ms ≡ false
      → any (is_source tenant input.source_event) ms ≡ false
      → record_inbound tenant id now tenant input ms ≡ (ok (some new), new ∷ ms)
  unfolding record_inbound record_inbound_if_new assert_tenant_matches_session
  new_event fresh absent = rw (==_refl tenant, no_collision new ms fresh absent) refl

module _ (tenant id now : ℕ) (input : InboundMessageInput) (ms : Mailbox) where
  -- What the mailbox holds after a delivery.
  abbrev pub Delivered : Result (Option Message) × Mailbox → Type 0
  Delivered (r, ms') =
      ((any (is_source tenant input.source_event) ms ≡ true) × (r ≡ ok none) × (ms' ≡ ms))
      ⊎ ((any (is_source tenant input.source_event) ms ≡ false)
          × (r ≡ ok (some (new tenant id now input ms)))
          × (ms' ≡ new tenant id now input ms ∷ ms))

  -- Nothing is recorded of the event any more.
  abbrev pub Closed : Mailbox → Type 0
  Closed ms' =
      (id' now' : ℕ) (again : InboundMessageInput)
      → again.source_event ≡ input.source_event
      → record_inbound tenant id' now' tenant again ms' ≡ (ok none, ms')

  there-Closed : (ms' : Mailbox) → any (is_source tenant input.source_event) ms' ≡ true → Closed ms'
  there-Closed ms' there id' now' again same =
      known_event tenant id' now' again ms' (ap (λ e. any (is_source tenant e) ms') same ∙ there)

  -- With an id that is not taken, a delivery records the message if its event is new to the tenant
  -- and nothing if it is not; and every later delivery of that event, whatever it carries, records
  -- nothing.
  pub record_inbound-Delivered :
      any (λ (m : Message). m.id == id) ms ≡ false
      → Delivered (record_inbound tenant id now tenant input ms)
        × Closed (record_inbound tenant id now tenant input ms).1
  record_inbound-Delivered fresh =
      elim (Bool-cases (any (is_source tenant input.source_event) ms)) [
        | inl there ↦
            rw (known_event tenant id now input ms there)
              (inl (there, refl, refl), there-Closed ms there)
        | inr absent ↦
            let now_there : any (is_source tenant input.source_event)
                  (new tenant id now input ms ∷ ms)
                ≡ true =
              ground (arith, ==_refl tenant, ==_refl input.source_event) in
            rw (new_event tenant id now input ms fresh absent)
              (inr (absent, refl, refl), there-Closed (new tenant id now input ms ∷ ms) now_there)
      ]
