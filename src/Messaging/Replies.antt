-- ===== src/Messaging/Replies.antt =====
-- Replies as the two statements they send, which interleave with each other and with new messages.
pub mod Statements
pub mod Interleaving
use solodesk.Prelude.{
  ℕ, zero, suc, Bool, true, false, not, Option, none, some, List, [], ◌∷◌, ◌≡◌, refl, ap, inl, inr,
  ◌==◌, arith, Bool-cases, ==_refl, Option-cases,
}
use solodesk.Prelude.Tables.{Update, unchanged, changed, update_first}
use solodesk.Prelude.Action.{
  Result, ok, err, not_found, conflict, message_not_found, message_already_replied,
}
use solodesk.Tenancy.{assert_tenant_matches_session}
use solodesk.Messaging.{
  Message, InboundMessageInput, Mailbox, is_replied, is_open, answer, find_message, set_reply,
  replied_by, record_inbound_if_new, get_message, reply,
}

-- A call of `reply` in the session of its tenant.
pub record Call : Type 0 where
  pub id : ℕ
  pub tenant : ℕ
  pub content : ℕ
  pub now : ℕ

-- Where a call stands: before its query, between the query and the UPDATE, or at its end.
pub data Turn : Type 0 where
  asked checked : Call → Turn
  ended : Call → Result Message → Turn

abbrev pub guarded : Call → Bool → Turn
guarded c true = ended c (err (conflict message_already_replied))
guarded c false = checked c

abbrev pub looked : Call → Option Message → Turn
looked c none = ended c (err (not_found message_not_found))
looked c (some m) = guarded c (is_replied m)

abbrev pub wrote : Call → Result (Option Message) → Turn
wrote c (ok none) = ended c (err (conflict message_already_replied))
wrote c (ok (some m)) = ended c (ok m)
wrote c (err e) = ended c (err e)

abbrev pub advance : Turn → Mailbox → Turn × Mailbox
advance (asked c) ms = (looked c (find_message c.id c.tenant ms), ms)
advance (checked c) ms =
    let (r, ms') = set_reply c.id c.tenant c.content c.now ms in (wrote c r, ms')
advance (ended c r) ms = (ended c r, ms)

abbrev twice : Turn → Mailbox → Turn × Mailbox
twice t ms = let (t', ms') = advance t ms in advance t' ms'

abbrev alone : Call → Update Message → Mailbox → Result Message × Mailbox
alone c unchanged ms = (err (conflict message_already_replied), ms)
alone c (changed row rows) ms = (ok row, rows)

reply-alone :
    (c : Call) (m : Message) (ms : Mailbox)
    → find_message c.id c.tenant ms ≡ some m
    → is_replied m ≡ false
    → (u : Update Message) → update_first (is_open c.id c.tenant) (answer c.content c.now) ms ≡ u
    → (reply c.tenant c.id c.tenant c.content c.now ms ≡ alone c u ms)
      × (advance (checked c) ms ≡ (ended c (alone c u ms).0, (alone c u ms).1))
unfolding reply get_message set_reply assert_tenant_matches_session
reply-alone c m ms found fresh unchanged e =
    (rw (==_refl c.tenant, found, fresh, e) refl, rw e refl)
reply-alone c m ms found fresh (changed row rows) e =
    (rw (==_refl c.tenant, found, fresh, e) refl, rw e refl)

twice-present :
    (c : Call) (m : Message) (ms : Mailbox)
    → find_message c.id c.tenant ms ≡ some m
    → is_replied m ≡ false
    → twice (asked c) ms ≡ (
      ended c (reply c.tenant c.id c.tenant c.content c.now ms).0,
      (reply c.tenant c.id c.tenant c.content c.now ms).1,
    )
twice-present c m ms found fresh =
    let (whole, parts) =
      reply-alone c m ms found fresh
        (update_first (is_open c.id c.tenant) (answer c.content c.now) ms) refl in
    let passed : looked c (some m) ≡ checked c = ap (guarded c) fresh in
    rw (whole, found, passed) parts

-- A call that nothing interrupts: its two statements in a row come to what `reply` does.
twice-reply :
    (c : Call) (ms : Mailbox)
    → twice (asked c) ms ≡ (
      ended c (reply c.tenant c.id c.tenant c.content c.now ms).0,
      (reply c.tenant c.id c.tenant c.content c.now ms).1,
    )
unfolding reply get_message assert_tenant_matches_session
twice-reply c ms = elim (Option-cases (find_message c.id c.tenant ms)) [
  | inl missing ↦ rw (==_refl c.tenant, missing) refl
  | inr (m, found) ↦ elim (Bool-cases (is_replied m)) [
    | inl late ↦
        let stopped : looked c (some m) ≡ ended c (err (conflict message_already_replied)) =
          ap (guarded c) late in
        rw (==_refl c.tenant, found, stopped, late) refl
    | inr fresh ↦ twice-present c m ms found fresh
  ]
]
