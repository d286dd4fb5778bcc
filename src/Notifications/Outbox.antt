-- ===== src/Notifications/Outbox.antt =====
-- The rows that the unique index on (tenant_id, source_event_id) lets in.
use mathlib.Core.Bool.{and-eq-true_iff}
use mathlib.Core.Path.{subst, subst₂}
use solodesk.Prelude.{
  ℕ, Bool, true, false, ◌&&◌, Option, none, some, List, [], ◌∷◌, ◌==◌, ◌≡◌, refl, ◌∙◌, ap, sym, any,
  arith, select, select_keeps, select_skips, length, ==_refl, if◌then◌else◌, ◌≤◌, Bool-cases, inl,
  inr, ==_iff,
}
use solodesk.Notifications.{
  OutboxRow, Mail, SourceEvent, einvoice_threshold, filing_deadline, doc_expiry, verify_link,
  reset_link, same_event, clashes, Notification, NotifyInput, Inbox, insert_notification, email_of,
  mailed, notification_of, notify, notify_each,
}

abbrev pub is_about : ℕ → SourceEvent → Notification → Bool
is_about tenant event n = n.tenant == tenant && clashes (some event) n.source_event

abbrev pub about : ℕ → SourceEvent → Inbox → List Notification
about tenant event inbox = select (is_about tenant event) inbox.notifications

select_none :
    (p : Notification → Bool) (ns : List Notification) → any p ns ≡ false → select p ns ≡ []
select_none p [] h = refl
select_none p (n ∷ ns) h = ground (arith, select_none p ns)

-- Every event of a tenant is in at most one row.
abbrev pub IsOncePerEvent : Inbox → Type 0
IsOncePerEvent inbox = (tenant : ℕ) (event : SourceEvent) → length (about tenant event inbox) ≤ 1

same_event→≡ : (a b : SourceEvent) → same_event a b ≡ true → a ≡ b
same_event→≡ (einvoice_threshold t y) (einvoice_threshold t' y') h = ground arith
same_event→≡ (filing_deadline t q y) (filing_deadline t' q' y') h = ground arith
same_event→≡ (doc_expiry d e) (doc_expiry d' e') h = ground arith
same_event→≡ (verify_link u) (verify_link u') h = ground arith
same_event→≡ (reset_link r) (reset_link r') h = ground arith
same_event→≡ _ _ h = absurd (cc)

clashes→≡ :
    (event : SourceEvent) (o : Option SourceEvent) → clashes (some event) o ≡ true → o ≡ some event
clashes→≡ event none h = absurd cc
clashes→≡ event (some e) h = ap some (sym (same_event→≡ event e h))

is_about→ :
    (tenant : ℕ) (event : SourceEvent) (n : Notification)
    → is_about tenant event n ≡ true
    → (n.tenant ≡ tenant) × (n.source_event ≡ some event)
is_about→ tenant event n h =
    let (own, same) = (and-eq-true_iff _ _).0 h in
    ((==_iff _ _).0 own, clashes→≡ event n.source_event same)

-- The index's test on a new row.
abbrev collides : ℕ → Option SourceEvent → Notification → Bool
collides tenant event k = k.tenant == tenant && clashes event k.source_event

first_about :
    (n : Notification) (ns : List Notification) (tenant : ℕ) (event : SourceEvent)
    → n.tenant ≡ tenant
    → n.source_event ≡ some event
    → any (collides n.tenant n.source_event) ns ≡ false
    → select (is_about tenant event) ns ≡ []
first_about n ns tenant event own same free =
    select_none (is_about tenant event) ns
      (subst₂ (λ t e. any (collides t e) ns ≡ false) own same free)

insert-IsOncePerEvent :
    (n : Notification) (ns : List Notification) (tenant : ℕ) (event : SourceEvent)
    → length (select (is_about tenant event) ns) ≤ 1
    → length (select (is_about tenant event) (insert_notification n ns)) ≤ 1
insert-IsOncePerEvent n ns tenant event h =
    elim (Bool-cases (any (collides n.tenant n.source_event) ns)) [
      | inl taken ↦ rw taken h
      | inr free ↦ rw free (elim (Bool-cases (is_about tenant event n)) [
        | inl hit ↦
            let (own, same) = is_about→ tenant event n hit in
            subst (λ l. length l ≤ 1)
              (sym (
                select_keeps (is_about tenant event) n ns hit
                ∙ ap (λ l. n ∷ l) (first_about n ns tenant event own same free)))
              (omega arith)
        | inr miss ↦
            subst (λ l. length l ≤ 1) (sym (select_skips (is_about tenant event) n ns miss)) h
      ])
    ]

notify-IsOncePerEvent :
    (id now tenant : ℕ) (input : NotifyInput) (inbox : Inbox)
    → IsOncePerEvent inbox
    → IsOncePerEvent (notify id now tenant input inbox)
unfolding notify
notify-IsOncePerEvent id now tenant input inbox h = λ t event.
    insert-IsOncePerEvent (notification_of id now tenant input) inbox.notifications t event
      (h t event)

notify_each-IsOncePerEvent :
    (id now tenant : ℕ) (input : ℕ → NotifyInput) (users : List ℕ) (inbox : Inbox)
    → IsOncePerEvent inbox
    → IsOncePerEvent (notify_each id now tenant input users inbox)
unfolding notify_each
notify_each-IsOncePerEvent id now tenant input [] inbox h = h
notify_each-IsOncePerEvent id now tenant input (user ∷ users) inbox h =
    notify_each-IsOncePerEvent id now tenant input users (notify id now tenant (input user) inbox)
      (notify-IsOncePerEvent id now tenant (input user) inbox h)

-- A notification of the event is there.
abbrev pub IsTold : ℕ → SourceEvent → Inbox → Type 0
IsTold tenant event inbox =
    any (λ (k : Notification). k.tenant == tenant && clashes (some event) k.source_event)
      inbox.notifications
    ≡ true

-- The mail of the event, if the input asks for one, is in the outbox.
abbrev pub IsMailed : ℕ → SourceEvent → Option Mail → List OutboxRow → Type 0
IsMailed tenant event none emails = Unit {0}
IsMailed tenant event (some mail) emails =
    any (λ (k : OutboxRow). k.tenant == tenant && clashes (some event) k.source_event) emails ≡ true

same_event_refl : (e : SourceEvent) → same_event e e ≡ true
same_event_refl (einvoice_threshold t y) = ground (arith, ==_refl t, ==_refl y)
same_event_refl (filing_deadline t q y) = ground (arith, ==_refl t, ==_refl q, ==_refl y)
same_event_refl (doc_expiry d e) = ground (arith, ==_refl d, ==_refl e)
same_event_refl (verify_link u) = ==_refl u
same_event_refl (reset_link r) = ==_refl r

clashes_own : (tenant : ℕ) (e : SourceEvent) → (tenant == tenant && same_event e e) ≡ true
clashes_own tenant e = ground (arith, ==_refl tenant, same_event_refl e)

module _ (tenant : ℕ) (event : SourceEvent) (mail : Option Mail) where
  -- What a sweep sends to a user: always this event, always with or always without a mail.
  abbrev pub IsAbout : (ℕ → NotifyInput) → Type 0
  IsAbout input =
      (user : ℕ) → ((input user).source_event ≡ some event) × ((input user).email ≡ mail)

  abbrev tells : Notification → Bool
  tells k = k.tenant == tenant && clashes (some event) k.source_event

  abbrev mails : OutboxRow → Bool
  mails k = k.tenant == tenant && clashes (some event) k.source_event

  inserted :
      (n : Notification) (ns : List Notification)
      → tells n ≡ true
      → (b : Bool) → any tells ns ≡ b
      → any tells (if b then ns else n ∷ ns) ≡ true
  inserted n ns mine true e = e
  inserted n ns mine false e = ground (arith, mine)

  mail_inserted :
      (r : OutboxRow) (rs : List OutboxRow)
      → mails r ≡ true
      → (b : Bool) → any mails rs ≡ b
      → any mails (if b then rs else r ∷ rs) ≡ true
  mail_inserted r rs mine true e = e
  mail_inserted r rs mine false e = ground (arith, mine)

  abbrev Noted : Inbox → Type 0
  Noted inbox = IsTold tenant event inbox × IsMailed tenant event mail inbox.emails

  abbrev about_it : NotifyInput → NotifyInput
  about_it input = record input { source_event = some event; email = mail }

  mail_noted :
      (id now : ℕ) (input : NotifyInput) (inbox : Inbox) (o : Option Mail)
      → IsMailed tenant event o (mailed id now tenant (about_it input) o inbox.emails)
  mail_noted id now input inbox none = tt
  mail_noted id now input inbox (some t) =
      mail_inserted (email_of id now tenant (about_it input) t) inbox.emails
        (clashes_own tenant event) _ refl

  mail_same :
      (id now : ℕ) (input : NotifyInput) (inbox : Inbox) (o : Option Mail)
      → IsMailed tenant event o inbox.emails
      → mailed id now tenant (about_it input) o inbox.emails ≡ inbox.emails
  mail_same id now input inbox none h = refl
  mail_same id now input inbox (some t) h = rw h refl

  notify-Noted :
      (id now : ℕ) (input : NotifyInput) (inbox : Inbox)
      → input.source_event ≡ some event
      → input.email ≡ mail
      → Noted (notify id now tenant input inbox)
  unfolding notify
  notify-Noted id now input inbox same posted = (
    rw same (
        inserted (record (notification_of id now tenant input) { source_event = some event })
          inbox.notifications (clashes_own tenant event) _ refl),
    rw (same, posted) (mail_noted id now input inbox mail),
  )

  notify-same :
      (id now : ℕ) (input : NotifyInput) (inbox : Inbox)
      → input.source_event ≡ some event
      → input.email ≡ mail
      → Noted inbox
      → notify id now tenant input inbox ≡ inbox
  unfolding notify
  notify-same id now input inbox same posted (told, mailed_) =
      rw (same, posted, told, mail_same id now input inbox mail mailed_) refl

  notify_each-same :
      (id now : ℕ) (input : ℕ → NotifyInput) (users : List ℕ) (inbox : Inbox)
      → IsAbout input
      → Noted inbox
      → notify_each id now tenant input users inbox ≡ inbox
  unfolding notify_each
  notify_each-same id now input [] inbox about_ noted = refl
  notify_each-same id now input (user ∷ users) inbox about_ noted =
      let (same, posted) = about_ user in
      rw (notify-same id now (input user) inbox same posted noted)
        (notify_each-same id now input users inbox about_ noted)

  notify_each-Noted :
      (id now : ℕ) (input : ℕ → NotifyInput) (user : ℕ) (users : List ℕ) (inbox : Inbox)
      → IsAbout input
      → Noted (notify_each id now tenant input (user ∷ users) inbox)
  unfolding notify_each
  notify_each-Noted id now input user users inbox about_ =
      let (same, posted) = about_ user in
      let noted = notify-Noted id now (input user) inbox same posted in
      rw
        (notify_each-same id now input users (notify id now tenant (input user) inbox) about_ noted)
        noted

  some_told : (ns : List Notification) → any tells ns ≡ true → 1 ≤ length (select tells ns)
  some_told [] h = absurd (cc)
  some_told (n ∷ ns) h = elim (Bool-cases (tells n)) [
    | inl hit ↦ rw (select_keeps tells n ns hit) (omega arith)
    | inr miss ↦ rw (select_skips tells n ns miss) (some_told ns (ground (arith, h, miss)))
  ]

  told_once :
      (inbox : Inbox)
      → IsOncePerEvent inbox
      → IsTold tenant event inbox
      → length (about tenant event inbox) ≡ 1
  told_once inbox h told = omega (arith, h tenant event, some_told inbox.notifications told)

  -- The event has one notification, and no later sweep about it adds or changes a row.
  abbrev pub ToldOnce : Inbox → Type 0
  ToldOnce inbox =
      IsOncePerEvent inbox
      × (length (about tenant event inbox) ≡ 1)
      × ((id now : ℕ) (input : ℕ → NotifyInput) (users : List ℕ)
          → IsAbout input
          → notify_each id now tenant input users inbox ≡ inbox)

  -- If every event of a tenant is in at most one notification, then after a sweep that notifies one
  -- or more users of an event this still holds and the event is in exactly one, so that of several
  -- owners one is notified; and a sweep that runs again, at any time and for any users, leaves every
  -- notification and every mail as it is.
  pub notify_each-ToldOnce :
      (id now : ℕ) (input : ℕ → NotifyInput) (user : ℕ) (users : List ℕ) (inbox : Inbox)
      → IsOncePerEvent inbox
      → IsAbout input
      → ToldOnce (notify_each id now tenant input (user ∷ users) inbox)
  notify_each-ToldOnce id now input user users inbox h about_ =
      let noted = notify_each-Noted id now input user users inbox about_ in
      let once = notify_each-IsOncePerEvent id now tenant input (user ∷ users) inbox h in
      let after = notify_each id now tenant input (user ∷ users) inbox in
      (
        once,
        told_once after once noted.0,
        λ id' now' input' users' about'. notify_each-same id' now' input' users' after about' noted,
      )
