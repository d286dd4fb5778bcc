-- ===== src/Messaging/Replies/Interleaving.antt =====
-- Replies that interleave: at most one of them answers a message, and its text stays.
use solodesk.Prelude.{
  ℕ, zero, suc, ◌+◌, ◌≤◌, Bool, true, false, List, [], ◌∷◌, ◌≡◌, refl, arith, inl, inr, All, any,
  count, Bool-cases,
}
use solodesk.Prelude.Tables.{count-cons}
use solodesk.Messaging.{
  Message, InboundMessageInput, Mailbox, is_replied, received, collides, insert_message,
  record_inbound_if_new,
}
use solodesk.Messaging.Replies.{Call, Turn, asked, advance}
use solodesk.Messaging.Replies.Statements.{
  wins, has_key, answered, holds, Kept, Moves, advance-Moves, Kept_later, All_Kept,
}

pub record Desk : Type 0 where
  pub turns : List Turn
  pub mailbox : Mailbox

-- What happens at the desk: a call comes in, the call of a position goes on, a message comes in.
pub data Happening : Type 0 where
  calls : Call → Happening
  goes_on : ℕ → Happening
  arrives : ℕ → ℕ → ℕ → InboundMessageInput → Happening

abbrev pub advance_at : ℕ → List Turn → Mailbox → List Turn × Mailbox
advance_at i [] ms = ([], ms)
advance_at zero (t ∷ ts) ms = let (t', ms') = advance t ms in (t' ∷ ts, ms')
advance_at (suc i) (t ∷ ts) ms = let (ts', ms') = advance_at i ts ms in (t ∷ ts', ms')

abbrev pub happen : Happening → Desk → Desk
happen (calls c) w = record w { turns = asked c ∷ w.turns }
happen (goes_on i) w =
    let (ts, ms) = advance_at i w.turns w.mailbox in record { turns = ts; mailbox = ms }
happen (arrives id now tenant input) w = record w {
  mailbox = (record_inbound_if_new id now tenant input w.mailbox).1;
}

abbrev pub run : List Happening → Desk → Desk
run [] w = w
run (e ∷ es) w = run es (happen e w)

-- No message is answered twice, and no answer is lost.
pub record IsFair (w : Desk) : Type 0 where
  pub keys : (id : ℕ) → count (has_key id) w.mailbox ≤ 1
  pub once : (id tenant : ℕ) → count (wins id tenant) w.turns ≤ count (answered id tenant) w.mailbox
  pub kept : All (Kept w.mailbox) w.turns

record Shifts (ts ts' : List Turn) (ms ms' : Mailbox) : Type 0 where
  same_keys : (id : ℕ) → count (has_key id) ms' ≡ count (has_key id) ms
  paid_for :
      (id tenant : ℕ)
      → count (wins id tenant) ts' + count (answered id tenant) ms
        ≤ count (wins id tenant) ts + count (answered id tenant) ms'
  lasting : (c : Call) → count (holds c) ms ≤ count (holds c) ms'
  own : All (Kept ms) ts → All (Kept ms') ts'

Moves-Shifts :
    (t t' : Turn) (ts : List Turn) (ms ms' : Mailbox)
    → Moves t t' ms ms'
    → Shifts (t ∷ ts) (t' ∷ ts) ms ms'
Moves-Shifts t t' ts ms ms' h = record {
  same_keys = h.same_keys;
  paid_for = λ id tenant. omega (
    arith,
    h.paid_for id tenant,
    count-cons (wins id tenant) t ts,
    count-cons (wins id tenant) t' ts,
  );
  lasting = h.lasting;
  own = λ k. (h.own k.0, All_Kept ms ms' h.lasting ts k.1);
}

Shifts-cons :
    (t : Turn) (ts ts' : List Turn) (ms ms' : Mailbox)
    → Shifts ts ts' ms ms'
    → Shifts (t ∷ ts) (t ∷ ts') ms ms'
Shifts-cons t ts ts' ms ms' h = record {
  same_keys = h.same_keys;
  paid_for = λ id tenant. omega (
    arith,
    h.paid_for id tenant,
    count-cons (wins id tenant) t ts,
    count-cons (wins id tenant) t ts',
  );
  lasting = h.lasting;
  own = λ k. (Kept_later ms ms' h.lasting t k.0, h.own k.1);
}

stays : (ms : Mailbox) → Shifts [] [] ms ms
stays ms = record {
  same_keys = λ id. refl;
  paid_for = λ id tenant. omega arith;
  lasting = λ c. omega arith;
  own = λ k. k;
}

advance_at-Shifts :
    (i : ℕ) (ts : List Turn) (ms : Mailbox)
    → Shifts ts (advance_at i ts ms).0 ms (advance_at i ts ms).1
advance_at-Shifts zero [] ms = stays ms
advance_at-Shifts (suc i) [] ms = stays ms
advance_at-Shifts zero (t ∷ ts) ms =
    Moves-Shifts t (advance t ms).0 ts ms (advance t ms).1 (advance-Moves t ms)
advance_at-Shifts (suc i) (t ∷ ts) ms =
    Shifts-cons t ts (advance_at i ts ms).0 ms (advance_at i ts ms).1 (advance_at-Shifts i ts ms)

key_free : (m : Message) (ms : Mailbox) → any (collides m) ms ≡ false → count (has_key m.id) ms ≡ 0
key_free m [] h = refl
key_free m (k ∷ ms) h = ground (arith, h, key_free m ms)

inserted-IsFair :
    (m : Message) (w : Desk)
    → is_replied m ≡ false
    → (b : Bool) → any (collides m) w.mailbox ≡ b
    → IsFair w
    → IsFair (record w { mailbox = (insert_message b m w.mailbox).1 })
inserted-IsFair m w fresh true e h = record { keys = h.keys; once = h.once; kept = h.kept }
inserted-IsFair m w fresh false e h =
    let unheld : (c : Call) → count (holds c) w.mailbox ≤ count (holds c) (m ∷ w.mailbox) =
      λ c. omega (arith, count-cons (holds c) m w.mailbox) in
    record {
      keys = λ id. elim (Bool-cases (has_key id m)) [
        | inl same ↦ ground (arith, same, key_free m w.mailbox e)
        | inr other ↦ ground (arith, other, h.keys id)
      ];
      once =
          λ id tenant. omega (arith, h.once id tenant, count-cons (answered id tenant) m w.mailbox);
      kept = All_Kept w.mailbox (m ∷ w.mailbox) unheld w.turns h.kept;
    }

happen-IsFair : (e : Happening) (w : Desk) → IsFair w → IsFair (happen e w)
unfolding record_inbound_if_new
happen-IsFair (calls c) w h = record {
  keys = h.keys;
  once =
      λ id tenant. omega (arith, h.once id tenant, count-cons (wins id tenant) (asked c) w.turns);
  kept = (tt, h.kept);
}
happen-IsFair (goes_on i) w h =
    let s = advance_at-Shifts i w.turns w.mailbox in
    record {
      keys = λ id. omega (arith, h.keys id, s.same_keys id);
      once = λ id tenant. omega (arith, h.once id tenant, s.paid_for id tenant);
      kept = s.own h.kept;
    }
happen-IsFair (arrives id now tenant input) w h =
    inserted-IsFair (received id now tenant input) w refl
      (any (collides (received id now tenant input)) w.mailbox) refl h

run-IsFair : (es : List Happening) (w : Desk) → IsFair w → IsFair (run es w)
run-IsFair [] w h = h
run-IsFair (e ∷ es) w h = run-IsFair es (happen e w) (happen-IsFair e w h)

answered_keys :
    (id tenant : ℕ) (ms : Mailbox) → count (answered id tenant) ms ≤ count (has_key id) ms
answered_keys id tenant [] = omega arith
answered_keys id tenant (m ∷ ms) = ground (arith, answered_keys id tenant ms)

-- At most one call has answered a message, and the text of every call that did is there.
abbrev pub AnsweredOnce : Desk → Type 0
AnsweredOnce w =
    ((id tenant : ℕ) → count (wins id tenant) w.turns ≤ 1) × All (Kept w.mailbox) w.turns

-- From a mailbox whose ids differ, with no call under way, in whatever order calls and messages come
-- in and the queries and updates of the calls follow each other: at most one call succeeds in
-- answering a message, and the text of each that succeeded stays the message's reply.
pub run-AnsweredOnce :
    (ms : Mailbox)
    → ((id : ℕ) → count (has_key id) ms ≤ 1)
    → (es : List Happening) → AnsweredOnce (run es (record { turns = []; mailbox = ms }))
run-AnsweredOnce ms keys es =
    let w = run es (record { turns = []; mailbox = ms }) in
    let h : IsFair w =
      run-IsFair es (record { turns = []; mailbox = ms })
        (record { keys = keys; once = λ id tenant. omega arith; kept = tt }) in
    (
      λ id tenant. omega (arith, h.once id tenant, h.keys id, answered_keys id tenant w.mailbox),
      h.kept,
    )
