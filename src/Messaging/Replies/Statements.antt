-- ===== src/Messaging/Replies/Statements.antt =====
-- What each statement of a reply does to the mailbox, and to who has answered what.
use solodesk.Prelude.{
  ℕ, ◌+◌, ◌≤◌, Bool, true, false, ◌&&◌, Option, none, some, List, [], ◌∷◌, ◌==◌, ◌≡◌, refl, ap, ◌∙◌,
  arith, All, count, ==_refl,
}
use solodesk.Prelude.Tables.{
  Update, unchanged, changed, update_first, ones, Recounted, update_first-Recounted,
}
use solodesk.Prelude.Action.{ok, err}
use solodesk.Messaging.{
  Message, Mailbox, is_message, is_replied, is_open, answer, find_message, set_reply, replied_by,
}
use solodesk.Messaging.Replies.{Call, Turn, asked, checked, ended, guarded, looked, wrote, advance}

abbrev pub names : ℕ → ℕ → Call → Bool
names id tenant c = c.id == id && c.tenant == tenant

-- The call succeeded in answering the message.
abbrev pub wins : ℕ → ℕ → Turn → Bool
wins id tenant (ended c (ok m)) = names id tenant c
wins id tenant _ = false

abbrev pub has_key : ℕ → Message → Bool
has_key id m = m.id == id

abbrev pub answered : ℕ → ℕ → Message → Bool
answered id tenant m = is_message id tenant m && is_replied m

abbrev says : ℕ → Option ℕ → Bool
says content none = false
says content (some reply) = reply == content

-- The message that the call names carries its text as the reply.
abbrev pub holds : Call → Message → Bool
holds c m = answered c.id c.tenant m && says c.content m.reply

-- The text of a call that succeeded is in the mailbox.
abbrev pub Kept : Mailbox → Turn → Type 0
Kept ms (ended c (ok m)) = 1 ≤ count (holds c) ms
Kept ms _ = Unit {0}

-- What a statement may do to the mailbox while the turn t becomes t'.
pub record Moves (t t' : Turn) (ms ms' : Mailbox) : Type 0 where
  pub same_keys : (id : ℕ) → count (has_key id) ms' ≡ count (has_key id) ms
  pub paid_for :
      (id tenant : ℕ)
      → ones (wins id tenant) t' + count (answered id tenant) ms
        ≤ ones (wins id tenant) t + count (answered id tenant) ms'
  pub lasting : (c : Call) → count (holds c) ms ≤ count (holds c) ms'
  pub own : Kept ms t → Kept ms' t'

-- A turn that does not win, and leaves the mailbox.
waits :
    (t t' : Turn) (ms : Mailbox)
    → ((id tenant : ℕ) → wins id tenant t' ≡ false)
    → Kept ms t'
    → Moves t t' ms ms
waits t t' ms loses mine = record {
  same_keys = λ id. refl;
  paid_for = λ id tenant. ground (arith, loses id tenant);
  lasting = λ c. omega arith;
  own = λ _. mine;
}

guarded-Moves : (c : Call) (ms : Mailbox) (b : Bool) → Moves (asked c) (guarded c b) ms ms
guarded-Moves c ms true = waits (asked c) (guarded c true) ms (λ _ _. refl) tt
guarded-Moves c ms false = waits (asked c) (guarded c false) ms (λ _ _. refl) tt

looked-Moves : (c : Call) (ms : Mailbox) (o : Option Message) → Moves (asked c) (looked c o) ms ms
looked-Moves c ms none = waits (asked c) (looked c none) ms (λ _ _. refl) tt
looked-Moves c ms (some m) = guarded-Moves c ms (is_replied m)

module _ (c : Call) (ms rows : Mailbox) (row : Message)
    (e : update_first (is_open c.id c.tenant) (answer c.content c.now) ms ≡ changed row rows) where
  recounted :
      (q : Message → Bool)
      → Recounted q (is_open c.id c.tenant) (answer c.content c.now) ms row rows
  recounted q = update_first-Recounted q (is_open c.id c.tenant) (answer c.content c.now) ms e

  written-keys : (id : ℕ) → count (has_key id) rows ≡ count (has_key id) ms
  written-keys id =
      let r = recounted (has_key id) in
      let same : ones (has_key id) row ≡ ones (has_key id) r.old = ap (ones (has_key id)) r.new in
      omega (arith, r.counts, same)

  written-paid :
      (id tenant : ℕ)
      → ones (wins id tenant) (ended c (ok row)) + count (answered id tenant) ms
        ≤ ones (wins id tenant) (checked c) + count (answered id tenant) rows
  written-paid id tenant =
      let r = recounted (answered id tenant) in
      let before : ones (answered id tenant) r.old ≡ 0 = ground (arith, r.hit) in
      let matching : ones (answered id tenant) (answer c.content c.now r.old)
          ≡ ones (wins id tenant) (ended c (ok row)) =
        ground (arith, r.hit) in
      let after = ap (ones (answered id tenant)) r.new ∙ matching in
      omega (arith, r.counts, before, after)

  written-lasting : (k : Call) → count (holds k) ms ≤ count (holds k) rows
  written-lasting k =
      let r = recounted (holds k) in
      let before : ones (holds k) r.old ≡ 0 = ground (arith, r.hit) in
      omega (arith, r.counts, before)

  written-own : 1 ≤ count (holds c) rows
  written-own =
      let r = recounted (holds c) in
      let before : ones (holds c) r.old ≡ 0 = ground (arith, r.hit) in
      let mine : ones (holds c) (answer c.content c.now r.old) ≡ 1 =
        ground (arith, r.hit, ==_refl c.content) in
      let after = ap (ones (holds c)) r.new ∙ mine in omega (arith, r.counts, before, after)

  written-Moves : Moves (checked c) (ended c (ok row)) ms rows
  written-Moves = record {
    same_keys = written-keys;
    paid_for = written-paid;
    lasting = written-lasting;
    own = λ _. written-own;
  }

replied_by-Moves :
    (c : Call) (ms : Mailbox) (u : Update Message)
    → update_first (is_open c.id c.tenant) (answer c.content c.now) ms ≡ u
    → Moves (checked c) (wrote c (replied_by u ms).0) ms (replied_by u ms).1
replied_by-Moves c ms unchanged e = waits (checked c) (wrote c (ok none)) ms (λ _ _. refl) tt
replied_by-Moves c ms (changed row rows) e = written-Moves c ms rows row e

pub advance-Moves : (t : Turn) (ms : Mailbox) → Moves t (advance t ms).0 ms (advance t ms).1
unfolding set_reply
advance-Moves (asked c) ms = looked-Moves c ms (find_message c.id c.tenant ms)
advance-Moves (checked c) ms =
    replied_by-Moves c ms (update_first (is_open c.id c.tenant) (answer c.content c.now) ms) refl
advance-Moves (ended c r) ms = record {
  same_keys = λ id. refl;
  paid_for = λ id tenant. omega arith;
  lasting = λ c. omega arith;
  own = λ mine. mine;
}

pub Kept_later :
    (ms ms' : Mailbox)
    → ((c : Call) → count (holds c) ms ≤ count (holds c) ms')
    → (t : Turn) → Kept ms t
    → Kept ms' t
Kept_later ms ms' lasting (asked c) h = tt
Kept_later ms ms' lasting (checked c) h = tt
Kept_later ms ms' lasting (ended c (ok m)) h = omega (arith, lasting c, h)
Kept_later ms ms' lasting (ended c (err e)) h = tt

pub All_Kept :
    (ms ms' : Mailbox)
    → ((c : Call) → count (holds c) ms ≤ count (holds c) ms')
    → (ts : List Turn) → All (Kept ms) ts
    → All (Kept ms') ts
All_Kept ms ms' lasting [] h = tt
All_Kept ms ms' lasting (t ∷ ts) h =
    (Kept_later ms ms' lasting t h.0, All_Kept ms ms' lasting ts h.1)
