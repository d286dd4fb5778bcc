-- ===== src/Connectors/Sepay/Rows.antt =====
-- What a delivery does to the rows of webhook events.
use mathlib.Core.Path.{subst}
use solodesk.Prelude.{
  ℕ, Bool, true, false, ◌&&◌, Option, none, some, List, [], ◌∷◌, ◌==◌, ◌≡◌, refl, sym, ◌∙◌, arith,
  inl, inr, any, map, find, All, Bool-cases, ==_refl, find-hit, find_here, find_later,
  some_injective,
}
use solodesk.Prelude.Tables.{Update, unchanged, changed, update_first}
use solodesk.Prelude.Rows.{update_first-All_hit, map-update_first}
use solodesk.Prelude.Action.{Result, ok, err, invariant_violation, or_throw, pure, ◌>>=◌}
use solodesk.Sales.{Store}
use solodesk.Sales.Payments.Attempts.{IsPaid}
use solodesk.Connectors.{catalog_index, sepay, same_provider, SepayBody, WebhookEvent, Hub}
use solodesk.Connectors.Webhooks.{
  NormalizedEvent, Recorded, stored, marked, is_event, is_own_event, record_if_new,
  find_by_provider_event_id, mark_forwarded, record_event,
}
use solodesk.Connectors.Sepay.{reference}

abbrev pub is_forwarded : WebhookEvent → Bool
is_forwarded e = elim (e.forwarded_at) [ none ↦ false | some at ↦ true ]

-- No two numbers of a list are equal.
abbrev pub Distinct : List ℕ → Type 0
Distinct [] = Unit
Distinct (i ∷ is) = All (λ j. (j == i) ≡ false) is × Distinct is

abbrev pub ids : List WebhookEvent → List ℕ
ids es = map (λ (e : WebhookEvent). e.id) es

-- An event is the only row with its id.
abbrev pub Only : WebhookEvent → List WebhookEvent → Type 0
Only e es = All (λ (x : WebhookEvent). (x.id == e.id) ≡ true → x ≡ e) es

module _ (sent : ℕ → SepayBody) (s : Store) where
  -- A transfer that is marked as forwarded has its payment at the backend.
  abbrev pub Backed : WebhookEvent → Type 0
  Backed e =
      same_provider e.provider sepay ≡ true
      → is_forwarded e ≡ true
      → IsPaid e.tenant (reference (sent e.provider_event_id) e.provider_event_id) s

fresh-Only :
    (e : WebhookEvent) (es : List WebhookEvent)
    → any (λ (x : WebhookEvent). x.id == e.id) es ≡ false
    → Only e es
fresh-Only e [] h = tt
fresh-Only e (x ∷ es) h = (λ same. absurd (ground arith), fresh-Only e es (ground arith))

fresh-Distinct :
    (i : ℕ) (es : List WebhookEvent)
    → any (λ (x : WebhookEvent). x.id == i) es ≡ false
    → All (λ j. (j == i) ≡ false) (ids es)
fresh-Distinct i [] h = tt
fresh-Distinct i (x ∷ es) h = (ground arith, fresh-Distinct i es (ground arith))

apart-Only :
    (e : WebhookEvent) (es : List WebhookEvent)
    → All (λ j. (j == e.id) ≡ false) (ids es)
    → Only e es
apart-Only e [] h = tt
apart-Only e (x ∷ es) h = (λ same. absurd (let no_ = h.0 in cc), apart-Only e es h.1)

find-apart :
    (q : WebhookEvent → Bool) (i : ℕ) (es : List WebhookEvent) (e : WebhookEvent)
    → All (λ j. (j == i) ≡ false) (ids es)
    → find q es ≡ some e
    → (e.id == i) ≡ false
find-apart q i [] e h f = absurd (cc)
find-apart q i (x ∷ es) e h f = elim (Bool-cases (q x)) [
  | inl hit ↦
      subst (λ (e : WebhookEvent). (e.id == i) ≡ false)
        (some_injective (sym (find_here q x es hit) ∙ f)) h.0
  | inr miss ↦ find-apart q i es e h.1 (sym (find_later q x es miss) ∙ f)
]

-- What a search finds is the only row with its id.
pub find-Only :
    (q : WebhookEvent → Bool) (es : List WebhookEvent) (e : WebhookEvent)
    → Distinct (ids es)
    → find q es ≡ some e
    → Only e es
find-Only q [] e d f = tt
find-Only q (x ∷ es) e d f = elim (Bool-cases (q x)) [
  | inl hit ↦
      let same : x ≡ e = some_injective (sym (find_here q x es hit) ∙ f) in
      (λ _. same, subst (λ e. Only e es) same (apart-Only x es d.0))
  | inr miss ↦
      let later = sym (find_later q x es miss) ∙ f in
      (
        λ same.
            absurd (let apart = find-apart q x.id es e d.0 later in ground (arith, apart, same)),
        find-Only q es e d.1 later,
      )
]

module _ (sent : ℕ → SepayBody) (s : Store) where
  -- The rows of the hub, one id each, and every forwarded transfer backed.
  abbrev pub HasRows : Hub → Type 0
  HasRows h = Distinct (ids h.events) × All (Backed sent s) h.events

  -- The row that stands for an event.
  abbrev pub Stands : NormalizedEvent → WebhookEvent → Hub → Type 0
  Stands e row h =
      (is_own_event e.provider e.provider_event_id e.tenant row ≡ true) × Only row h.events

  abbrev pub Recording : NormalizedEvent → Result Recorded × Hub → Type 0
  Recording e (ok r, h) = HasRows h × Stands e r.event h
  Recording e (err x, h) = HasRows h

  module _ (id now : ℕ) (e : NormalizedEvent) (h : Hub) (rows : HasRows h) where
    own : is_own_event e.provider e.provider_event_id e.tenant (stored id now e) ≡ true
    own =
        ground
          (arith, ==_refl e.tenant, ==_refl (catalog_index e.provider), ==_refl e.provider_event_id)

    record_new :
        any (λ (r : WebhookEvent). r.id == id) h.events ≡ false
        → Recording e (
          ok (record { event = stored id now e; is_new = true }),
          record h { events = stored id now e ∷ h.events },
        )
    record_new free = (
      ((fresh-Distinct id h.events free, rows.0), (λ _ no_. absurd (cc), rows.1)),
      (own, (λ _. refl, fresh-Only (stored id now e) h.events free)),
    )

    record_old :
        (o : Option WebhookEvent)
        → find_by_provider_event_id e.provider e.provider_event_id e.tenant h ≡ o
        → Recording e (
            ((λ (h : Hub). or_throw o invariant_violation h) >>= λ row.
            pure (record { event = row; is_new = false }))
              h)
    unfolding find_by_provider_event_id
    record_old none f = rows
    record_old (some row) f =
        let q = is_own_event e.provider e.provider_event_id e.tenant in
        (rows, (find-hit q h.events row f, find-Only q h.events row rows.0 f))

    -- Recording an event keeps the rows, and gives the one that stands for it.
    pub record_event-Recording : Recording e (record_event id now e h)
    unfolding record_event record_if_new
    record_event-Recording = elim (Bool-cases (any (λ (r : WebhookEvent). r.id == id) h.events)) [
      | inl taken ↦ rw taken rows
      | inr free ↦ elim (Bool-cases (any (is_event e.provider e.provider_event_id) h.events)) [
        | inl old ↦
            rw (free, old)
              (record_old (find_by_provider_event_id e.provider e.provider_event_id e.tenant h)
                refl)
        | inr new ↦ rw (free, new) (record_new free)
      ]
    ]

  module _ (now tenant : ℕ) (row : WebhookEvent) (h : Hub) (rows : HasRows h)
      (only : Only row h.events)
      (paid : IsPaid row.tenant
        (reference (sent row.provider_event_id) row.provider_event_id)
        s) where
    abbrev mark : WebhookEvent → WebhookEvent
    mark r = record r { forwarded_at = some now }

    abbrev is_row : WebhookEvent → Bool
    is_row r = r.id == row.id && r.tenant == tenant

    hits :
        (es : List WebhookEvent)
        → Only row es
        → All (λ (x : WebhookEvent). is_row x ≡ true → Backed sent s (mark x)) es
    hits [] o = tt
    hits (x ∷ es) o = (
      λ hit _ _.
          subst
            (λ (e : WebhookEvent).
              IsPaid e.tenant (reference (sent e.provider_event_id) e.provider_event_id) s)
            (sym (o.0 (ground (arith, hit)))) paid,
      hits es o.1,
    )

    marked_rows :
        (u : Update WebhookEvent) → update_first is_row mark h.events ≡ u → HasRows (marked u h)
    marked_rows unchanged e = rows
    marked_rows (changed r es) e = (
      subst Distinct
          (sym (map-update_first (λ (e : WebhookEvent). e.id) is_row mark h.events (λ _. refl) e))
          rows.0,
      update_first-All_hit (Backed sent s) is_row mark h.events rows.1 (hits h.events only) e,
    )

    -- The row that stands for a transfer may be marked once its payment is at the backend.
    pub mark_forwarded-HasRows : HasRows (mark_forwarded now row.id tenant h).1
    unfolding mark_forwarded
    mark_forwarded-HasRows = marked_rows (update_first is_row mark h.events) refl
