-- ===== src/Sales/Invoicing/Issuing.antt =====
-- The numbers that invoices are given.
use mathlib.Core.Path.{subst}
use solodesk.Prelude.{
  ℕ, suc, ◌+◌, ◌-◌, ◌<◌, ◌≤◌, true, false, Option, none, some, List, [], ◌∷◌, ◌==◌, ◌≡◌, refl, ◌∙◌,
  sym, arith, All, Bool-cases, inl, inr, if◌then◌else◌, any, ==_refl,
}
use solodesk.Prelude.Tables.{
  Update, unchanged, changed, update_first, update_first_here, update_first_later, behind,
}
use solodesk.Prelude.Success.{Succeeds}
use solodesk.Sales.{Store, Invoice, Sequence}
use solodesk.Sales.Invoicing.{
  next_invoice_number, bumped, create_invoice, CreateInvoiceInput, new_invoice, insert_invoice,
  invoice_clashes,
}

abbrev row_next : Option Sequence → ℕ
row_next none = 1
row_next (some q) = q.next_number

-- The number that the tenant's next invoice gets.
unfoldable pub next_of : ℕ → List Sequence → ℕ
next_of tenant [] = 1
next_of tenant (q ∷ qs) = if q.tenant == tenant then q.next_number else next_of tenant qs

-- The upsert as one step.
abbrev Bumped : ℕ → List Sequence → ℕ × List Sequence → Type 0
Bumped tenant rows (n, rows') =
    (n ≡ next_of tenant rows)
    × ((t : ℕ) → next_of t rows' ≡ (if t == tenant then suc (next_of t rows) else next_of t rows))

abbrev bump : Sequence → Sequence
bump q = record q { next_number = q.next_number + 1 }

-- What the update alone does.
abbrev Stepped : ℕ → List Sequence → Update Sequence → Type 0
Stepped tenant rows unchanged = (t : ℕ) → t ≡ tenant → next_of t rows ≡ 1
Stepped tenant rows (changed row rows') = Bumped tenant rows (row.next_number - 1, rows')

sequence_here :
    (tenant : ℕ) (q : Sequence) (qs : List Sequence)
    → (q.tenant == tenant) ≡ true
    → Bumped tenant (q ∷ qs) ((bump q).next_number - 1, bump q ∷ qs)
unfolding next_of
sequence_here tenant q qs hit = (ground (arith, hit), λ t. ground (arith, hit))

next_of-later :
    (t : ℕ) (q : Sequence) (qs : List Sequence)
    → (q.tenant == t) ≡ false
    → next_of t (q ∷ qs) ≡ next_of t qs
unfolding next_of
next_of-later t q qs miss = rw (miss, next_of)

Stepped-behind :
    (tenant : ℕ) (q : Sequence) (qs : List Sequence) (u : Update Sequence)
    → (q.tenant == tenant) ≡ false
    → Stepped tenant qs u
    → Stepped tenant (q ∷ qs) (behind q u)
unfolding next_of
Stepped-behind tenant q qs unchanged miss h = λ t e. ground (arith, miss, h t e, e)
Stepped-behind tenant q qs (changed row rows) miss (n, steps) =
    (n ∙ sym (next_of-later tenant q qs miss), λ t. ground (arith, miss, steps t))

update-Stepped :
    (tenant : ℕ) (rows : List Sequence)
    → Stepped tenant rows (update_first (λ (q : Sequence). q.tenant == tenant) bump rows)
unfolding next_of update_first
update-Stepped tenant [] = λ t e. refl
update-Stepped tenant (q ∷ qs) = elim (Bool-cases (q.tenant == tenant)) [
  | inl hit ↦
      rw (update_first_here (λ (q : Sequence). q.tenant == tenant) bump q qs hit)
        (sequence_here tenant q qs hit)
  | inr miss ↦
      rw (update_first_later (λ (q : Sequence). q.tenant == tenant) bump q qs miss)
        (Stepped-behind tenant q qs _ miss (update-Stepped tenant qs))
]

bumped-Bumped :
    (tenant : ℕ) (rows : List Sequence) (u : Update Sequence)
    → Stepped tenant rows u
    → Bumped tenant rows (bumped tenant u rows)
unfolding next_of
bumped-Bumped tenant rows unchanged h = (sym (h tenant refl), λ t. ground (arith, h t))
bumped-Bumped tenant rows (changed row rows') h = h

next_invoice_number-Bumped :
    (tenant : ℕ) (rows : List Sequence) → Bumped tenant rows (next_invoice_number tenant rows)
unfolding next_invoice_number
next_invoice_number-Bumped tenant rows = bumped-Bumped tenant rows _ (update-Stepped tenant rows)

-- Every invoice has a number below its tenant's next one.
abbrev pub IsNumbered : Store → Type 0
IsNumbered s = All (λ (i : Invoice). i.number.counter < next_of i.tenant s.sequences) s.invoices

All-map :
    (P Q : Invoice → Type 0)
    → ((i : Invoice) → P i → Q i)
    → (is : List Invoice) → All P is
    → All Q is
All-map P Q f [] h = tt
All-map P Q f (i ∷ is) h = (f i h.0, All-map P Q f is h.1)

-- An invoice as `create` writes it, with the tenant's next number, which no earlier invoice has.
pub record Numbered (tenant : ℕ) (s : Store) (i : Invoice) (s' : Store) : Type 0 where
  pub owned : i.tenant ≡ tenant
  pub next : i.number.counter ≡ next_of tenant s.sequences
  pub larger :
      All (λ (k : Invoice). k.tenant ≡ tenant → k.number.counter < i.number.counter) s.invoices
  pub added : s'.invoices ≡ i ∷ s.invoices
  pub numbered : IsNumbered s'

module _ (id issued_at tenant : ℕ) (input : CreateInvoiceInput) (s : Store)
    (numbered : IsNumbered s) where
  grows :
      (counter : ℕ) (rows : List Sequence)
      → Bumped tenant s.sequences (counter, rows)
      → (t : ℕ) → next_of t s.sequences ≤ next_of t rows
  grows counter rows (n, steps) t = ground (arith, steps t)

  stepped :
      (counter : ℕ) (rows : List Sequence)
      → Bumped tenant s.sequences (counter, rows)
      → counter < next_of tenant rows
  stepped counter rows (n, steps) = ground (arith, n, steps tenant, ==_refl tenant)

  new_invoice-Numbered :
      (counter : ℕ) (rows : List Sequence)
      → Bumped tenant s.sequences (counter, rows)
      → Numbered tenant s (new_invoice id issued_at tenant input counter) (record s {
        sequences = rows;
        invoices = new_invoice id issued_at tenant input counter ∷ s.invoices;
      })
  new_invoice-Numbered counter rows b = record {
    owned = refl;
    next = b.0;
    larger =
        All-map (λ i. i.number.counter < next_of i.tenant s.sequences)
          (λ k. k.tenant ≡ tenant → k.number.counter < counter)
          (λ k below own.
            omega (arith, subst (λ t. k.number.counter < next_of t s.sequences) own below, b.0))
          s.invoices numbered;
    added = refl;
    numbered = (
      stepped counter rows b,
      All-map (λ i. i.number.counter < next_of i.tenant s.sequences)
          (λ i. i.number.counter < next_of i.tenant rows)
          (λ i below. omega (arith, below, grows counter rows b i.tenant)) s.invoices numbered,
    );
  }

  insert-Numbered :
      (counter : ℕ) (rows : List Sequence)
      → Bumped tenant s.sequences (counter, rows)
      → Succeeds (Numbered tenant s) (
          insert_invoice
            (new_invoice id issued_at tenant input counter)
            (record s { sequences = rows }))
  insert-Numbered counter rows b =
      elim (Bool-cases
        (any (invoice_clashes (new_invoice id issued_at tenant input counter)) s.invoices)) [
          | inl clash ↦ rw clash tt
          | inr free ↦ rw free (new_invoice-Numbered counter rows b)
        ]

-- If every invoice has a number below its tenant's next one, then an invoice that `create` inserts
-- gets exactly that next number, larger than each earlier number of the tenant, and is the one row
-- added; afterwards every invoice is again below its tenant's next number.
pub create_invoice-Numbered :
    (id issued_at tenant : ℕ) (input : CreateInvoiceInput) (s : Store)
    → IsNumbered s
    → Succeeds (Numbered tenant s) (create_invoice id issued_at tenant input s)
unfolding create_invoice
create_invoice-Numbered id issued_at tenant input s numbered =
    insert-Numbered id issued_at tenant input s numbered (next_invoice_number tenant s.sequences).0
      (next_invoice_number tenant s.sequences).1 (next_invoice_number-Bumped tenant s.sequences)
