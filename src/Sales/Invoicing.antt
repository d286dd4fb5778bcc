-- ===== src/Sales/Invoicing.antt =====
-- services/backend-api/src/modules/invoicing-tax: invoice.service.ts and
-- invoice.drizzle-repository.ts.
pub mod Issuing
use solodesk.Prelude.{
  ℕ, ◌+◌, ◌-◌, ◌/◌, Bool, true, false, not, ◌&&◌, ◌||◌, Option, none, some, List, [], ◌∷◌, ◌==◌,
  leb, find, any, select, map, if◌then◌else◌,
}
use solodesk.Prelude.Int.{ℤ, pos, ◌+ℤ◌, ◌*ℤ◌, ltb_ℤ, leb_ℤ}
use solodesk.Prelude.Tables.{total, Update, unchanged, changed, update_first}
use solodesk.Prelude.Action.{
  Action, not_found, conflict, invoice_not_found, tenant_not_found, tax_rule_not_found,
  invoice_already_issued, order_not_confirmed, refused, throw_if, or_throw, gets, pure, modify, ok,
  ◌>>=◌, ◌>>◌,
}
use solodesk.Money.{rescale}
use solodesk.Tenancy.{assert_tenant_matches_session}
use solodesk.VnTime.{current_quarter_of, year_window_utc, day_ms, iso_date}
use solodesk.Notifications.{
  NotifyInput, einvoice_threshold, einvoice_threshold_crossed, notify_each,
}
use solodesk.Sales.{
  Store, OrderStatus, confirmed, order_cancelled, returned, Order, Invoice, InvoiceStatus, issued,
  cancelled, InvoiceNumber, Sequence, Tenant, TenantMember, TaxRule, Response, invoiced,
}
use solodesk.Sales.TaxRules.{TaxCalculation, calculate}
use solodesk.Sales.Idempotency.{once}
use solodesk.Sales.Orders.{get_order}

unfoldable pub find_invoice : ℕ → ℕ → Store → Option Invoice
find_invoice id tenant s = find (λ (i : Invoice). i.id == id && i.tenant == tenant) s.invoices

pub find_by_order_id : ℕ → ℕ → Store → Option Invoice
find_by_order_id order tenant s =
    find (λ (i : Invoice). i.order == order && i.tenant == tenant) s.invoices

abbrev pub same_number : InvoiceNumber → InvoiceNumber → Bool
same_number a b = a.year == b.year && a.counter == b.counter

unfoldable pub find_by_invoice_number : InvoiceNumber → ℕ → Store → Option Invoice
find_by_invoice_number number tenant s =
    find (λ (i : Invoice). same_number i.number number && i.tenant == tenant) s.invoices

abbrev pub is_cancelled : InvoiceStatus → Bool
is_cancelled cancelled = true
is_cancelled issued = false

pub sum_issued_subtotal_since : ℕ → ℤ → Store → ℤ
sum_issued_subtotal_since tenant since s =
    total (λ (i : Invoice). i.subtotal)
      (select
        (λ (i : Invoice).
          i.tenant == tenant && not (is_cancelled i.status) && leb_ℤ since (pos i.issued_at))
        s.invoices)

abbrev bumped : ℕ → Update Sequence → List Sequence → ℕ × List Sequence
bumped tenant unchanged rows = (1, record { tenant = tenant; next_number = 2 } ∷ rows)
bumped tenant (changed row rows) _ = (row.next_number - 1, rows)

-- The upsert, and the number it assigns. The UTC year is the one of `issuedAt`.
pub next_invoice_number : ℕ → List Sequence → ℕ × List Sequence
next_invoice_number tenant rows =
    bumped tenant
      (update_first (λ (q : Sequence). q.tenant == tenant)
        (λ q. record q { next_number = q.next_number + 1 }) rows)
      rows

abbrev pub utc_year : ℕ → ℕ
utc_year instant = let date = iso_date (instant / day_ms) in date.year

pub record CreateInvoiceInput : Type 0 where
  pub order : ℕ
  pub calculation : TaxCalculation
  pub subtotal : ℤ
  pub requires_e_invoice : Bool

abbrev pub new_invoice : ℕ → ℕ → ℕ → CreateInvoiceInput → ℕ → Invoice
new_invoice id issued_at tenant input counter = record {
  id = id;
  tenant = tenant;
  order = input.order;
  number = record { year = utc_year issued_at; counter = counter };
  tax_rule = input.calculation.rule.id;
  subtotal = input.subtotal;
  tax_rate = input.calculation.rule.rate;
  tax_amount = input.calculation.tax_amount;
  total_amount = input.calculation.total_amount;
  requires_e_invoice = input.requires_e_invoice;
  status = issued;
  issued_at = issued_at;
}

-- The unique indexes on (tenant_id, order_id) and (tenant_id, invoice_number).
abbrev invoice_clashes : Invoice → Invoice → Bool
invoice_clashes i k = k.tenant == i.tenant && (k.order == i.order || same_number k.number i.number)

abbrev insert_invoice : Invoice → Action Store Invoice
insert_invoice i s =
    (throw_if (any (invoice_clashes i) s.invoices) refused
        >> (λ s. (pure i) (record s { invoices = i ∷ s.invoices })))
      s

pub create_invoice : ℕ → ℕ → ℕ → CreateInvoiceInput → Action Store Invoice
create_invoice id issued_at tenant input s =
    let (counter, rows) = next_invoice_number tenant s.sequences in
    insert_invoice (new_invoice id issued_at tenant input counter) (record s { sequences = rows })

abbrev pub is_confirmed : OrderStatus → Bool
is_confirmed confirmed = true
is_confirmed _ = false

abbrev is_invoiced : Option Invoice → Bool
is_invoiced none = false
is_invoiced (some i) = true

pub list_owners : ℕ → Store → List ℕ
list_owners tenant s =
    map (λ (m : TenantMember). m.user)
      (select (λ (m : TenantMember). m.tenant == tenant && m.is_owner) s.members)

abbrev threshold_notice : Tenant → ℕ → ℕ → NotifyInput
threshold_notice tenant as_of user = record {
  user = user;
  type = einvoice_threshold_crossed;
  body = tenant.legal_name;
  source_event = some (einvoice_threshold tenant.id (utc_year as_of));
  email = some (record { template = einvoice_threshold_crossed; vars = tenant.legal_name });
}

-- `id` also names the rows that the notification inserts.
abbrev notify_owners : ℕ → ℕ → Tenant → Action Store (Unit {0})
notify_owners id as_of tenant = gets (list_owners tenant.id) >>= λ owners. modify (λ s. record s {
  inbox = notify_each id as_of tenant.id (threshold_notice tenant as_of) owners s.inbox;
})

abbrev when : Bool → Action Store (Unit {0}) → Action Store (Unit {0})
when true m = m
when false m = pure tt

-- The year window's start, of the Vietnamese calendar year of `asOf`.
abbrev pub year_start : ℕ → ℤ
year_start as_of = let q = current_quarter_of as_of in let w = year_window_utc q.year in w.start

abbrev invoice_order : ℕ → ℕ → Order → Tenant → TaxCalculation → ℤ → Action Store Response
invoice_order id as_of order tenant calculation before =
    let threshold = calculation.rule.annual_revenue_threshold in
    let requires = leb_ℤ threshold (before +ℤ order.row.total_amount) in
    create_invoice id as_of tenant.id (record {
      order = order.row.id;
      calculation = calculation;
      subtotal = order.row.total_amount;
      requires_e_invoice = requires;
    })
    >>= λ invoice.
        when (requires && ltb_ℤ before threshold) (notify_owners id as_of tenant)
        >> pure (invoiced invoice)

abbrev get_tenant : ℕ → Action Store Tenant
get_tenant id = gets (λ s. find (λ (t : Tenant). t.id == id) s.tenants) >>= λ found.
    or_throw found (not_found tenant_not_found)

abbrev pub issue : ℕ → ℕ → ℕ → ℕ → ℕ → Action Store Response
issue session id as_of tenant order_id = gets (find_by_order_id order_id tenant) >>= λ existing.
    throw_if (is_invoiced existing) (conflict invoice_already_issued)
    >> get_order session order_id tenant
    >>= λ order.
        throw_if (not (is_confirmed order.row.status)) (conflict order_not_confirmed)
        >> get_tenant tenant
        >>= λ owner. calculate owner.industry order.row.total_amount as_of >>= λ calculation.
            gets (sum_issued_subtotal_since tenant (year_start as_of))
            >>= invoice_order id as_of order owner calculation

-- One clock reading stands for the two that the code takes, `asOf` and `issuedAt`.
pub issue_invoice : ℕ → ℕ → ℕ → ℕ → ℕ → ℕ → Action Store Response
issue_invoice session id as_of tenant order_id key =
    assert_tenant_matches_session session tenant
    >> once tenant key (issue session id as_of tenant order_id)

unfoldable pub get_invoice : ℕ → ℕ → ℕ → Action Store Invoice
get_invoice session id tenant =
    assert_tenant_matches_session session tenant
    >> (gets (find_invoice id tenant) >>= λ found. or_throw found (not_found invoice_not_found))

unfoldable pub get_invoice_by_number : ℕ → ℕ → InvoiceNumber → Action Store Invoice
get_invoice_by_number session tenant number =
    assert_tenant_matches_session session tenant
    >> (gets (find_by_invoice_number number tenant) >>= λ found.
        or_throw found (not_found invoice_not_found))

abbrev pub cancelled_in : Update Invoice → Action Store Bool
cancelled_in unchanged s = (ok false, s)
cancelled_in (changed row rows) s = (ok true, record s { invoices = rows })

unfoldable pub cancel_for_return : ℕ → ℕ → Action Store Bool
cancel_for_return id tenant s =
    cancelled_in
      (update_first
        (λ (i : Invoice). i.id == id && i.tenant == tenant && not (is_cancelled i.status))
        (λ i. record i { status = cancelled }) s.invoices)
      s
