-- ===== src/Sales.antt =====
-- The rows that orders, invoices, payments and returns keep (services/backend-api/src/db/schema),
-- and the store of one database. Money is numeric(14, 2), in hundredths; a quantity is in
-- thousandths; a tax rate is numeric(6, 4), in ten-thousandths. Ids, times and texts are numbers.
pub mod Idempotency
pub mod Orders
pub mod TaxRules
pub mod Invoicing
pub mod Payments
pub mod Returns
mod Tests
use solodesk.Prelude.{ℕ, Bool, Option, List}
use solodesk.Prelude.Int.{ℤ}
use solodesk.Inventory.{Stock}
use solodesk.Notifications.{Inbox}

pub data OrderStatus : Type 0 where
  confirmed order_cancelled returned : OrderStatus

pub record OrderRow : Type 0 where
  pub id : ℕ
  pub tenant : ℕ
  pub channel : ℕ
  pub status : OrderStatus
  pub customer_name : Option ℕ
  pub total_amount : ℤ

pub record OrderLine : Type 0 where
  pub tenant : ℕ
  pub order : ℕ
  pub sku : ℕ
  pub lot : ℕ
  pub quantity : ℤ
  pub unit_price : ℤ
  pub line_total : ℤ

pub record Order : Type 0 where
  pub row : OrderRow
  pub lines : List OrderLine

pub data InvoiceStatus : Type 0 where
  issued cancelled : InvoiceStatus

-- The year and the counter of the text `INV-2025-000001`.
pub record InvoiceNumber : Type 0 where
  pub year : ℕ
  pub counter : ℕ

pub record Invoice : Type 0 where
  pub id : ℕ
  pub tenant : ℕ
  pub order : ℕ
  pub number : InvoiceNumber
  pub tax_rule : ℕ
  pub subtotal : ℤ
  pub tax_rate : ℤ
  pub tax_amount : ℤ
  pub total_amount : ℤ
  pub requires_e_invoice : Bool
  pub status : InvoiceStatus
  pub issued_at : ℕ

pub data PaymentMethod : Type 0 where
  cash bank_transfer qr marketplace_settlement : PaymentMethod

pub data PaymentType : Type 0 where
  payment refund : PaymentType

pub record Payment : Type 0 where
  pub id : ℕ
  pub tenant : ℕ
  pub invoice : ℕ
  pub method : PaymentMethod
  pub amount : ℤ
  pub type : PaymentType
  pub reference_code : Option ℕ
  pub received_at : ℕ

pub record Return : Type 0 where
  pub id : ℕ
  pub tenant : ℕ
  pub order : ℕ
  pub invoice : ℕ
  pub reason : ℕ
  pub refund_amount : ℤ
  pub refund_method : Option PaymentMethod

-- What a completed idempotent operation answers with, as the jsonb column keeps it.
pub data Response : Type 0 where
  ordered : Order → Response
  invoiced : Invoice → Response
  reversed : Return → Response

pub record KeyRow : Type 0 where
  pub tenant : ℕ
  pub key : ℕ
  pub response : Option Response

pub record Sequence : Type 0 where
  pub tenant : ℕ
  pub next_number : ℕ

-- The columns of a tenant that an invoice reads.
pub record Tenant : Type 0 where
  pub id : ℕ
  pub legal_name : ℕ
  pub industry : ℕ

pub record TenantMember : Type 0 where
  pub tenant : ℕ
  pub user : ℕ
  pub is_owner : Bool

-- The dates are ISO texts, which order as the day numbers do.
pub record TaxRule : Type 0 where
  pub id : ℕ
  pub industry : Option ℕ
  pub rate : ℤ
  pub annual_revenue_threshold : ℤ
  pub effective_from : ℕ
  pub effective_to : Option ℕ

pub record Store : Type 0 where
  pub stock : Stock
  pub orders : List OrderRow
  pub order_lines : List OrderLine
  pub invoices : List Invoice
  pub sequences : List Sequence
  pub payments : List Payment
  pub returns : List Return
  pub keys : List KeyRow
  pub inbox : Inbox
  pub tenants : List Tenant
  pub members : List TenantMember
  pub tax_rules : List TaxRule
