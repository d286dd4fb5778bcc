-- ===== src/Sales/Tests.antt =====
-- A shop's orders, payments and keys, and the theorems at it.
use solodesk.Prelude.{false, none, some, [], ◌∷◌, ◌≡◌, refl, arith}
use solodesk.Prelude.Int.{pos}
use solodesk.Prelude.Action.{Action, ok, pure}
use solodesk.Prelude.Success.{Ends}
use solodesk.Inventory.{Lot}
use solodesk.Sales.{Order, Store, Invoice, issued, cash, Response, confirmed, ordered}
use solodesk.Sales.Idempotency.{once, with_idempotency}
use solodesk.Sales.Idempotency.Replay.{once-replays}
use solodesk.Tenancy.{with_tenant_transaction}
use solodesk.Sales.Orders.{CreateOrderInput, place}
use solodesk.Prelude.Success.{Succeeds}
use solodesk.Sales.Invoicing.{CreateInvoiceInput, create_invoice}
use solodesk.Sales.Invoicing.Issuing.{next_of, IsNumbered, Numbered, create_invoice-Numbered}
use solodesk.Sales.Returns.{CreateReturnInput, reverse}
use solodesk.Sales.Returns.Refund.{Settled, reverse-Settled}
use solodesk.Sales.Payments.{CreatePaymentInput, new_payment, record_payment}
use solodesk.Sales.Payments.Overpayment.{Paid, record_payment-Paid}

abbrev rice_lot : Lot
rice_lot = record {
  id = 10;
  tenant = 1;
  sku = 100;
  lot_code = 1;
  on_hand = pos 5000;
  reserved = pos 0;
  received_at = 2;
}

abbrev invoice : Invoice
invoice = record {
  id = 30;
  tenant = 1;
  order = 20;
  number = record { year = 2025; counter = 1 };
  tax_rule = 3;
  subtotal = pos 100000;
  tax_rate = pos 1000;
  tax_amount = pos 10000;
  total_amount = pos 110000;
  requires_e_invoice = false;
  status = issued;
  issued_at = 5;
}

abbrev shop : Store
shop = record {
  stock = record {
    skus = record { id = 100; tenant = 1; unit_price = pos 2500000 } ∷ [];
    lots = rice_lot ∷ [];
    movements = [];
  };
  orders = [];
  order_lines = [];
  invoices = invoice ∷ [];
  sequences = [];
  payments = [];
  returns = [];
  keys = [];
  inbox = record { notifications = []; emails = [] };
  tenants = [];
  members = [];
  tax_rules = [];
}

abbrev two_kilos : CreateOrderInput
two_kilos = record {
  channel = 0;
  customer_name = none;
  lines =
      record { sku = 100; lot = none; quantity = pos 2000; unit_price = none }
      ∷ record { sku = 100; lot = some 10; quantity = pos 1500; unit_price = some (pos 200) }
      ∷ [];
}

abbrev half : CreatePaymentInput
half = record {
  invoice = 30;
  method = cash;
  amount = pos 55000;
  type = none;
  reference_code = some 8;
}

record_payment-Paid_example : Ends (Paid 40 9 1 half shop) shop (record_payment 1 40 9 1 half shop)
record_payment-Paid_example = record_payment-Paid 1 40 9 1 half shop

-- An operation that answers with a fixed order, and its first call under key 99.
abbrev answer : Response
answer = ordered (record {
  row = record {
    id = 20;
    tenant = 1;
    channel = 0;
    status = confirmed;
    customer_name = none;
    total_amount = pos 0;
  };
  lines = [];
})

abbrev fixed : Action Store Response
fixed = pure answer

abbrev answered : Store
answered = record shop { keys = record { tenant = 1; key = 99; response = some answer } ∷ [] }

first_answer : once 1 99 fixed shop ≡ (ok answer, answered)
unfolding once with_idempotency with_tenant_transaction
first_answer = refl

once-replays_example : once 1 99 (place 20 1 two_kilos shop.stock) answered ≡ (ok answer, answered)
once-replays_example =
    once-replays 1 99 fixed (place 20 1 two_kilos shop.stock) shop answered answer refl first_answer

abbrev draft : CreateInvoiceInput
draft = record {
  order = 21;
  calculation = record {
    rule = record {
      id = 3;
      industry = none;
      rate = pos 1000;
      annual_revenue_threshold = pos 100000000000;
      effective_from = 0;
      effective_to = none;
    };
    tax_amount = pos 100;
    total_amount = pos 1100;
  };
  subtotal = pos 1000;
  requires_e_invoice = false;
}

-- The shop has issued one invoice.
abbrev numbered_shop : Store
numbered_shop = record shop { sequences = record { tenant = 1; next_number = 2 } ∷ [] }

numbered_shop-IsNumbered : IsNumbered numbered_shop
unfolding next_of
numbered_shop-IsNumbered = (omega arith, tt)

create_invoice-Numbered_example :
    Succeeds (Numbered 1 numbered_shop) (create_invoice 31 86400000 1 draft numbered_shop)
create_invoice-Numbered_example =
    create_invoice-Numbered 31 86400000 1 draft numbered_shop numbered_shop-IsNumbered

-- The shop's invoice has been half paid, and its order comes back.
abbrev half_paid : Store
half_paid = record shop { payments = new_payment 40 9 1 half ∷ [] }

abbrev sold : Order
sold = record {
  row = record {
    id = 20;
    tenant = 1;
    channel = 0;
    status = confirmed;
    customer_name = none;
    total_amount = pos 100000;
  };
  lines = [];
}

abbrev back : CreateReturnInput
back = record { order = 20; reason = 0; refund_method = some cash }

reverse-Settled_example :
    Succeeds (Settled 30 1 half_paid) (reverse 50 10 1 back sold invoice half_paid)
reverse-Settled_example = reverse-Settled 50 10 1 back sold invoice half_paid
