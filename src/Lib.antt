-- ===== src/Lib.antt =====
-- The core of the solodesk backend: money, calendar, stock, orders, invoices, payments, returns,
-- bookings, notifications, messages, logins, tax deadlines and compliance documents
-- (services/backend-api/src), and the webhooks and the vault of the connector hub
-- (services/connector-hub/src).
--
-- Files and code:
--   Prelude        shared names, lists, integers, tables, and actions that may throw
--     Tables       the statements that repositories send; Action and Success, the async methods
--   Money          platform/money.ts: exact decimal amounts as texts of code points
--   VnTime         platform/vn-time.ts: UTC+7 dates and windows, and the parts of Date it uses
--   Tenancy        platform/tenant-context.ts: the session's tenant, and transactions
--   Inventory      modules/catalog-inventory: lot.drizzle-repository.ts; Service is
--                  inventory.service.ts
--     Oldest       what listAvailableBySku puts first
--     Rounding     consumeDirect for a quantity of more decimals than its column has
--   Notifications  modules/notifications: notification.service.ts, email-outbox-relay.service.ts
--   Sales          the rows of orders, invoices, payments and returns, and one store of them all
--     Idempotency  platform/idempotency.ts
--     Orders       modules/sales-order: order.service.ts, order.drizzle-repository.ts
--     TaxRules     modules/invoicing-tax: tax-calculation.service.ts and the tax-rule repository
--     Invoicing    modules/invoicing-tax: invoice.service.ts, invoice.drizzle-repository.ts
--     Payments     modules/payment-reconcile: payment.service.ts, payment.drizzle-repository.ts
--     Returns      modules/returns: return.service.ts, return.drizzle-repository.ts
--   Booking        modules/booking-resource: booking.service.ts, booking.drizzle-repository.ts
--   TaxFiling      modules/tax-filing: filing-period.ts; Sweep is filing-deadline-sweep.service.ts
--   Compliance     modules/compliance: the status of a document, doc-expiry-sweep.service.ts
--   Connectors     the rows of services/connector-hub
--     InvoiceNumbers  modules/connectors/sepay/extract-invoice-number.ts
--     Vault        modules/vault, and connector-verification.service.ts
--     Webhooks     modules/webhooks: webhook-intake.service.ts and its repository
--     Resilience   platform/resilience/connector-http.ts, and the link to the backend
--     Sepay        sepay-webhook.controller.ts, backend-api-payment.client.ts and the backend's
--                  internal-payment.controller.ts
--     Zalo         zalo-webhook.controller.ts, backend-api-message.client.ts and the backend's
--                  internal-message.controller.ts
--   Messaging      modules/messaging: message.service.ts and message.drizzle-repository.ts
--     Replies      `reply` as its two statements, and their interleavings
--   Auth           modules/auth: user.drizzle-repository.ts, auth-session.drizzle-repository.ts,
--                  auth-audit.service.ts, and what it calls of modules/identity-tenant
--     Login        login.service.ts, session-minter.ts
--     Signup       signup.service.ts
--     Minted       what a minted session leaves
--     Access       which passwords open an account
--
-- How they interact: an order takes its quantities from the lots of Inventory, an invoice snapshots
-- an order, a payment counts against an invoice, a return undoes the three. Orders,
-- invoices and returns each run in one transaction of Tenancy under a key of Idempotency; a payment
-- reads and then inserts in transactions of its own. A crossed threshold or a deadline writes rows
-- of Notifications. The hub's SePay webhook forwards a transfer to Payments by the invoice number in
-- its note, the Zalo webhook a customer's text to Messaging. A signup writes the mail with its link
-- through Notifications, and a login mints a session that names the tenant.
--
-- Numbers: an amount of money is a bigint or numeric(14, 2) in hundredths, a quantity is
-- numeric(14, 3) in thousandths, a rate is numeric(6, 4); they are integers here, and Money shows
-- what the code's decimal texts compute of them. The 14 digits' overflow is left out. A theorem on
-- quantities or prices is about inputs that their columns hold, of at most three and two decimals;
-- the DTOs admit more, which Postgres rounds, and Inventory.Rounding models such a sale.
-- Ids, users and free texts are natural numbers. An instant is its milliseconds from 1970 on; the
-- calendar is that of the code before the year 10000, from which on the source's slices of
-- toISOString shift.
--
-- Ids and the clock are arguments: `gen_random_uuid()` is taken to give an id not seen before
-- where a theorem says so, and one reading stands for readings that follow each other in one call.
-- A stored response of Idempotency is taken to come back from jsonb as it went in. A webhook's path
-- parameter is a uuid or none, and what a ciphertext decrypts to may be nothing, which throws.
-- A query without `tx` inside a transaction sees the store as it was before it.
--
-- Fuel: `find_year` looks through as many years as there are days, `find_month` through twelve
-- months, `big_int` and `to_string` are bounded by the text or the number; the calendar and
-- round-trip proofs show that this is enough.
--
-- Not modelled: calls that interleave, but for those of `reply` (all others run alone, from their
-- first query to their last), row-level policies, the user interfaces, third-party packages, and the
-- modules for procurement, expenses, traceability, customers and the agent. Of auth, the access
-- token, its refresh and the rate limiter are left out; password hashing and Google's verifier are
-- parameters. HTTP is modelled between the hub and the backend only, as a list of fates of the
-- requests to come; the retries and the breaker around them are any that Resilience.Runs allows.
pub mod Prelude
pub mod Money
pub mod Tenancy
pub mod Inventory
pub mod Notifications
pub mod Sales
pub mod VnTime
pub mod TaxFiling
pub mod Compliance
pub mod Connectors
pub mod Auth
pub mod Booking
pub mod Messaging
