-- ===== src/Connectors/Tests.antt =====
-- A tenant's webhook with a cipher and a retry policy, and the theorems there.
use mathlib.Core.Option
use mathlib.Core.Path.{subst}
use solodesk.Prelude.{
  ℕ, zero, suc, ◌/◌, true, false, ◌&&◌, Option, none, some, List, [], ◌∷◌, ◌++◌, ◌==◌, ◌≡◌, inr,
  refl, ap, ◌∙◌, arith, some_injective,
}
use solodesk.Prelude.Int.{pos, ◌+ℤ◌}
use solodesk.Prelude.Action.{Action, Result, ok, err, Failure, conflict, retryable}
use solodesk.Money.{Text}
use solodesk.Sales.{Store, Invoice, InvoiceNumber, issued, bank_transfer, payment}
use solodesk.Connectors.{
  uuid, Provider, sepay, ghn, same_provider, SepayBody, sepay_body, payment_received, wall_clock,
  Hub,
}
use solodesk.Connectors.InvoiceNumbers.{
  extract_invoice_number, match_here, print_invoice_number, number_of,
}
use solodesk.Connectors.InvoiceNumbers.Reading.{
  extract-print_invoice_number, extract-print_invoice_number_long,
}
use solodesk.Connectors.Vault.{
  CredentialPayload, Cipher, set_credentials, get_decrypted_payload, resolve_webhook_token, resolve,
  find_encrypted_by_provider,
}
use solodesk.Connectors.Vault.Secrets.{set_credentials-get_decrypted_payload}
use solodesk.Tenancy.{assert_tenant_matches_session}
use solodesk.Sales.Invoicing.{
  get_invoice, get_invoice_by_number, find_invoice, find_by_invoice_number,
}
use solodesk.Sales.Payments.{
  record_payment, record_payment_by_invoice_number, find_by_reference_code, sum_by_invoice,
  create_payment,
}
use solodesk.Connectors.Resilience.{
  connector_fetch, classify, answer_lost, request_lost, Runs, Calls, last, again, once, retried,
}
use solodesk.Connectors.Sepay.{
  Fresh, World, Answer, webhook_secret, expected_header, take_transfer, handle,
  record_by_invoice_number, forward_payment,
}
use solodesk.Connectors.Webhooks.{
  occurred, record_event, record_if_new, find_by_provider_event_id, mark_forwarded,
}
use solodesk.Connectors.Sepay.Guards.{
  Admission, handle-Admission, handle-undefined, undefined_header, Resolves, Vaulted,
}
use solodesk.Connectors.Sepay.Settlement.{IsSettled, delivers, here, next, Reach-IsSettled}
use solodesk.Connectors.Sepay.Completion.{Completes, Free, Accepts, forward_input, handle-Completes}
use Prim.Native.String.{String}
use Prim.Native.Char.{code}

abbrev codes : String → Text
codes String.[] = []
codes (String.◌∷◌ c s) = code c ∷ codes s

abbrev first : InvoiceNumber
first = record { year = 2025; counter = 1 }

extract-print_invoice_number_example :
    (extract_invoice_number (codes "CT DEN " ++ (print_invoice_number first ++ codes " HD01"))
      ≡ some (print_invoice_number first))
    × (number_of (print_invoice_number first) ≡ first)
extract-print_invoice_number_example =
    extract-print_invoice_number first (codes "CT DEN ") (codes " HD01") (omega arith) (omega arith)
      (omega arith) (omega arith)

-- Seven digits.
abbrev late : InvoiceNumber
late = record { year = 2025; counter = 1234567 }

extract-print_invoice_number_long_example :
    Option.map number_of (extract_invoice_number (codes "CK " ++ (print_invoice_number late ++ [])))
    ≡ some (record late { counter = 1234567 / 10 })
extract-print_invoice_number_long_example =
    extract-print_invoice_number_long late (codes "CK ") [] (omega arith) (omega arith)
      (omega arith) (omega arith) (omega arith)

-- Payloads as bytes: each text is closed by a zero.
abbrev put : Text → Text → Text
put [] rest = 0 ∷ rest
put (c ∷ s) rest = suc c ∷ put s rest

abbrev written : CredentialPayload → Text
written [] = []
written ((k, v) ∷ fields) = put k (put v (written fields))

abbrev onto : ℕ → List Text → List Text
onto c [] = (c ∷ []) ∷ []
onto c (t ∷ ts) = (c ∷ t) ∷ ts

abbrev texts : Text → List Text
texts [] = []
texts (zero ∷ r) = [] ∷ texts r
texts (suc c ∷ r) = onto c (texts r)

abbrev pairs : List Text → CredentialPayload
pairs [] = []
pairs (k ∷ []) = []
pairs (k ∷ v ∷ ts) = (k, v) ∷ pairs ts

texts-put : (s rest : Text) → texts (put s rest) ≡ s ∷ texts rest
texts-put [] rest = refl
texts-put (c ∷ s) rest = ap (onto c) (texts-put s rest)

pairs-written : (p : CredentialPayload) → pairs (texts (written p)) ≡ p
pairs-written [] = refl
pairs-written ((k, v) ∷ fields) =
    ap pairs
      (texts-put k (put v (written fields)) ∙ ap (λ ts. k ∷ ts) (texts-put v (written fields)))
    ∙ ap (λ p. (k, v) ∷ p) (pairs-written fields)

abbrev cipher : Cipher
cipher = record {
  encrypt = λ iv p. record { ciphertext = written p; iv = iv; auth_tag = 0 };
  decrypt = λ e. some (pairs (texts e.ciphertext));
}

abbrev secrets : CredentialPayload
secrets = (webhook_secret, codes "s3cret") ∷ []

abbrev vault : Hub
vault = record {
  credentials =
      record {
        id = 1;
        tenant = 1;
        provider = sepay;
        encrypted = record { ciphertext = written secrets; iv = 5; auth_tag = 0 };
        is_active = true;
        last_verified_at = none;
        last_verification_ok = none;
        updated_at = 0;
      }
      ∷ [];
  tokens = record { token = 77; tenant = 1; provider = sepay } ∷ [];
  events = [];
}

set_credentials-get_decrypted_payload_example :
    let h = (set_credentials cipher 1 6 2 9 1 ghn ((codes "token", codes "g") ∷ []) vault).1 in
    (get_decrypted_payload cipher 1 1 ghn h ≡ (ok (some ((codes "token", codes "g") ∷ [])), h))
    × ((t : ℕ) (p : Provider)
        → (t == 1 && same_provider p ghn) ≡ false
        → get_decrypted_payload cipher t t p h ≡ ((get_decrypted_payload cipher t t p vault).0, h))
set_credentials-get_decrypted_payload_example =
    set_credentials-get_decrypted_payload cipher (λ iv p. ap some (pairs-written p)) 6 2 9 1 ghn
      ((codes "token", codes "g") ∷ []) vault

-- Four attempts, as `maxAttempts: 3` retries give.
module _ {S : Type 0} where
  abbrev or_again : (S → Result (Unit {0}) × S) → Result (Unit {0}) × S → Result (Unit {0}) × S
  or_again retry (ok u, s) = (ok u, s)
  or_again retry (err retryable, s) = retry s
  or_again retry (err e, s) = (err e, s)

  attempts : ℕ → Action S (Unit {0}) → Action S (Unit {0})
  attempts zero fn s = fn s
  attempts (suc n) fn s = or_again (attempts n fn) (fn s)

  or_again-Calls :
      (fn : Action S (Unit {0})) (retry : S → Result (Unit {0}) × S) (s : S)
      → ((s : S) → Runs fn s (retry s))
      → (x : Result (Unit {0}) × S) → fn s ≡ x
      → Calls fn s (or_again retry x)
  or_again-Calls fn retry s h (ok u, s') e = once e
  or_again-Calls fn retry s h (err retryable, s') e = retried e (h s')
  or_again-Calls fn retry s h (err _, s') e = once e

  Calls-Runs :
      {fn : Action S (Unit {0})} {s : S} {x : Result (Unit {0}) × S} → Calls fn s x → Runs fn s x
  Calls-Runs (once e) = last e
  Calls-Runs (retried e r) = again e r

  attempts-Runs : (n : ℕ) (fn : Action S (Unit {0})) (s : S) → Runs fn s (attempts n fn s)
  unfolding attempts
  attempts-Runs zero fn s = last refl
  attempts-Runs (suc n) fn s =
      Calls-Runs (or_again-Calls fn (attempts n fn) s (attempts-Runs n fn) (fn s) refl)

  attempts-Calls : (n : ℕ) (fn : Action S (Unit {0})) (s : S) → Calls fn s (attempts (suc n) fn s)
  unfolding attempts
  attempts-Calls n fn s = or_again-Calls fn (attempts n fn) s (attempts-Runs n fn) (fn s) refl

abbrev status : Failure → ℕ
status (conflict c) = 409
status _ = 500

abbrev invoice : Invoice
invoice = record {
  id = 30;
  tenant = 1;
  order = 20;
  number = first;
  tax_rule = 3;
  subtotal = pos 100000;
  tax_rate = pos 1000;
  tax_amount = pos 10000;
  total_amount = pos 110000;
  requires_e_invoice = false;
  status = issued;
  issued_at = 5;
}

abbrev books : Store
books = record {
  stock = record { skus = []; lots = []; movements = [] };
  orders = [];
  order_lines = [];
  invoices = invoice ∷ [];
  sequences = [];
  payments = [];
  returns = [];
  keys = [];
  inbox = record { notifications = []; emails = [] };
  tenants = [];
  members = [];
  tax_rules = [];
}

abbrev note : Text
note = codes "CK INV-2025-000001 GD"

abbrev transfer_of : ℕ → SepayBody
transfer_of id = record {
  id = some id;
  transaction_date = wall_clock 1735700000000;
  is_incoming = true;
  content = note;
  transfer_amount = some (pos 110000);
  reference_code = some 555;
}

-- The first answer is lost, and then three requests are.
abbrev start : World
start = record {
  hub = vault;
  link = record {
    backend = books;
    fates = answer_lost ∷ request_lost ∷ request_lost ∷ request_lost ∷ [];
  };
}

abbrev header : Option Text
header = some (codes "Apikey s3cret")

abbrev draws : ℕ → Fresh
draws n = record { event = n; payment = n; now = n }

abbrev admits : ℕ → World → Result Answer × World
admits n w = handle status (attempts 3) cipher (draws n) (uuid 77) header (transfer_of 900) w

abbrev after_first : World
after_first = (admits 10 start).1

handle-Admission_example :
    Admission status
      (attempts 3)
      cipher
      (draws 10)
      (uuid 77)
      header
      (transfer_of 900)
      start
      (admits 10 start)
handle-Admission_example =
    handle-Admission status (attempts 3) cipher (draws 10) (uuid 77) header (transfer_of 900) start

start-IsSettled : IsSettled transfer_of start
start-IsSettled = record { at_most_once = λ t c. omega arith; rows = (tt, tt) }

Reach-IsSettled_example : IsSettled transfer_of after_first
Reach-IsSettled_example =
    Reach-IsSettled status (attempts 3) (attempts-Runs 3) transfer_of cipher start-IsSettled (
      next here (
        delivers (draws 10) (uuid 77) header (transfer_of 900)
          (λ id e. ap transfer_of (some_injective e)) refl))

-- The first delivery fails, but its payment is at the backend.
abbrev crashed : World
crashed = record {
  hub = record vault {
    events =
        record {
          id = 10;
          tenant = 1;
          provider = sepay;
          provider_event_id = 900;
          event_type = payment_received;
          occurred_at = 1735674800000;
          received_at = 10;
          payload = sepay_body (transfer_of 900);
          forwarded_at = none;
        }
        ∷ [];
  };
  link = record {
    backend = record books {
      payments =
          record {
            id = 10;
            tenant = 1;
            invoice = 30;
            method = bank_transfer;
            amount = pos 110000;
            type = payment;
            reference_code = some 555;
            received_at = 10;
          }
          ∷ [];
    };
    fates = [];
  };
}

first_fails : admits 10 start ≡ (err retryable, crashed)
unfolding handle attempts take_transfer forward_payment expected_header resolve_webhook_token
    resolve get_decrypted_payload find_encrypted_by_provider assert_tenant_matches_session occurred
    record_event record_if_new find_by_provider_event_id mark_forwarded connector_fetch classify
    extract_invoice_number match_here number_of record_by_invoice_number
    record_payment_by_invoice_number record_payment get_invoice_by_number get_invoice find_invoice
    find_by_invoice_number find_by_reference_code sum_by_invoice create_payment ◌+ℤ◌
first_fails = refl

crashed-IsSettled : IsSettled transfer_of crashed
crashed-IsSettled =
    subst (IsSettled transfer_of) (ap (λ x. x.1) first_fails) Reach-IsSettled_example

crashed-Free : Free 20 20 1 900 1735674800000 (transfer_of 900) crashed.hub
unfolding find_by_provider_event_id
crashed-Free = (refl, λ e. absurd (cc))

crashed-Accepts :
    Accepts
      (record_by_invoice_number 20 20
        (forward_input status refl
          (attempts 3)
          (attempts-Runs 3)
          transfer_of
          (draws 20)
          1
          900
          1735674800000
          (codes "INV-2025-000001")
          crashed)
        crashed.link.backend).0
unfolding assert_tenant_matches_session number_of record_by_invoice_number
    record_payment_by_invoice_number record_payment get_invoice_by_number get_invoice find_invoice
    find_by_invoice_number find_by_reference_code
crashed-Accepts = inr refl

crashed-Resolves :
    Resolves (uuid 77) crashed.hub (record { token = 77; tenant = 1; provider = sepay })
unfolding resolve
crashed-Resolves = (77, refl, refl, refl)

crashed-Vaulted :
    Vaulted cipher crashed.hub (record { token = 77; tenant = 1; provider = sepay }) secrets
unfolding find_encrypted_by_provider
crashed-Vaulted = (
  record { ciphertext = written secrets; iv = 5; auth_tag = 0 },
  refl,
  ap some (pairs-written secrets),
)

genuine : header ≡ some (expected_header secrets)
unfolding expected_header
genuine = refl

named : extract_invoice_number note ≡ some (codes "INV-2025-000001")
unfolding extract_invoice_number match_here
named = refl

dated : occurred 20 (wall_clock 1735700000000) ≡ some 1735674800000
unfolding occurred
dated = refl

-- The delivery that is sent again.
handle-Completes_example :
    Completes status refl
      (attempts 3)
      (attempts-Runs 3)
      transfer_of
      (draws 20)
      1
      900
      1735674800000
      (codes "INV-2025-000001")
      crashed
      (admits 20 crashed)
handle-Completes_example =
    handle-Completes status refl (attempts 3) (attempts-Runs 3) transfer_of (draws 20) 1 900
      1735674800000 (codes "INV-2025-000001") crashed cipher (uuid 77) header
      (record { token = 77; tenant = 1; provider = sepay }) secrets crashed-Resolves refl
      crashed-Vaulted genuine refl crashed-IsSettled crashed-Free refl named dated
      (λ fn. attempts-Calls 2 fn crashed.link) refl crashed-Accepts

-- Credentials for the pull-side API alone.
abbrev unguarded : World
unguarded = record start {
  hub = record vault {
    credentials =
        record {
          id = 1;
          tenant = 1;
          provider = sepay;
          encrypted = record {
            ciphertext = written ((codes "apiToken", codes "t") ∷ []);
            iv = 5;
            auth_tag = 0;
          };
          is_active = true;
          last_verified_at = none;
          last_verification_ok = none;
          updated_at = 0;
        }
        ∷ [];
  };
}

unguarded-Resolves :
    Resolves (uuid 77) unguarded.hub (record { token = 77; tenant = 1; provider = sepay })
unfolding resolve
unguarded-Resolves = (77, refl, refl, refl)

unguarded-Vaulted :
    Vaulted cipher unguarded.hub
      (record { token = 77; tenant = 1; provider = sepay })
      ((codes "apiToken", codes "t") ∷ [])
unfolding find_encrypted_by_provider
unguarded-Vaulted = (
  record { ciphertext = written ((codes "apiToken", codes "t") ∷ []); iv = 5; auth_tag = 0 },
  refl,
  ap some (pairs-written ((codes "apiToken", codes "t") ∷ [])),
)

handle-undefined_example :
    handle status
      (attempts 3)
      cipher
      (draws 10)
      (uuid 77)
      (some undefined_header)
      (transfer_of 900)
      unguarded
    ≡ take_transfer status (attempts 3) (draws 10) 1 (transfer_of 900) 900 unguarded
handle-undefined_example =
    handle-undefined status (attempts 3) cipher (draws 10) (uuid 77) (some undefined_header)
      (transfer_of 900) unguarded (record { token = 77; tenant = 1; provider = sepay })
      ((codes "apiToken", codes "t") ∷ []) 900 unguarded-Resolves unguarded-Vaulted refl refl refl
