-- ===== src/Connectors/InvoiceNumbers.antt =====
-- services/connector-hub/src/modules/connectors/sepay/extract-invoice-number.ts, and the text that
-- invoice.drizzle-repository.ts (services/backend-api) gives an invoice number.
pub mod Reading
use mathlib.Core.Option
use solodesk.Prelude.{
  ℕ, zero, suc, ◌-◌, ◌+◌, Bool, Option, none, some, List, [], ◌∷◌, ◌++◌, ◌==◌, if◌then◌else◌,
  length, replicate, take, drop,
}
use solodesk.Money.{Text, is_digit, to_string}
use solodesk.Money.Digits.{value}
use solodesk.Sales.{InvoiceNumber}

-- An item of the regular expression: a character, or `\d`.
pub data Item : Type 0 where
  literal : ℕ → Item
  digit : Item

abbrev pub fits : Item → ℕ → Bool
fits (literal k) c = c == k
fits digit c = is_digit c

-- /INV-\d{4}-\d{6}/
abbrev pub invoice_number_pattern : List Item
invoice_number_pattern =
    literal b'I' ∷ literal b'N' ∷ literal b'V' ∷ literal b'-' ∷ replicate 4 digit
    ++ (literal b'-' ∷ replicate 6 digit)

-- The match that begins at the start of the text.
unfoldable pub match_here : List Item → Text → Option Text
match_here [] s = some []
match_here (p ∷ ps) [] = none
match_here (p ∷ ps) (c ∷ s) =
    let rest = match_here ps s in if fits p c then Option.map (λ m. c ∷ m) rest else none

abbrev pub or_else : Option Text → Option Text → Option Text
or_else (some m) later = some m
or_else none later = later

-- `content.match(INVOICE_NUMBER_PATTERN)?.[0] ?? null`: the leftmost match.
unfoldable pub extract_invoice_number : Text → Option Text
extract_invoice_number [] = none
extract_invoice_number (c ∷ s) =
    or_else (match_here invoice_number_pattern (c ∷ s)) (extract_invoice_number s)

-- `text.padStart(width, '0')`
unfoldable pub pad_start : ℕ → Text → Text
pad_start width s = replicate (width - length s) b'0' ++ s

-- `INV-${year}-${String(counter).padStart(6, '0')}`
unfoldable pub print_invoice_number : InvoiceNumber → Text
print_invoice_number n =
    b'I' ∷ b'N' ∷ b'V' ∷ b'-' ∷ to_string n.year ++ (b'-' ∷ pad_start 6 (to_string n.counter))

-- The year and the counter that a match spells.
unfoldable pub number_of : Text → InvoiceNumber
number_of m = record { year = value 0 (take 4 (drop 4 m)); counter = value 0 (drop 9 m) }
