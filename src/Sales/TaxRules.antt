-- ===== src/Sales/TaxRules.antt =====
-- services/backend-api/src/modules/invoicing-tax: tax-calculation.service.ts and
-- tax-rule.drizzle-repository.ts.
use solodesk.Prelude.{
  ℕ, ◌/◌, Bool, true, false, ◌&&◌, Option, none, some, List, [], ◌∷◌, ◌==◌, leb, select,
  if◌then◌else◌,
}
use solodesk.Prelude.Int.{ℤ, ◌+ℤ◌, ◌*ℤ◌}
use solodesk.Prelude.Action.{Action, not_found, tax_rule_not_found, or_throw, gets, pure, ◌>>=◌}
use solodesk.Money.{rescale}
use solodesk.VnTime.{day_ms}
use solodesk.Sales.{Store, TaxRule}

-- `multiplyMoney(subtotal, rate)`, of two and four decimals.
abbrev pub multiply_rate : ℤ → ℤ → ℤ
multiply_rate subtotal rate = rescale (subtotal *ℤ rate) 6 2

abbrev applies_to : Option ℕ → ℕ → Bool
applies_to none industry = true
applies_to (some i) industry = i == industry

abbrev not_ended : Option ℕ → ℕ → Bool
not_ended none day = true
not_ended (some last) day = leb day last

abbrev is_active_rule : ℕ → ℕ → TaxRule → Bool
is_active_rule industry day rule =
    applies_to rule.industry industry
    && leb rule.effective_from day
    && not_ended rule.effective_to day

-- The sort key's order: an industry's own rules before the fallback, then the earliest.
abbrev precedes : Option ℕ → Option ℕ → Bool → Bool
precedes (some _) none older = true
precedes none (some _) older = false
precedes _ _ older = older

abbrev first_rule : TaxRule → Option TaxRule → Option TaxRule
first_rule rule none = some rule
first_rule rule (some best) =
    if precedes rule.industry best.industry (leb rule.effective_from best.effective_from)
    then some rule
    else some best

abbrev first_of : List TaxRule → Option TaxRule
first_of [] = none
first_of (rule ∷ rules) = first_rule rule (first_of rules)

-- A rule's dates are day numbers since 1970; `asOf` is cut to its UTC date.
pub find_active_rule : ℕ → ℕ → Store → Option TaxRule
find_active_rule industry as_of s =
    first_of (select (is_active_rule industry (as_of / day_ms)) s.tax_rules)

pub record TaxCalculation : Type 0 where
  pub rule : TaxRule
  pub tax_amount : ℤ
  pub total_amount : ℤ

pub calculate : ℕ → ℤ → ℕ → Action Store TaxCalculation
calculate industry subtotal as_of = gets (find_active_rule industry as_of) >>= λ found.
    or_throw found (not_found tax_rule_not_found) >>= λ rule. pure (record {
      rule = rule;
      tax_amount = multiply_rate subtotal rule.rate;
      total_amount = subtotal +ℤ multiply_rate subtotal rule.rate;
    })
