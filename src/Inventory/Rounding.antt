-- ===== src/Inventory/Rounding.antt =====
-- A direct sale whose quantity has more than three decimals (lot.drizzle-repository.ts): the guard
-- and the subtraction take the quantity as it is, and numeric(14, 3) rounds the new stock and the
-- movement's quantity each on its own, halves away from zero. Rows are in thousandths; a quantity is
-- a numeral of 3 + k decimals, k ≥ 1, of zero or more.
use solodesk.Prelude.{
  ℕ, ◌+◌, ◌-◌, ◌*◌, ◌^◌, ◌≤◌, ◌<◌, Bool, true, false, Option, none, some, ◌≡◌, ◌⊎◌, leb,
}
use solodesk.Prelude.Int.{ℤ, pos}
use solodesk.Money.{rescale}

-- The lot's row and the movement's quantity after a sale.
pub record Sale : Type 0 where
  pub on_hand : ℤ
  pub logged : ℤ

abbrev pub sold : ℕ → ℕ → ℕ → Bool → Option Sale
sold k on_hand n false = none
sold k on_hand n true = some (record {
  on_hand = rescale (pos (on_hand * 10 ^ k - n)) (k + 3) 3;
  logged = rescale (pos n) (k + 3) 3;
})

-- `onHand - reserved >= qty::numeric`, `onHand - qty::numeric`, and `quantity: qty`.
unfoldable pub sell_decimals : ℕ → ℕ → ℕ → ℕ → Option Sale
sell_decimals k on_hand reserved n =
    sold k on_hand n (leb (n + reserved * 10 ^ k) (on_hand * 10 ^ k))

-- What a sale leaves: the stock on hand and the movement sum up to the old stock, or, for a quantity
-- half way between two thousandths, to one thousandth more than there was.
pub record Drifts (k on_hand n : ℕ) (sale : Sale) : Type 0 where
  pub left : ℕ
  pub moved : ℕ
  pub left_is : sale.on_hand ≡ pos left
  pub moved_is : sale.logged ≡ pos moved
  pub drift :
      (left + moved ≡ on_hand)
      ⊎ ((left + moved ≡ on_hand + 1) × (2 * (moved * 10 ^ k) ≡ 2 * n + 10 ^ k))

-- A sale of more decimals is refused exactly if it asks for more than is available.
pub data Sells (k on_hand reserved n : ℕ) : Option Sale → Type 0 where
  too_few : on_hand * 10 ^ k < n + reserved * 10 ^ k → Sells k on_hand reserved n none
  sells :
      (sale : Sale)
      → n + reserved * 10 ^ k ≤ on_hand * 10 ^ k
      → Drifts k on_hand n sale
      → Sells k on_hand reserved n (some sale)
