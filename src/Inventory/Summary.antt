-- ===== src/Inventory/Summary.antt =====
-- The stock page: `listAvailableQuantitiesByTenant` of lot.drizzle-repository.ts, one grouped query,
-- and `getStockSummary` of inventory.service.ts.
use mathlib.Core.Path.{subst}
use solodesk.Prelude.{
  ℕ, ◌&&◌, Option, none, some, List, [], ◌∷◌, ◌==◌, ◌≡◌, refl, ◌∙◌, ap, sym, arith, find, find_here,
  find_later, select, map, if◌then◌else◌, Bool-cases, inl, inr,
}
use solodesk.Prelude.Int.{ℤ, pos, ◌+ℤ◌, ◌-ℤ◌, int_laws}
use solodesk.Prelude.Tables.{total}
use solodesk.Prelude.Action.{Action, gets, ◌>>◌}
use solodesk.Tenancy.{assert_tenant_matches_session}
use solodesk.Inventory.{Sku, Lot, Stock, AvailableQuantity, get_available_quantity}

-- One row of `GROUP BY sku_id`.
pub record Group : Type 0 where
  pub sku : ℕ
  pub total_on_hand : ℤ
  pub total_reserved : ℤ

abbrev add_to : Lot → Group → Group
add_to l g = record g {
  total_on_hand = l.on_hand +ℤ g.total_on_hand;
  total_reserved = l.reserved +ℤ g.total_reserved;
}

pub add_lot : Lot → List Group → List Group
add_lot l [] = record { sku = l.sku; total_on_hand = l.on_hand; total_reserved = l.reserved } ∷ []
add_lot l (g ∷ gs) = let rest = add_lot l gs in if g.sku == l.sku then add_to l g ∷ gs else g ∷ rest

pub group : List Lot → List Group
group [] = []
group (l ∷ ls) = add_lot l (group ls)

abbrev available_of : Group → AvailableQuantity
available_of g = record {
  sku = g.sku;
  total_on_hand = g.total_on_hand;
  total_reserved = g.total_reserved;
  total_available = g.total_on_hand -ℤ g.total_reserved;
}

pub list_available_quantities : ℕ → Stock → List AvailableQuantity
list_available_quantities tenant s =
    map available_of (group (select (λ (l : Lot). l.tenant == tenant) s.lots))

-- A SKU without lots is listed with zeros.
abbrev pub summary_of : ℕ → Option AvailableQuantity → AvailableQuantity
summary_of sku none = record {
  sku = sku;
  total_on_hand = pos 0;
  total_reserved = pos 0;
  total_available = pos 0;
}
summary_of sku (some q) = record q { sku = sku }

pub stock_summary : ℕ → Stock → List AvailableQuantity
stock_summary tenant s =
    map
      (λ (k : Sku).
        summary_of k.id
          (find (λ (q : AvailableQuantity). q.sku == k.id) (list_available_quantities tenant s)))
      (select (λ (k : Sku). k.tenant == tenant) s.skus)

pub get_stock_summary : ℕ → ℕ → Action Stock (List AvailableQuantity)
get_stock_summary session tenant =
    assert_tenant_matches_session session tenant >> gets (stock_summary tenant)

-- What the groups hold of a SKU.
abbrev on_hand_found : Option AvailableQuantity → ℤ
on_hand_found none = pos 0
on_hand_found (some q) = q.total_on_hand

abbrev reserved_found : Option AvailableQuantity → ℤ
reserved_found none = pos 0
reserved_found (some q) = q.total_reserved

abbrev found_in : ℕ → List Group → Option AvailableQuantity
found_in sku gs = find (λ (q : AvailableQuantity). q.sku == sku) (map available_of gs)

add_zero : (a : ℤ) → a ≡ a +ℤ pos 0
add_zero a = omega int_laws

on_hand-add_lot :
    (sku : ℕ) (l : Lot) (gs : List Group)
    → on_hand_found (found_in sku (add_lot l gs)) ≡ (
        if l.sku == sku
        then l.on_hand +ℤ on_hand_found (found_in sku gs)
        else on_hand_found (found_in sku gs))
unfolding add_lot
on_hand-add_lot sku l [] = ground (arith, add_zero l.on_hand)
on_hand-add_lot sku l (g ∷ gs) = ground (arith, on_hand-add_lot sku l gs)

reserved-add_lot :
    (sku : ℕ) (l : Lot) (gs : List Group)
    → reserved_found (found_in sku (add_lot l gs)) ≡ (
        if l.sku == sku
        then l.reserved +ℤ reserved_found (found_in sku gs)
        else reserved_found (found_in sku gs))
unfolding add_lot
reserved-add_lot sku l [] = ground (arith, add_zero l.reserved)
reserved-add_lot sku l (g ∷ gs) = ground (arith, reserved-add_lot sku l gs)

on_hand-group :
    (sku : ℕ) (ls : List Lot)
    → on_hand_found (found_in sku (group ls))
      ≡ total (λ (l : Lot). l.on_hand) (select (λ (l : Lot). l.sku == sku) ls)
unfolding group
on_hand-group sku [] = refl
on_hand-group sku (l ∷ ls) = ground (arith, on_hand-add_lot sku l (group ls), on_hand-group sku ls)

reserved-group :
    (sku : ℕ) (ls : List Lot)
    → reserved_found (found_in sku (group ls))
      ≡ total (λ (l : Lot). l.reserved) (select (λ (l : Lot). l.sku == sku) ls)
unfolding group
reserved-group sku [] = refl
reserved-group sku (l ∷ ls) =
    ground (arith, reserved-add_lot sku l (group ls), reserved-group sku ls)

select-select :
    (sku tenant : ℕ) (ls : List Lot)
    → select (λ (l : Lot). l.sku == sku) (select (λ (l : Lot). l.tenant == tenant) ls)
      ≡ select (λ (l : Lot). l.sku == sku && l.tenant == tenant) ls
select-select sku tenant [] = refl
select-select sku tenant (l ∷ ls) = ground (arith, select-select sku tenant ls)

abbrev quantity : ℕ → ℤ → ℤ → AvailableQuantity
quantity sku on_hand reserved = record {
  sku = sku;
  total_on_hand = on_hand;
  total_reserved = reserved;
  total_available = on_hand -ℤ reserved;
}

abbrev with_available : AvailableQuantity → ℤ → AvailableQuantity
with_available q a = record q { total_available = a }

zero_left : pos 0 ≡ pos 0 -ℤ pos 0
zero_left = omega int_laws

-- What is available of a group is the difference of its sums.
abbrev Balanced : Option AvailableQuantity → Type 0
Balanced none = Unit {0}
Balanced (some q) = q.total_available ≡ q.total_on_hand -ℤ q.total_reserved

found_in-Balanced : (sku : ℕ) (gs : List Group) → Balanced (found_in sku gs)
found_in-Balanced sku [] = tt
found_in-Balanced sku (g ∷ gs) = elim (Bool-cases (g.sku == sku)) [
  | inl hit ↦
      subst Balanced
        (sym (
          find_here (λ (q : AvailableQuantity). q.sku == sku) (available_of g) (map available_of gs)
            hit))
        refl
  | inr miss ↦
      subst Balanced
        (sym (
          find_later (λ (q : AvailableQuantity). q.sku == sku) (available_of g)
            (map available_of gs) miss))
        (found_in-Balanced sku gs)
]

summary_of-Balanced :
    (sku : ℕ) (o : Option AvailableQuantity)
    → Balanced o
    → summary_of sku o ≡ quantity sku (on_hand_found o) (reserved_found o)
summary_of-Balanced sku none h =
    ap (λ (a : ℤ). summary_of sku (some (with_available (quantity sku (pos 0) (pos 0)) a)))
      zero_left
summary_of-Balanced sku (some q) h = ap (λ (a : ℤ). summary_of sku (some (with_available q a))) h

summary_of-found_in :
    (sku : ℕ) (gs : List Group)
    → summary_of sku (found_in sku gs)
      ≡ quantity sku (on_hand_found (found_in sku gs)) (reserved_found (found_in sku gs))
summary_of-found_in sku gs = summary_of-Balanced sku (found_in sku gs) (found_in-Balanced sku gs)

batched :
    (sku tenant : ℕ) (s : Stock)
    → summary_of sku
        (find (λ (q : AvailableQuantity). q.sku == sku) (list_available_quantities tenant s))
      ≡ get_available_quantity sku tenant s
unfolding list_available_quantities get_available_quantity
batched sku tenant s =
    summary_of-found_in sku (group (select (λ (l : Lot). l.tenant == tenant) s.lots))
    ∙ ap
        (λ a.
          quantity sku a (
            reserved_found
              (found_in sku (group (select (λ (l : Lot). l.tenant == tenant) s.lots)))))
        (on_hand-group sku (select (λ (l : Lot). l.tenant == tenant) s.lots))
    ∙ ap
        (λ a.
          quantity sku
            (total (λ (l : Lot). l.on_hand)
              (select (λ (l : Lot). l.sku == sku)
                (select (λ (l : Lot). l.tenant == tenant) s.lots)))
            a)
        (reserved-group sku (select (λ (l : Lot). l.tenant == tenant) s.lots))
    ∙ ap
        (λ rows.
          quantity sku (total (λ (l : Lot). l.on_hand) rows) (total (λ (l : Lot). l.reserved) rows))
        (select-select sku tenant s.lots)

map_each :
    (f g : Sku → AvailableQuantity)
    → ((k : Sku) → f k ≡ g k)
    → (ks : List Sku) → map f ks ≡ map g ks
map_each f g h [] = refl
map_each f g h (k ∷ ks) = rw (h k, map_each f g h ks)

-- The stock page's rows, from one grouped query over all of a tenant's lots, are for each of the
-- tenant's SKUs, with lots or without, what the query for that one SKU answers.
pub stock_summary_lem :
    (tenant : ℕ) (s : Stock)
    → stock_summary tenant s
      ≡ map
          (λ (k : Sku). get_available_quantity k.id tenant s)
          (select (λ (k : Sku). k.tenant == tenant) s.skus)
unfolding stock_summary
stock_summary_lem tenant s =
    map_each _ _ (λ k. batched k.id tenant s) (select (λ (k : Sku). k.tenant == tenant) s.skus)
