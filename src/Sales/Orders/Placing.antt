-- ===== src/Sales/Orders/Placing.antt =====
-- What `placeOrder` writes when it runs for the first time.
use mathlib.Core.Path.{subst, subst₂}
use solodesk.Prelude.{
  ℕ, true, ◌&&◌, some, List, [], ◌∷◌, ◌++◌, map, ◌==◌, ◌≡◌, refl, ◌∙◌, ap, sym, arith, select,
  select_keeps, find_here, ==_refl,
}
use solodesk.Prelude.Int.{◌+ℤ◌}
use solodesk.Prelude.Tables.{total}
use solodesk.Prelude.Action.{invariant_violation, or_throw}
use solodesk.Prelude.Success.{Succeeds, then_ensures}
use solodesk.Inventory.{Stock}
use solodesk.Sales.{Store, OrderRow, confirmed, OrderLine, Order, Response, ordered}
use solodesk.Sales.Idempotency.{insert_key, complete_key}
use solodesk.Sales.Orders.{
  CreateOrderInput, ResolvedOrderLine, resolve_lines, order_line, find_order, sum_of, create, place,
}
use solodesk.Sales.Orders.Conservation.{
  taken_by, on_hand_in, AreResolved, LinesDone, resolve_lines-LinesDone,
}

-- No line of that order is in the store yet: what a fresh `gen_random_uuid()` gives.
abbrev pub IsFresh : ℕ → ℕ → Store → Type 0
IsFresh id tenant s =
    select (λ (l : OrderLine). l.order == id && l.tenant == tenant) s.order_lines ≡ []

abbrev new_row : ℕ → ℕ → CreateOrderInput → List ResolvedOrderLine → OrderRow
new_row id tenant input ls = record {
  id = id;
  tenant = tenant;
  channel = input.channel;
  status = confirmed;
  customer_name = input.customer_name;
  total_amount = sum_of ls;
}

own_ids : (id tenant : ℕ) → ((id == id) && (tenant == tenant)) ≡ true
own_ids id tenant = ground (arith, ==_refl id, ==_refl tenant)

select_own :
    (id tenant : ℕ) (ls : List ResolvedOrderLine) (old : List OrderLine)
    → select (λ (l : OrderLine). l.order == id && l.tenant == tenant) old ≡ []
    → select
        (λ (l : OrderLine). l.order == id && l.tenant == tenant)
        (map (order_line tenant id) ls ++ old)
      ≡ map (order_line tenant id) ls
select_own id tenant [] old h = h
select_own id tenant (l ∷ ls) old h =
    select_keeps (λ (l : OrderLine). l.order == id && l.tenant == tenant) (order_line tenant id l) _
      (own_ids id tenant)
    ∙ ap (λ rest. order_line tenant id l ∷ rest) (select_own id tenant ls old h)

abbrev new_order : ℕ → ℕ → CreateOrderInput → List ResolvedOrderLine → Order
new_order id tenant input ls = record {
  row = new_row id tenant input ls;
  lines = map (order_line tenant id) ls;
}

-- The store that `create` leaves.
abbrev stored : ℕ → ℕ → CreateOrderInput → List ResolvedOrderLine → Store → Store
stored id tenant input ls s = record s {
  orders = new_row id tenant input ls ∷ s.orders;
  order_lines = map (order_line tenant id) ls ++ s.order_lines;
}

find_order-stored :
    (id tenant : ℕ) (input : CreateOrderInput) (ls : List ResolvedOrderLine) (s : Store)
    → IsFresh id tenant s
    → find_order id tenant (stored id tenant input ls s) ≡ some (new_order id tenant input ls)
unfolding find_order
find_order-stored id tenant input ls s fresh = rw (
  find_here (λ (o : OrderRow). o.id == id && o.tenant == tenant) (new_row id tenant input ls)
      s.orders (own_ids id tenant),
  select_own id tenant ls s.order_lines fresh,
)

-- What `create` writes and answers.
abbrev Created : ℕ → ℕ → CreateOrderInput → List ResolvedOrderLine → Store → Order → Store → Type 0
Created id tenant input ls s order s' =
    (order ≡ new_order id tenant input ls) × (s' ≡ stored id tenant input ls s)

create-Created :
    (id tenant : ℕ) (input : CreateOrderInput) (ls : List ResolvedOrderLine) (s : Store)
    → IsFresh id tenant s
    → Succeeds (Created id tenant input ls s) (create id tenant input ls s)
unfolding create
create-Created id tenant input [] s fresh = tt
create-Created id tenant input (l ∷ ls) s fresh =
    subst
      (λ o.
        Succeeds (Created id tenant input (l ∷ ls) s)
          (or_throw o invariant_violation (stored id tenant input (l ∷ ls) s)))
      (sym (find_order-stored id tenant input (l ∷ ls) s fresh)) (refl, refl)

-- What a placed order is: priced from the lines asked for, totalled, paid for out of the stock,
-- and there to be read.
pub record Placed (committed : Stock) (tenant id : ℕ) (input : CreateOrderInput) (s : Store)
    (order : Order) (s' : Store) : Type 0 where
  pub lines : List ResolvedOrderLine
  pub as_asked : AreResolved committed tenant input.lines lines
  pub written : order.lines ≡ map (order_line tenant id) lines
  pub totalled : order.row.total_amount ≡ total (λ (l : OrderLine). l.line_total) order.lines
  pub readable : find_order id tenant s' ≡ some order
  pub taken : (t i : ℕ) → on_hand_in t i s' +ℤ total (taken_by tenant t i) lines ≡ on_hand_in t i s

total-map :
    (tenant id : ℕ) (ls : List ResolvedOrderLine)
    → total (λ (l : OrderLine). l.line_total) (map (order_line tenant id) ls) ≡ sum_of ls
total-map tenant id [] = refl
total-map tenant id (l ∷ ls) = ap (λ rest. l.line_total +ℤ rest) (total-map tenant id ls)

module _ (committed : Stock) (tenant id : ℕ) (input : CreateOrderInput) where
  abbrev pub IsPlaced : Store → Response → Store → Type 0
  IsPlaced s response s' =
      (order : Order) × (response ≡ ordered order)
      × Placed committed tenant id input s order s'
      × (s'.keys ≡ s.keys)

  new_order-IsPlaced :
      (s s' s'' : Store) (ls : List ResolvedOrderLine) (order : Order)
      → IsFresh id tenant s'
      → LinesDone committed tenant input.lines s ls s'
      → Created id tenant input ls s' order s''
      → IsPlaced s (ordered order) s''
  new_order-IsPlaced s s' s'' ls order fresh (asked, books, took) (is, left) =
      subst₂ (λ order s''. IsPlaced s (ordered order) s'') (sym is) (sym left)
        (
          new_order id tenant input ls,
          refl,
          record {
            lines = ls;
            as_asked = asked;
            written = refl;
            totalled = sym (total-map tenant id ls);
            readable = find_order-stored id tenant input ls s' fresh;
            taken = took;
          },
          ap (λ (z : Store). z.keys) (sym books),
        )

  pub place-IsPlaced :
      (s : Store) → IsFresh id tenant s → Succeeds (IsPlaced s) (place id tenant input committed s)
  place-IsPlaced s fresh =
      then_ensures (LinesDone committed tenant input.lines s) (IsPlaced s) _
        (λ ls s' done.
          let still = subst (IsFresh id tenant) done.1 fresh in
          then_ensures (Created id tenant input ls s') (IsPlaced s) _
            (λ order s'' made. new_order-IsPlaced s s' s'' ls order still done made)
            (create id tenant input ls) s' (create-Created id tenant input ls s' still))
        (resolve_lines committed tenant input.lines) s
        (resolve_lines-LinesDone committed tenant input.lines s)

  pub completed-Placed :
      (key : ℕ) (response : Response) (s s' : Store) (order : Order)
      → Placed committed tenant id input (insert_key tenant key s) order s'
      → Placed committed tenant id input s order (complete_key tenant key response s')
  unfolding find_order
  completed-Placed key response s s' order p = record {
    lines = p.lines;
    as_asked = p.as_asked;
    written = p.written;
    totalled = p.totalled;
    readable = p.readable;
    taken = p.taken;
  }
