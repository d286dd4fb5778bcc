-- ===== src/Booking/Queries.antt =====
-- The reads of booking.service.ts and booking.drizzle-repository.ts.
use solodesk.Prelude.{
  ℕ, Bool, true, false, ◌&&◌, Option, none, some, List, [], ◌∷◌, ◌==◌, leb, ltb, find, select,
  if◌then◌else◌,
}
use solodesk.Prelude.Action.{
  Action, bad_request, not_found, booking_not_found, throw_if, or_throw, gets, pure, ◌>>=◌, ◌>>◌,
}
use solodesk.Tenancy.{assert_tenant_matches_session}
use solodesk.Booking.{Booking, BookingStore, is_booking, get_resource}

pub find_booking : ℕ → ℕ → BookingStore → Option Booking
find_booking id tenant s = find (is_booking id tenant) s.bookings

pub bookings_of_resource : ℕ → ℕ → BookingStore → List Booking
bookings_of_resource resource tenant s =
    select (λ (b : Booking). b.resource == resource && b.tenant == tenant) s.bookings

pub record BookingListFilters : Type 0 where
  pub resource : Option ℕ
  pub from : Option ℕ
  pub to : Option ℕ

abbrev holds_for : (ℕ → Bool) → Option ℕ → Bool
holds_for p none = true
holds_for p (some n) = p n

abbrev passes : ℕ → BookingListFilters → Booking → Bool
passes tenant filters b =
    b.tenant == tenant
    && holds_for (λ r. b.resource == r) filters.resource
    && holds_for (λ from. leb from b.starts_at) filters.from
    && holds_for (λ to. leb b.starts_at to) filters.to

-- `ORDER BY starts_at DESC`, as an insertion sort.
abbrev insert_by_start : Booking → List Booking → List Booking
insert_by_start b [] = b ∷ []
insert_by_start b (k ∷ ks) =
    let rest = insert_by_start b ks in if leb k.starts_at b.starts_at then b ∷ k ∷ ks else k ∷ rest

abbrev latest_first : List Booking → List Booking
latest_first [] = []
latest_first (b ∷ bs) = insert_by_start b (latest_first bs)

pub bookings_of_tenant : ℕ → BookingListFilters → BookingStore → List Booking
bookings_of_tenant tenant filters s = latest_first (select (passes tenant filters) s.bookings)

pub get_booking : ℕ → ℕ → ℕ → Action BookingStore Booking
get_booking session id tenant =
    assert_tenant_matches_session session tenant
    >> (gets (find_booking id tenant) >>= λ found. or_throw found (not_found booking_not_found))

pub list_by_resource : ℕ → ℕ → ℕ → Action BookingStore (List Booking)
list_by_resource session resource tenant =
    assert_tenant_matches_session session tenant
    >> (get_resource session resource tenant >> gets (bookings_of_resource resource tenant))

abbrev reversed_range : BookingListFilters → Bool
reversed_range filters = elim filters.from [
  | none ↦ false
  | some from ↦ elim filters.to [ none ↦ false | some to ↦ ltb to from ]
]

abbrev check_resource : ℕ → ℕ → Option ℕ → Action BookingStore (Unit {0})
check_resource session tenant none = pure tt
check_resource session tenant (some resource) = get_resource session resource tenant >> pure tt

pub list_bookings : ℕ → ℕ → BookingListFilters → Action BookingStore (List Booking)
list_bookings session tenant filters =
    assert_tenant_matches_session session tenant
    >> (throw_if (reversed_range filters) bad_request
        >> (check_resource session tenant filters.resource
            >> gets (bookings_of_tenant tenant filters)))
