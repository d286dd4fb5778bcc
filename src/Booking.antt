-- ===== src/Booking.antt =====
-- services/backend-api/src/modules/booking-resource: booking.service.ts and
-- booking.drizzle-repository.ts. The advisory lock on the resource is what lets each hold run
-- alone. An instant is its milliseconds, and `now` is the clock of the call.
pub mod Capacity
pub mod Timeline
pub mod Queries
mod Tests
use solodesk.Prelude.{
  ℕ, ◌+◌, ◌*◌, Bool, true, false, not, ◌&&◌, ◌||◌, Option, none, some, List, [], ◌∷◌, ◌==◌, ltb,
  leb, find, if◌then◌else◌,
}
use solodesk.Prelude.Int.{ℤ, pos, ◌+ℤ◌, ltb_ℤ}
use solodesk.Prelude.Tables.{Update, unchanged, changed, update_first, total}
use solodesk.Prelude.Action.{
  Action, ok, bad_request, not_found, conflict, resource_not_found, capacity_unavailable,
  hold_not_confirmable, booking_not_cancellable, booking_not_confirmed, booking_not_found, refused,
  throw_if, throw, or_throw, pure, gets, modify, ◌>>=◌, ◌>>◌,
}
use solodesk.Tenancy.{assert_tenant_matches_session}

pub data BookingStatus : Type 0 where
  held confirmed cancelled no_show completed : BookingStatus

pub record Booking : Type 0 where
  pub id : ℕ
  pub tenant : ℕ
  pub resource : ℕ
  pub customer_name : ℕ
  pub starts_at : ℕ
  pub ends_at : ℕ
  pub party_size : ℕ
  pub status : BookingStatus
  pub hold_expires_at : ℕ

pub record Resource : Type 0 where
  pub id : ℕ
  pub tenant : ℕ
  pub capacity : ℕ

pub record BookingStore : Type 0 where
  pub resources : List Resource
  pub bookings : List Booking

pub record RequestHoldInput : Type 0 where
  pub resource : ℕ
  pub customer_name : ℕ
  pub starts_at : ℕ
  pub ends_at : ℕ
  pub party_size : Option ℕ
  pub hold_minutes : Option ℕ

abbrev pub is_held : BookingStatus → Bool
is_held held = true
is_held _ = false

abbrev pub is_confirmed : BookingStatus → Bool
is_confirmed confirmed = true
is_confirmed _ = false

-- Confirmed, or held with a hold that has not expired.
abbrev pub active_for_capacity : ℕ → Booking → Bool
active_for_capacity as_of b =
    is_confirmed b.status || (is_held b.status && ltb as_of b.hold_expires_at)

abbrev pub or_default : ℕ → Option ℕ → ℕ
or_default d none = d
or_default d (some n) = n

pub find_resource : ℕ → ℕ → BookingStore → Option Resource
find_resource id tenant s = find (λ (r : Resource). r.id == id && r.tenant == tenant) s.resources

-- The bookings that the capacity query counts.
abbrev pub overlaps : ℕ → ℕ → ℕ → ℕ → ℕ → Booking → Bool
overlaps now resource tenant starts_at ends_at b =
    (b.resource == resource && b.tenant == tenant && active_for_capacity now b)
    && (ltb b.starts_at ends_at && ltb starts_at b.ends_at)

abbrev pub party_if : Bool → Booking → ℤ
party_if true b = pos b.party_size
party_if false b = pos 0

pub used : ℕ → ℕ → RequestHoldInput → BookingStore → ℤ
used now tenant input s =
    total (λ b. party_if (overlaps now input.resource tenant input.starts_at input.ends_at b) b)
      s.bookings

abbrev pub new_booking : ℕ → ℕ → ℕ → RequestHoldInput → Booking
new_booking id now tenant input = record {
  id = id;
  tenant = tenant;
  resource = input.resource;
  customer_name = input.customer_name;
  starts_at = input.starts_at;
  ends_at = input.ends_at;
  party_size = or_default 1 input.party_size;
  status = held;
  hold_expires_at = now + or_default 15 input.hold_minutes * 60000;
}

-- The CHECK constraints of the table.
abbrev pub booking_checks : Booking → Bool
booking_checks b = ltb b.starts_at b.ends_at && ltb 0 b.party_size

abbrev insert_booking : Booking → Action BookingStore (Option Booking)
insert_booking b =
    throw_if (not (booking_checks b)) refused
    >> (modify (λ s. record s { bookings = b ∷ s.bookings }) >> pure (some b))

abbrev hold_within :
    ℕ → ℕ → ℕ → RequestHoldInput → Option Resource → Action BookingStore (Option Booking)
hold_within id now tenant input none s = (ok none, s)
hold_within id now tenant input (some r) s =
    (if ltb_ℤ (pos r.capacity) (used now tenant input s +ℤ pos (or_default 1 input.party_size))
        then pure none
        else insert_booking (new_booking id now tenant input))
      s

pub request_hold_row : ℕ → ℕ → ℕ → RequestHoldInput → Action BookingStore (Option Booking)
request_hold_row id now tenant input s =
    hold_within id now tenant input (find_resource input.resource tenant s) s

abbrev answered : Update Booking → Action BookingStore (Option Booking)
answered unchanged s = (ok none, s)
answered (changed row rows) s = (ok (some row), record s { bookings = rows })

abbrev pub is_booking : ℕ → ℕ → Booking → Bool
is_booking id tenant b = b.id == id && b.tenant == tenant

pub confirm : ℕ → ℕ → ℕ → Action BookingStore (Option Booking)
confirm now id tenant s =
    answered
      (update_first (λ b. is_booking id tenant b && (is_held b.status && ltb now b.hold_expires_at))
        (λ b. record b { status = confirmed }) s.bookings)
      s

pub cancel : ℕ → ℕ → Action BookingStore (Option Booking)
cancel id tenant s =
    answered
      (update_first (λ b. is_booking id tenant b && (is_held b.status || is_confirmed b.status))
        (λ b. record b { status = cancelled }) s.bookings)
      s

pub mark_no_show_row : ℕ → ℕ → Action BookingStore (Option Booking)
mark_no_show_row id tenant s =
    answered
      (update_first (λ b. is_booking id tenant b && is_confirmed b.status)
        (λ b. record b { status = no_show }) s.bookings)
      s

pub get_resource : ℕ → ℕ → ℕ → Action BookingStore Resource
get_resource session id tenant =
    assert_tenant_matches_session session tenant
    >> (gets (find_resource id tenant) >>= λ found. or_throw found (not_found resource_not_found))

pub request_hold : ℕ → ℕ → ℕ → ℕ → RequestHoldInput → Action BookingStore Booking
request_hold session id now tenant input =
    assert_tenant_matches_session session tenant
    >> (throw_if (leb input.ends_at input.starts_at) bad_request
        >> (get_resource session input.resource tenant
            >> (request_hold_row id now tenant input >>= λ booking.
                or_throw booking (conflict capacity_unavailable))))

pub confirm_booking : ℕ → ℕ → ℕ → ℕ → Action BookingStore Booking
confirm_booking session now id tenant =
    assert_tenant_matches_session session tenant
    >> (confirm now id tenant >>= λ booking. or_throw booking (conflict hold_not_confirmable))

pub cancel_booking : ℕ → ℕ → ℕ → Action BookingStore Booking
cancel_booking session id tenant =
    assert_tenant_matches_session session tenant
    >> (cancel id tenant >>= λ booking. or_throw booking (conflict booking_not_cancellable))

pub mark_no_show : ℕ → ℕ → ℕ → Action BookingStore Booking
mark_no_show session id tenant =
    assert_tenant_matches_session session tenant
    >> (mark_no_show_row id tenant >>= λ booking. or_throw booking (conflict booking_not_confirmed))
