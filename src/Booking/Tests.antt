-- ===== src/Booking/Tests.antt =====
-- A table for four, held for three and asked for two more.
use solodesk.Prelude.{ℕ, none, some, [], ◌∷◌, List, ◌≡◌, refl, arith}
use solodesk.Prelude.Int.{◌+ℤ◌}
use solodesk.Prelude.Action.{ok}
use solodesk.Booking.{
  BookingStore, RequestHoldInput, find_resource, request_hold_row, used, new_booking,
}
use solodesk.Booking.Capacity.{IsWithinCapacity}
use solodesk.Booking.Timeline.{Call, holding, confirming, timeline, timeline-IsWithinCapacity}

abbrev table : BookingStore
table = record { resources = record { id = 1; tenant = 1; capacity = 4 } ∷ []; bookings = [] }

abbrev party : ℕ → RequestHoldInput
party size = record {
  resource = 1;
  customer_name = 0;
  starts_at = 1000000;
  ends_at = 2000000;
  party_size = some size;
  hold_minutes = none;
}

abbrev three_held : BookingStore
three_held = record table { bookings = new_booking 7 0 1 (party 3) ∷ [] }

three_fit :
    request_hold_row 7 0 1 (party 3) table ≡ (ok (some (new_booking 7 0 1 (party 3))), three_held)
unfolding request_hold_row find_resource used ◌+ℤ◌
three_fit = refl

two_more : request_hold_row 8 1000 1 (party 2) three_held ≡ (ok none, three_held)
unfolding request_hold_row find_resource used ◌+ℤ◌
two_more = refl

abbrev evening : List Call
evening =
    record { wait = 0; tenant = 1; operation = holding 7 (party 3) }
    ∷ record { wait = 60000; tenant = 1; operation = holding 8 (party 2) }
    ∷ record { wait = 60000; tenant = 1; operation = confirming 7 }
    ∷ []

timeline-IsWithinCapacity_example :
    IsWithinCapacity (timeline 0 evening table).0 (timeline 0 evening table).1
timeline-IsWithinCapacity_example =
    timeline-IsWithinCapacity 0 evening table (λ resource tenant x r found. omega arith)
