-- ===== src/Booking/Timeline.antt =====
-- Calls on bookings one after the other, with the clock going on.
use mathlib.Core.Bool.{and-eq-true_iff}
use solodesk.Prelude.{
  ℕ, ◌+◌, Bool, true, false, ◌&&◌, ◌||◌, List, [], ◌∷◌, ltb, leb, ◌==◌, ◌≡◌, refl, arith, Option,
}
use solodesk.Prelude.Int.{◌≤ℤ◌}
use solodesk.Prelude.Action.{Action}
use solodesk.Booking.{
  Booking, BookingStatus, confirmed, cancelled, no_show, BookingStore, RequestHoldInput, is_held,
  is_confirmed, active_for_capacity, is_booking, party_if, request_hold_row, confirm, cancel,
  mark_no_show_row,
}
use solodesk.Booking.Capacity.{
  takes, weight, IsWithinCapacity, still_within, and_left, and_right, answered-IsWithinCapacity,
  request_hold_row-IsWithinCapacity,
}

pub data Operation : Type 0 where
  holding : ℕ → RequestHoldInput → Operation
  confirming cancelling missing : ℕ → Operation

-- A call of a tenant, some time after the one before it.
pub record Call : Type 0 where
  pub wait : ℕ
  pub tenant : ℕ
  pub operation : Operation

abbrev pub perform : ℕ → ℕ → Operation → Action BookingStore (Option Booking)
perform now tenant (holding id input) = request_hold_row id now tenant input
perform now tenant (confirming id) = confirm now id tenant
perform now tenant (cancelling id) = cancel id tenant
perform now tenant (missing id) = mark_no_show_row id tenant

-- The clock and the store after the calls.
pub timeline : ℕ → List Call → BookingStore → ℕ × BookingStore
timeline now [] s = (now, s)
timeline now (c ∷ cs) s =
    timeline (now + c.wait) cs (perform (now + c.wait) c.tenant c.operation s).1

party_if_status :
    (p q : Bool) (b : Booking) (status : BookingStatus)
    → (p ≡ true → q ≡ true)
    → party_if p (record b { status = status }) ≤ℤ party_if q b
party_if_status true q b status h = rw (h refl) (omega arith)
party_if_status false true b status h = omega arith
party_if_status false false b status h = omega arith

-- A booking that was active if it is now takes no more room than before.
lighter_if_active :
    (now resource tenant x : ℕ) (b : Booking) (status : BookingStatus)
    → (active_for_capacity now (record b { status = status }) ≡ true
        → active_for_capacity now b ≡ true)
    → weight now resource tenant x (record b { status = status }) ≤ℤ weight now resource tenant x b
lighter_if_active now resource tenant x b status active =
    party_if_status (takes now resource tenant x (record b { status = status }))
      (takes now resource tenant x b) b status
      (and_left
        (b.resource == resource
          && b.tenant == tenant
          && active_for_capacity now (record b { status = status }))
        (b.resource == resource && b.tenant == tenant && active_for_capacity now b)
        (leb b.starts_at x && ltb x b.ends_at)
        (and_right (b.resource == resource && b.tenant == tenant)
          (active_for_capacity now (record b { status = status })) (active_for_capacity now b)
          active))

or_right : (a b : Bool) → b ≡ true → (a || b) ≡ true
or_right true b h = refl
or_right false b h = h

perform-IsWithinCapacity :
    (now tenant : ℕ) (op : Operation) (s : BookingStore)
    → IsWithinCapacity now s
    → IsWithinCapacity now (perform now tenant op s).1
unfolding confirm cancel mark_no_show_row
perform-IsWithinCapacity now tenant (holding id input) s within =
    request_hold_row-IsWithinCapacity id now tenant input s within
perform-IsWithinCapacity now tenant (confirming id) s within =
    answered-IsWithinCapacity now
      (λ b. is_booking id tenant b && (is_held b.status && ltb now b.hold_expires_at))
      (λ b. record b { status = confirmed })
      (λ resource t x b hit.
        lighter_if_active now resource t x b confirmed
          (λ _. or_right (is_confirmed b.status) _ ((and-eq-true_iff _ _).0 hit).1))
      s _ refl within
perform-IsWithinCapacity now tenant (cancelling id) s within =
    answered-IsWithinCapacity now
      (λ b. is_booking id tenant b && (is_held b.status || is_confirmed b.status))
      (λ b. record b { status = cancelled })
      (λ resource t x b hit. lighter_if_active now resource t x b cancelled (λ h. absurd cc)) s _
      refl within
perform-IsWithinCapacity now tenant (missing id) s within =
    answered-IsWithinCapacity now (λ b. is_booking id tenant b && is_confirmed b.status)
      (λ b. record b { status = no_show })
      (λ resource t x b hit. lighter_if_active now resource t x b no_show (λ h. absurd cc)) s _ refl
      within

-- However holds, confirmations, cancellations and no-shows of any tenants follow each other while
-- the clock goes on, at every point of it and for every instant asked about, the confirmed bookings
-- and unexpired holds of a resource bring no more people than its capacity, if that is so at first.
pub timeline-IsWithinCapacity :
    (now : ℕ) (calls : List Call) (s : BookingStore)
    → IsWithinCapacity now s
    → IsWithinCapacity (timeline now calls s).0 (timeline now calls s).1
unfolding timeline
timeline-IsWithinCapacity now [] s within = within
timeline-IsWithinCapacity now (c ∷ cs) s within =
    timeline-IsWithinCapacity (now + c.wait) cs (perform (now + c.wait) c.tenant c.operation s).1 (
      perform-IsWithinCapacity (now + c.wait) c.tenant c.operation s
        (still_within now (now + c.wait) s (omega arith) within))
