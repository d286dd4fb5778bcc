-- ===== src/Booking/Capacity.antt =====
-- How many people a resource holds at an instant.
use mathlib.Core.Path.{subst, subst₂}
use solodesk.Prelude.{
  ℕ, ◌≤◌, ◌<◌, Bool, true, false, ◌&&◌, Option, none, some, List, [], ◌∷◌, ◌==◌, ltb, leb, ◌≡◌,
  refl, ◌∙◌, ap, sym, arith, inl, inr, Bool-cases,
}
use solodesk.Prelude.Int.{ℤ, pos, ◌+ℤ◌, ◌≤ℤ◌, ltb_ℤ, int_laws, parts_of_eq}
use solodesk.Prelude.Tables.{Update, unchanged, changed, update_first, total, update_first-Updated}
use solodesk.Booking.{
  Booking, Resource, BookingStore, RequestHoldInput, active_for_capacity, find_resource, overlaps,
  party_if, used, new_booking, booking_checks, insert_booking, hold_within, request_hold_row,
  answered,
}

-- Whether a booking takes room of a resource at instant x.
abbrev pub takes : ℕ → ℕ → ℕ → ℕ → Booking → Bool
takes now resource tenant x b =
    (b.resource == resource && b.tenant == tenant && active_for_capacity now b)
    && (leb b.starts_at x && ltb x b.ends_at)

abbrev pub weight : ℕ → ℕ → ℕ → ℕ → Booking → ℤ
weight now resource tenant x b = party_if (takes now resource tenant x b) b

-- The people whom the resource's active bookings bring at instant x.
abbrev pub occupied : ℕ → ℕ → ℕ → ℕ → BookingStore → ℤ
occupied now resource tenant x s = total (weight now resource tenant x) s.bookings

-- By the clock `now`, no resource is ever over its capacity.
abbrev pub IsWithinCapacity : ℕ → BookingStore → Type 0
IsWithinCapacity now s =
    (resource tenant x : ℕ) (r : Resource)
    → find_resource resource tenant s ≡ some r
    → occupied now resource tenant x s ≤ℤ pos r.capacity

some_injective : {r r' : Resource} → some r ≡ some r' → r ≡ r'
some_injective e = cc

not_above : (a b : ℤ) → ltb_ℤ a b ≡ false → b ≤ℤ a
not_above a b h = ground arith

total_le :
    (f g : Booking → ℤ)
    → ((b : Booking) → f b ≤ℤ g b)
    → (bs : List Booking) → total f bs ≤ℤ total g bs
total_le f g h [] = omega arith
total_le f g h (b ∷ bs) = omega (int_laws, h b, total_le f g h bs)

pub party_if_le : (p q : Bool) (b : Booking) → (p ≡ true → q ≡ true) → party_if p b ≤ℤ party_if q b
party_if_le true q b h = rw (h refl) (omega arith)
party_if_le false true b h = omega arith
party_if_le false false b h = omega arith

pub and_right : (a b c : Bool) → (b ≡ true → c ≡ true) → (a && b) ≡ true → (a && c) ≡ true
and_right true b c f h = f h
and_right false b c f h = h

pub and_left : (a b c : Bool) → (a ≡ true → b ≡ true) → (a && c) ≡ true → (b && c) ≡ true
and_left true b c f h = rw (f refl) h
and_left false b c f h = absurd cc

-- Whoever is there at an instant of a window overlaps the window.
takes-overlaps :
    (now resource tenant x starts_at ends_at : ℕ) (b : Booking)
    → starts_at ≤ x
    → x < ends_at
    → takes now resource tenant x b ≡ true
    → overlaps now resource tenant starts_at ends_at b ≡ true
takes-overlaps now resource tenant x starts_at ends_at b from to h =
    and_right (b.resource == resource && b.tenant == tenant && active_for_capacity now b)
      (leb b.starts_at x && ltb x b.ends_at) (ltb b.starts_at ends_at && ltb starts_at b.ends_at)
      (λ k. ground (arith, k, from, to)) h

occupied-used :
    (now tenant x : ℕ) (input : RequestHoldInput) (s : BookingStore)
    → input.starts_at ≤ x
    → x < input.ends_at
    → occupied now input.resource tenant x s ≤ℤ used now tenant input s
unfolding used
occupied-used now tenant x input s from to =
    total_le _ _
      (λ b.
        party_if_le (takes now input.resource tenant x b)
          (overlaps now input.resource tenant input.starts_at input.ends_at b) b
          (takes-overlaps now input.resource tenant x input.starts_at input.ends_at b from to))
      s.bookings

-- As time passes holds expire, and nobody comes.
takes_later :
    (now later resource tenant x : ℕ) (b : Booking)
    → now ≤ later
    → takes later resource tenant x b ≡ true
    → takes now resource tenant x b ≡ true
takes_later now later resource tenant x b h k = ground (arith, h, k)

pub still_within :
    (now later : ℕ) (s : BookingStore)
    → now ≤ later
    → IsWithinCapacity now s
    → IsWithinCapacity later s
still_within now later s h within resource tenant x r found =
    let fewer : occupied later resource tenant x s ≤ℤ occupied now resource tenant x s =
      total_le _ _
        (λ b.
          party_if_le (takes later resource tenant x b) (takes now resource tenant x b) b
            (takes_later now later resource tenant x b h))
        s.bookings in
    omega (arith, fewer, within resource tenant x r found)

module _ (now : ℕ) (p : Booking → Bool) (f : Booking → Booking)
    (lighter : (resource tenant x : ℕ) (b : Booking)
      → p b ≡ true
      → weight now resource tenant x (f b) ≤ℤ weight now resource tenant x b) where
  pub answered-IsWithinCapacity :
      (s : BookingStore) (u : Update Booking)
      → update_first p f s.bookings ≡ u
      → IsWithinCapacity now s
      → IsWithinCapacity now (answered u s).1
  unfolding find_resource
  answered-IsWithinCapacity s unchanged e within resource tenant x r found =
      within resource tenant x r found
  answered-IsWithinCapacity s (changed row rows) e within resource tenant x r found =
      let u = update_first-Updated p f s.bookings e in
      let moved = parts_of_eq (u.moved (weight now resource tenant x)) in
      let new = parts_of_eq (ap (weight now resource tenant x) u.new) in
      omega (
        int_laws,
        moved,
        new,
        lighter resource tenant x u.old u.hit,
        within resource tenant x r found,
      )

module _ (id now tenant : ℕ) (input : RequestHoldInput) (s : BookingStore)
    (within : IsWithinCapacity now s) where
  abbrev booking : Booking
  booking = new_booking id now tenant input

  abbrev grown : BookingStore
  grown = record s { bookings = booking ∷ s.bookings }

  -- Where the new booking takes room, and when.
  takes-new_booking :
      (resource t x : ℕ)
      → takes now resource t x booking ≡ true
      → (input.resource ≡ resource) × (tenant ≡ t) × (input.starts_at ≤ x) × (x < input.ends_at)
  takes-new_booking resource t x h =
      (ground (arith, h), ground (arith, h), ground (arith, h), ground (arith, h))

  grown_where_taken :
      (x : ℕ) (r : Resource)
      → used now tenant input s +ℤ pos booking.party_size ≤ℤ pos r.capacity
      → input.starts_at ≤ x
      → x < input.ends_at
      → weight now input.resource tenant x booking +ℤ occupied now input.resource tenant x s
        ≤ℤ pos r.capacity
  grown_where_taken x r room from to = omega (
    int_laws,
    room,
    occupied-used now tenant x input s from to,
    party_if_le (takes now input.resource tenant x booking) true booking (λ _. refl),
  )

  weight_none :
      (resource t x : ℕ)
      → takes now resource t x booking ≡ false
      → weight now resource t x booking ≡ pos 0
  weight_none resource t x miss = ap (λ b. party_if b booking) miss

  grown-IsWithinCapacity :
      (r : Resource)
      → find_resource input.resource tenant s ≡ some r
      → used now tenant input s +ℤ pos booking.party_size ≤ℤ pos r.capacity
      → IsWithinCapacity now grown
  unfolding find_resource
  grown-IsWithinCapacity r found room resource t x r' found' =
      elim (Bool-cases (takes now resource t x booking)) [
        | inl hit ↦
            let (same_resource, same_tenant, from, to) = takes-new_booking resource t x hit in
            let here : find_resource input.resource tenant s ≡ some r' =
              subst₂ (λ a b. find_resource a b s ≡ some r') (sym same_resource) (sym same_tenant)
                found' in
            let one : r ≡ r' = some_injective (sym found ∙ here) in
            subst₂ (λ a b. occupied now a b x grown ≤ℤ pos r'.capacity) same_resource same_tenant
              (grown_where_taken x r'
                (subst (λ r. used now tenant input s +ℤ pos booking.party_size ≤ℤ pos r.capacity)
                  one room)
                from to)
        | inr miss ↦
            omega
              (int_laws, parts_of_eq (weight_none resource t x miss), within resource t x r' found')
      ]

  inserted-IsWithinCapacity :
      (r : Resource)
      → find_resource input.resource tenant s ≡ some r
      → used now tenant input s +ℤ pos booking.party_size ≤ℤ pos r.capacity
      → IsWithinCapacity now (insert_booking booking s).1
  inserted-IsWithinCapacity r found room = elim (Bool-cases (booking_checks booking)) [
    | inl fine ↦ rw fine (grown-IsWithinCapacity r found room)
    | inr bad ↦ rw bad within
  ]

  hold_within-IsWithinCapacity :
      (o : Option Resource)
      → find_resource input.resource tenant s ≡ o
      → IsWithinCapacity now (hold_within id now tenant input o s).1
  hold_within-IsWithinCapacity none found = within
  hold_within-IsWithinCapacity (some r) found =
      elim (Bool-cases
        (ltb_ℤ (pos r.capacity) (used now tenant input s +ℤ pos booking.party_size))) [
          | inl full ↦ rw full within
          | inr room ↦ rw room (
              inserted-IsWithinCapacity r found (
                not_above (pos r.capacity) (used now tenant input s +ℤ pos booking.party_size)
                  room))
        ]

  pub request_hold_row-IsWithinCapacity :
      IsWithinCapacity now (request_hold_row id now tenant input s).1
  unfolding request_hold_row
  request_hold_row-IsWithinCapacity =
      hold_within-IsWithinCapacity (find_resource input.resource tenant s) refl
