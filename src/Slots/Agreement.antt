-- ===== src/Slots/Agreement.antt =====
-- Whether slots/slots.service.ts offers what bookings/bookings.service.ts accepts.
use betti_coaching_calendar.Prelude.{
  ℕ, ◌+◌, ◌*◌, ◌≤◌, ◌<◌, ◌≡◌, refl, ◌∙◌, ap, Bool, true, false, leb, String, Option, List, [], ◌∷◌,
  keep, any, All, All-In, In, here, there, Bool-cases, inl, inr, arith,
}
use betti_coaching_calendar.Http.{ok}
use betti_coaching_calendar.Schema.{Db, Booking, is_confirmed}
use betti_coaching_calendar.Common.Luxon.{Zone, minute_ms, IsRegularUntil}
use betti_coaching_calendar.Availability.Ranges.{
  MinuteRange, fits, get_effective_ranges_for_date, is_within_effective_range,
}
use betti_coaching_calendar.Bookings.Slot.{overlaps, candidate_of, assert_slot_is_bookable}
use betti_coaching_calendar.Slots.{Slot, Offer, conflicts, slot_at, is_offered, is_existing}
use betti_coaching_calendar.Slots.Starts.{IsStart}
use betti_coaching_calendar.Slots.Offered.{IsDaySlot, offer_of}

any-In : {A : Type 0} (p : A → Bool) (xs : List A) (a : A) → In a xs → p a ≡ true → any p xs ≡ true
unfolding any
any-In p [] a i h = elim i [ ]
any-In p (x ∷ xs) a (here e) h = let q : p x ≡ true = rw e h in ground arith
any-In p (x ∷ xs) a (there i) h = let q = any-In p xs a i h in ground arith

any-false :
    {A : Type 0} (p : A → Bool) (xs : List A) → ((a : A) → In a xs → p a ≡ false) → any p xs ≡ false
unfolding any
any-false p [] h = refl
any-false p (x ∷ xs) h = ground (arith, h x (here refl), any-false p xs (λ a i. h a (there i)))

-- An active booking which shares an instant with the slot lies within the dates of the query.
abbrev pub IsSeen : Zone → ℕ → ℕ → ℕ → Slot → Booking → Type 0
IsSeen zone coach_id from to s b =
    b.coach_id ≡ coach_id
    → is_confirmed b.status ≡ true
    → conflicts s.start_at s.end_at b ≡ true
    → (zone.start_of_day from ≤ b.start_at) × (b.end_at ≤ zone.start_of_day (to + 1))

module _ (zone : Zone) (coach_id from to : ℕ) (exclude : Option ℕ) (s : Slot) where
  -- a booking that `create` refuses the slot for is one that the query for the slots finds
  found_if_overlaps :
      (b : Booking)
      → IsSeen zone coach_id from to s b
      → overlaps coach_id s.start_at s.end_at exclude b ≡ true
      → (is_existing zone coach_id from to exclude b ≡ true)
        × (conflicts s.start_at s.end_at b ≡ true)
  unfolding overlaps is_existing conflicts
  found_if_overlaps b h o =
      let (p, q) = h (ground arith) (ground arith) (ground arith) in ground arith

  any_tail :
      (b : Booking) (bs : List Booking)
      → any
          (conflicts s.start_at s.end_at)
          (keep (is_existing zone coach_id from to exclude) (b ∷ bs))
        ≡ false
      → any (conflicts s.start_at s.end_at) (keep (is_existing zone coach_id from to exclude) bs)
        ≡ false
  unfolding any keep
  any_tail b bs f = elim (Bool-cases (is_existing zone coach_id from to exclude b)) [
    | inl e ↦ let g = rw e at f in ground (arith, g)
    | inr e ↦ rw e at f
  ]

  any_head :
      (b : Booking) (bs : List Booking)
      → is_existing zone coach_id from to exclude b ≡ true
      → conflicts s.start_at s.end_at b ≡ true
      → any
          (conflicts s.start_at s.end_at)
          (keep (is_existing zone coach_id from to exclude) (b ∷ bs))
        ≡ true
  unfolding any keep
  any_head b bs e c = rw (e, c)

  no_overlap :
      (bs : List Booking)
      → All (IsSeen zone coach_id from to s) bs
      → any (conflicts s.start_at s.end_at) (keep (is_existing zone coach_id from to exclude) bs)
        ≡ false
      → any (overlaps coach_id s.start_at s.end_at exclude) bs ≡ false
  unfolding any
  no_overlap [] h f = refl
  no_overlap (b ∷ bs) (h, hs) f =
      elim (Bool-cases (overlaps coach_id s.start_at s.end_at exclude b)) [
        | inl o ↦ let (e, c) = found_if_overlaps b h o in cc (any_head b bs e c)
        | inr o ↦ rw o (no_overlap bs hs (any_tail b bs f))
      ]

module _ (zone : Zone) (day : ℕ) (regular : IsRegularUntil zone day 1440) (duration minute : ℕ)
    (positive : 0 < duration) (start_at end_at : ℕ) (start : start_at ≡ zone.at_minute day minute)
    (end : end_at ≡ start_at + duration * minute_ms) where
  -- On a regular day the minutes that are checked are those of the slot.
  candidate_regular :
      minute < 1440
      → candidate_of zone start_at end_at
        ≡ record { start_minute = minute; end_ms = (minute + duration) * minute_ms }
  unfolding candidate_of
  candidate_regular lt =
      ground (arith, regular.date minute lt, regular.wall minute lt, regular.elapsed minute lt)

-- What the two checks come to, in terms of their parts.
bookable :
    (seen db : Db) (zone : Zone) (coach_id start_at end_at : ℕ) (locale : String)
    (exclude : Option ℕ)
    → is_within_effective_range seen zone coach_id
        (zone.date_of start_at)
        (candidate_of zone start_at end_at)
      ≡ true
    → any (overlaps coach_id start_at end_at exclude) db.bookings ≡ false
    → assert_slot_is_bookable seen zone coach_id start_at end_at locale exclude db ≡ (ok tt, db)
unfolding assert_slot_is_bookable
bookable seen db zone coach_id start_at end_at locale exclude p q = rw (p, q)

offered-free :
    (offer : Offer) (s : Slot)
    → is_offered offer s ≡ true
    → any (conflicts s.start_at s.end_at) offer.existing ≡ false
unfolding is_offered
offered-free offer s h = ground arith

fits_regular :
    (range : MinuteRange) (duration minute : ℕ)
    → IsStart range.start_minute duration range.end_minute minute
    → fits (record { start_minute = minute; end_ms = (minute + duration) * minute_ms }) range ≡ true
unfolding fits
fits_regular range duration minute (k, e, room) =
    let starts : leb range.start_minute minute ≡ true = ground arith in
    let ends : leb ((minute + duration) * minute_ms) (range.end_minute * minute_ms) ≡ true =
      ground arith in
    rw (starts, ends)

scheduled :
    (db : Db) (offer : Offer) (day : ℕ) (s : Slot)
    → 0 < offer.duration
    → IsRegularUntil offer.zone day 1440
    → (d : IsDaySlot offer day (get_effective_ranges_for_date db offer.zone offer.coach_id day) s)
    → d.range.end_minute ≤ 1440
    → is_within_effective_range db offer.zone offer.coach_id
        (offer.zone.date_of s.start_at)
        (candidate_of offer.zone s.start_at s.end_at)
      ≡ true
unfolding is_within_effective_range slot_at
scheduled db offer day s positive regular d ends =
    let m : ℕ = d.minute in
    let lt : m < 1440 = omega (arith, d.aligned.2) in
    let start : s.start_at ≡ offer.zone.at_minute day m = ap (λ (x : Slot). x.start_at) d.slot in
    let end : s.end_at ≡ offer.zone.at_minute day m + offer.duration * minute_ms =
      ap (λ (x : Slot). x.end_at) d.slot in
    rw
      (
        candidate_regular offer.zone day regular offer.duration m positive s.start_at s.end_at start
            (end ∙ (rw start)) lt,
        start,
        regular.date m lt,
      )
      (any-In _ _ d.range d.listed (fits_regular d.range offer.duration m d.aligned))

-- A slot that is offered on a day without a change of daylight saving time, within a range that
-- ends by midnight, passes the check by which a booking is refused, on the same state of the
-- database, if no active booking that shares an instant with it reaches out of the queried dates.
pub offered_is_bookable :
    (db : Db) (zone : Zone) (coach_id duration cutoff from to : ℕ) (exclude : Option ℕ) (day : ℕ)
    (s : Slot) (locale : String)
    → 0 < duration
    → IsRegularUntil zone day 1440
    → All
        (λ (r : MinuteRange). r.end_minute ≤ 1440)
        (get_effective_ranges_for_date db zone coach_id day)
    → All (IsSeen zone coach_id from to s) db.bookings
    → IsDaySlot
        (offer_of db zone coach_id duration cutoff from to exclude)
        day
        (get_effective_ranges_for_date db zone coach_id day)
        s
    → assert_slot_is_bookable db zone coach_id s.start_at s.end_at locale exclude db ≡ (ok tt, db)
offered_is_bookable db zone coach_id duration cutoff from to exclude day s locale positive regular
      ends seen d =
    bookable db db zone coach_id s.start_at s.end_at locale exclude
      (scheduled db (offer_of db zone coach_id duration cutoff from to exclude) day s positive
        regular d (All-In _ d.range _ ends d.listed))
      (no_overlap zone coach_id from to exclude s db.bookings seen (offered-free _ s d.offered))
