-- ===== src/Slots/Offered.antt =====
-- Which slots are offered: exactly those which the schedule, the notice window and the active
-- bookings leave.
use betti_coaching_calendar.Prelude.{
  ℕ, zero, suc, ◌+◌, ◌-◌, ◌≤◌, ◌<◌, ◌≡◌, ◌↔◌, inl, inr, refl, true, Option, List, [], ◌∷◌, keep,
  get_or, In, here, there, In-append, In-append_left, In-append_right, ℕ_discrete, arith,
}
use betti_coaching_calendar.Schema.{Db}
use betti_coaching_calendar.Common.Luxon.{Zone}
use betti_coaching_calendar.Availability.Ranges.{
  MinuteRange, NumMap, get, get_effective_ranges_for_date, get_effective_ranges_for_date_range,
}
use betti_coaching_calendar.Availability.RangeLaws.{get-date_range}
use betti_coaching_calendar.Slots.Starts.{
  IsStart, slot_starts_sound, slot_starts_complete, offered_slots_sound, offered_slots_complete,
}
use betti_coaching_calendar.Slots.{
  Slot, Offer, slot_at, is_offered, range_slots, day_slots, all_slots, is_existing, slots_between,
}

-- A slot of the day: it starts a whole number of durations into a range, ends within it, and is
-- neither before the cutoff nor in conflict with an active booking.
pub record IsDaySlot (offer : Offer) (day : ℕ) (ranges : List MinuteRange) (s : Slot) : Type 0 where
  pub range : MinuteRange
  pub listed : In range ranges
  pub minute : ℕ
  pub aligned : IsStart range.start_minute offer.duration range.end_minute minute
  pub slot : s ≡ slot_at offer day minute
  pub offered : is_offered offer s ≡ true

module _ (offer : Offer) (day : ℕ) (s : Slot) where
  range_slots_sound :
      (range : MinuteRange) (ranges : List MinuteRange)
      → In range ranges
      → In s (range_slots offer day range)
      → IsDaySlot offer day ranges s
  unfolding range_slots
  range_slots_sound range ranges listed i =
      let (m, n, e, o) = offered_slots_sound offer day s _ i in
      record {
        range = range;
        listed = listed;
        minute = m;
        aligned = slot_starts_sound _ range.start_minute offer.duration range.end_minute m n;
        slot = e;
        offered = o;
      }

  day_slots_sound :
      (ranges : List MinuteRange) → In s (day_slots offer day ranges) → IsDaySlot offer day ranges s
  unfolding day_slots
  day_slots_sound [] i = elim i [ ]
  day_slots_sound (range ∷ ranges) i = elim (In-append s (range_slots offer day range) _ i) [
    | inl j ↦ range_slots_sound range (range ∷ ranges) (here refl) j
    | inr j ↦
        let d = day_slots_sound ranges j in
        record {
          range = d.range;
          listed = there d.listed;
          minute = d.minute;
          aligned = d.aligned;
          slot = d.slot;
          offered = d.offered;
        }
  ]

  module _ (positive : 0 < offer.duration) where
    range_slots_complete :
        (range : MinuteRange) (m : ℕ)
        → IsStart range.start_minute offer.duration range.end_minute m
        → s ≡ slot_at offer day m
        → is_offered offer s ≡ true
        → In s (range_slots offer day range)
    unfolding range_slots
    range_slots_complete range m (k, e, fits) same ok =
        offered_slots_complete offer day s _ m
          (slot_starts_complete (suc range.end_minute) range.start_minute offer.duration
            range.end_minute k m positive (omega arith) e fits)
          same ok

    In-ranges :
        (ranges : List MinuteRange) (range : MinuteRange)
        → In range ranges
        → In s (range_slots offer day range)
        → In s (day_slots offer day ranges)
    unfolding day_slots
    In-ranges [] range i j = elim i [ ]
    In-ranges (r ∷ ranges) range (here e) j = In-append_left s (range_slots offer day r) _ (rw e j)
    In-ranges (r ∷ ranges) range (there i) j =
        In-append_right s (range_slots offer day r) _ (In-ranges ranges range i j)

    day_slots_complete :
        (ranges : List MinuteRange)
        → IsDaySlot offer day ranges s
        → In s (day_slots offer day ranges)
    day_slots_complete ranges d =
        In-ranges ranges d.range d.listed
          (range_slots_complete d.range d.minute d.aligned d.slot d.offered)

module _ (offer : Offer) (ranges : NumMap (List MinuteRange)) (s : Slot) where
  abbrev of_day : ℕ → List MinuteRange
  of_day day = get_or (get day ranges) []

  all_slots_sound :
      (rounds day : ℕ)
      → In s (all_slots offer ranges rounds day)
      → (d : ℕ) × (day ≤ d) × (d < day + rounds) × IsDaySlot offer d (of_day d) s
  unfolding all_slots
  all_slots_sound zero day i = elim i [ ]
  all_slots_sound (suc rounds) day i = elim (In-append s (day_slots offer day (of_day day)) _ i) [
    | inl j ↦ (day, omega arith, omega arith, day_slots_sound offer day s (of_day day) j)
    | inr j ↦
        let (d, p, q, x) = all_slots_sound rounds (day + 1) j in (d, omega arith, omega arith, x)
  ]

  all_slots_complete :
      (rounds day d : ℕ)
      → 0 < offer.duration
      → day ≤ d
      → d < day + rounds
      → IsDaySlot offer d (of_day d) s
      → In s (all_slots offer ranges rounds day)
  unfolding all_slots
  all_slots_complete zero day d pos p q x = absurd (omega arith)
  all_slots_complete (suc rounds) day d pos p q x = elim (ℕ_discrete day d) [
    | yes e ↦
        In-append_left s (day_slots offer day (of_day day)) _
          (rw e (day_slots_complete offer d s pos (of_day d) x))
    | no ne ↦
        In-append_right s (day_slots offer day (of_day day)) _
          (all_slots_complete rounds (day + 1) d pos (omega arith) (omega arith) x)
  ]

-- What the loops share in `slots_between`.
abbrev pub offer_of : Db → Zone → ℕ → ℕ → ℕ → ℕ → ℕ → Option ℕ → Offer
offer_of db zone coach_id duration cutoff from to exclude = record {
  zone = zone;
  coach_id = coach_id;
  duration = duration;
  cutoff = cutoff;
  existing = keep (is_existing zone coach_id from to exclude) db.bookings;
}

module _ (db : Db) (zone : Zone) (coach_id duration cutoff from to : ℕ) (exclude : Option ℕ)
    (ordered : from ≤ to) (positive : 0 < duration) where
  ranges_of-day :
      (d : ℕ)
      → from ≤ d
      → d < from + (to + 1 - from)
      → get_or (get d (get_effective_ranges_for_date_range db zone coach_id from to)) []
        ≡ get_effective_ranges_for_date db zone coach_id d
  ranges_of-day d p q = ground (arith, get-date_range db zone coach_id from to d)

  -- The offered slots are those of the days, as the loops test them.
  pub slots_between-IsDaySlot :
      (s : Slot)
      → In s (slots_between db zone coach_id duration cutoff from to exclude) ↔ (
          (d : ℕ) × (from ≤ d)
          × (d ≤ to)
          × IsDaySlot
              (offer_of db zone coach_id duration cutoff from to exclude)
              d
              (get_effective_ranges_for_date db zone coach_id d)
              s)
  unfolding slots_between
  slots_between-IsDaySlot s =
      let offer : Offer = offer_of db zone coach_id duration cutoff from to exclude in
      let ranges = get_effective_ranges_for_date_range db zone coach_id from to in
      let rounds : ℕ = to + 1 - from in
      (
        λ i.
            let (d, p, q, x) = all_slots_sound offer ranges s rounds from i in
            (d, p, omega arith, rw (ranges_of-day d p q) at x),
        λ (d, p, q, x).
            let last : d < from + rounds = omega arith in
            all_slots_complete offer ranges s rounds from d positive p last
              (rw (ranges_of-day d p last) x),
      )
