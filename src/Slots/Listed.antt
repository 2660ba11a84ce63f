-- ===== src/Slots/Listed.antt =====
-- Which slots slots/slots.service.ts offers, in terms of the schedule, the cutoff and the table of
-- bookings.
use betti_coaching_calendar.Prelude.{
  ℕ, ◌+◌, ◌*◌, ◌≤◌, ◌<◌, ◌≡◌, ◌⊎◌, ◌↔◌, refl, ap, true, false, ◌==◌, Bool, Bool-cases, inl, inr,
  Option, none, some, List, [], ◌∷◌, In, here, there, any, any-eq-false, keep, All-In, arith,
}
use betti_coaching_calendar.Schema.{Db, Booking, is_confirmed}
use betti_coaching_calendar.Common.Luxon.{Zone}
use betti_coaching_calendar.Bookings.Slot.{is_excluded}
use betti_coaching_calendar.Availability.Ranges.{MinuteRange, get_effective_ranges_for_date}
use betti_coaching_calendar.Slots.Offered.{IsDaySlot, offer_of, slots_between-IsDaySlot}
use betti_coaching_calendar.Slots.{Slot, slot_at, is_offered, conflicts, is_existing, slots_between}

-- One ends before the other starts, or when it does.
abbrev pub IsApart : Slot → Booking → Type 0
IsApart s b = (b.end_at ≤ s.start_at) ⊎ (s.end_at ≤ b.start_at)

-- A slot of a date, in the coach's name, that keeps clear of the cutoff and of the active bookings
-- between the queried dates; a booking that is being moved, if it is named by an identifier other
-- than 0, which is no identifier, does not count.
pub record IsOpen (db : Db) (zone : Zone) (coach_id duration cutoff from to : ℕ)
    (exclude : Option ℕ) (day : ℕ) (s : Slot) : Type 0 where
  pub range : MinuteRange
  pub listed : In range (get_effective_ranges_for_date db zone coach_id day)
  pub minute : ℕ
  pub rank : ℕ
  pub aligned : minute ≡ range.start_minute + rank * duration
  pub within : minute + duration ≤ range.end_minute
  pub coach : s.coach_id ≡ coach_id
  pub start : s.start_at ≡ zone.at_minute day minute
  pub end : s.end_at ≡ s.start_at + duration * 60000
  pub in_time : cutoff ≤ s.start_at
  pub free :
      (b : Booking)
      → In b db.bookings
      → b.coach_id ≡ coach_id
      → is_confirmed b.status ≡ true
      → (exclude ≡ some b.id → b.id ≡ 0)
      → zone.start_of_day from ≤ b.start_at
      → b.end_at ≤ zone.start_of_day (to + 1)
      → IsApart s b

excluded-eq-false :
    (exclude : Option ℕ) (b : Booking)
    → (exclude ≡ some b.id → b.id ≡ 0)
    → is_excluded exclude b ≡ false
excluded-eq-false none b h = refl
excluded-eq-false (some i) b h = elim (Bool-cases (b.id == i)) [
  | inl e ↦ let same : i ≡ b.id = ground arith in let zero_id = h (rw same refl) in ground arith
  | inr e ↦ ground arith
]

excluded-named :
    (exclude : Option ℕ) (b : Booking)
    → is_excluded exclude b ≡ false
    → exclude ≡ some b.id
    → b.id ≡ 0
excluded-named none b h e = cc
excluded-named (some i) b h e = let same : i ≡ b.id = ground (arith, e) in ground (arith, same, h)

In-keep :
    (p : Booking → Bool) (b : Booking) (bs : List Booking) → In b bs → p b ≡ true → In b (keep p bs)
unfolding keep
In-keep p b [] i h = elim i [ ]
In-keep p b (x ∷ bs) (here e) h = let k : p x ≡ true = rw e h in rw k (here e)
In-keep p b (x ∷ bs) (there i) h = elim (Bool-cases (p x)) [
  | inl k ↦ rw k (there (In-keep p b bs i h))
  | inr k ↦ rw k (In-keep p b bs i h)
]

slot-eq :
    (s : Slot) (coach_id start_at length : ℕ)
    → s.coach_id ≡ coach_id
    → s.start_at ≡ start_at
    → s.end_at ≡ s.start_at + length
    → s ≡ record { coach_id = coach_id; start_at = start_at; end_at = start_at + length }
slot-eq s coach_id start_at length c a e = rw (← c, ← a, ← e) refl

-- no row of those that are kept passes the second test
none-kept :
    (p q : Booking → Bool) (bs : List Booking)
    → ((b : Booking) → In b bs → p b ≡ true → q b ≡ false)
    → any q (keep p bs) ≡ false
unfolding any keep
none-kept p q [] h = refl
none-kept p q (b ∷ bs) h = elim (Bool-cases (p b)) [
  | inl k ↦ rw (k, h b (here refl) k) (none-kept p q bs (λ c i. h c (there i)))
  | inr k ↦ rw k (none-kept p q bs (λ c i. h c (there i)))
]

module _ (db : Db) (zone : Zone) (coach_id duration cutoff from to : ℕ) (exclude : Option ℕ) where
  abbrev IsCounted : Booking → Type 0
  IsCounted b = is_existing zone coach_id from to exclude b ≡ true

  counted :
      (b : Booking)
      → b.coach_id ≡ coach_id
      → is_confirmed b.status ≡ true
      → is_excluded exclude b ≡ false
      → zone.start_of_day from ≤ b.start_at
      → b.end_at ≤ zone.start_of_day (to + 1)
      → IsCounted b
  unfolding is_existing
  counted b c p x l r = rw x (ground arith)

  apart-eq-false : (s : Slot) (b : Booking) → IsApart s b → conflicts s.start_at s.end_at b ≡ false
  unfolding conflicts
  apart-eq-false s b h = ground arith

  IsApart-conflicts :
      (s : Slot) (b : Booking) → conflicts s.start_at s.end_at b ≡ false → IsApart s b
  unfolding conflicts
  IsApart-conflicts s b h = ground arith

  free-no_conflict :
      (day : ℕ) (s : Slot)
      → IsOpen db zone coach_id duration cutoff from to exclude day s
      → (b : Booking) → In b db.bookings
      → IsCounted b
      → conflicts s.start_at s.end_at b ≡ false
  unfolding is_existing
  free-no_conflict day s h b i k =
      let named : is_excluded exclude b ≡ false = ground arith in
      apart-eq-false s b (
        h.free b i (ground arith) (ground arith) (excluded-named exclude b named) (ground arith)
          (ground arith))

  opened :
      (day : ℕ) (s : Slot)
      → IsDaySlot
          (offer_of db zone coach_id duration cutoff from to exclude)
          day
          (get_effective_ranges_for_date db zone coach_id day)
          s
      → IsOpen db zone coach_id duration cutoff from to exclude day s
  unfolding slot_at is_offered
  opened day s d =
      let (rank, aligned, within) = d.aligned in
      let slot = d.slot in
      let offered = d.offered in
      let quiet : any (conflicts s.start_at s.end_at)
            (keep (is_existing zone coach_id from to exclude) db.bookings)
          ≡ false =
        ground arith in
      record {
        range = d.range;
        listed = d.listed;
        minute = d.minute;
        rank = rank;
        aligned = aligned;
        within = within;
        coach = ap (λ (x : Slot). x.coach_id) slot;
        start = ap (λ (x : Slot). x.start_at) slot;
        end = rw slot refl;
        in_time = ground arith;
        free = λ b i c p x l r. IsApart-conflicts s b (
            All-In _ b _ (any-eq-false _ _ quiet)
              (In-keep _ b db.bookings i (counted b c p (excluded-eq-false exclude b x) l r)));
      }

  closed :
      (day : ℕ) (s : Slot)
      → IsOpen db zone coach_id duration cutoff from to exclude day s
      → IsDaySlot
          (offer_of db zone coach_id duration cutoff from to exclude)
          day
          (get_effective_ranges_for_date db zone coach_id day)
          s
  unfolding slot_at is_offered
  closed day s h =
      let quiet =
        none-kept _ (conflicts s.start_at s.end_at) db.bookings (free-no_conflict day s h) in
      let in_time = h.in_time in
      record {
        range = h.range;
        listed = h.listed;
        minute = h.minute;
        aligned = (h.rank, h.aligned, h.within);
        slot =
            slot-eq s coach_id (zone.at_minute day h.minute) (duration * 60000) h.coach h.start
              h.end;
        offered = rw quiet (ground arith);
      }

  -- A slot is offered exactly when, on a date of the queried range, it starts a whole number of
  -- durations into one of the ranges which the coach's schedule has for that date, ends within that
  -- range, does not start before the cutoff and shares no instant with an active booking of the
  -- coach that lies within the queried dates, other than the one that is being moved. The queried
  -- range is not empty, and the duration positive, as every event type's is.
  pub slots_between_iff :
      from ≤ to
      → 0 < duration
      → (s : Slot)
      → In s (slots_between db zone coach_id duration cutoff from to exclude) ↔ (
          (d : ℕ) × (from ≤ d)
          × (d ≤ to)
          × IsOpen db zone coach_id duration cutoff from to exclude d s)
  slots_between_iff ordered positive s =
      let (sound, complete) =
        slots_between-IsDaySlot db zone coach_id duration cutoff from to exclude ordered positive
          s in
      (
        λ i. let (d, p, q, x) = sound i in (d, p, q, opened d s x),
        λ (d, p, q, x). complete (d, p, q, closed d s x),
      )
