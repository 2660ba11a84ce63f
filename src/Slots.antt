-- ===== src/Slots.antt =====
-- slots/slots.service.ts: the slots that a client is offered.
pub mod Starts
pub mod Rounds
pub mod Offered
pub mod Listed
pub mod Agreement
use betti_coaching_calendar.Prelude.{
  ℕ, zero, suc, ◌+◌, ◌-◌, ◌*◌, Bool, true, false, not, ◌&&◌, ◌||◌, ◌==◌, ltb, leb, String, Option,
  none, some, List, [], ◌∷◌, ◌++◌, find, keep, any, get_or, if◌then◌else◌,
}
use betti_coaching_calendar.Http.{Error, translated, bad_request, not_found, Result, ok, err}
use betti_coaching_calendar.Action.{Action, pure, throw_if, find_or_throw, gets, ◌>>=◌, ◌>>◌}
use betti_coaching_calendar.Schema.{Db, Booking, EventType, is_confirmed}
use betti_coaching_calendar.World.{World, Env, on_db}
use betti_coaching_calendar.Common.Luxon.{Luxon, Zone, minute_ms, hour_ms}
use betti_coaching_calendar.Settings
use betti_coaching_calendar.Availability.Ranges.{
  MinuteRange, NumMap, get, get_effective_ranges_for_date_range,
}
use betti_coaching_calendar.Bookings.Slot.{is_excluded}

-- `QuerySlotsDto`
pub record QuerySlotsDto : Type 0 where
  pub event_type_id : ℕ
  pub from : String
  pub to : String
  pub exclude_booking_id : Option ℕ

pub record Slot : Type 0 where
  pub coach_id : ℕ
  pub start_at : ℕ
  pub end_at : ℕ

abbrev pub max_range_days : ℕ
max_range_days = 90

-- The start minutes of the innermost loop, which adds `duration` while the slot ends within the
-- range. The code has no bound on its rounds; `range_slots` gives one that is enough.
unfoldable pub slot_starts : ℕ → ℕ → ℕ → ℕ → List ℕ
slot_starts zero start_minute duration end_minute = []
slot_starts (suc rounds) start_minute duration end_minute =
    let rest = slot_starts rounds (start_minute + duration) duration end_minute in
    if leb (start_minute + duration) end_minute then start_minute ∷ rest else []

-- what the loops share
pub record Offer : Type 0 where
  pub zone : Zone
  pub coach_id : ℕ
  pub duration : ℕ
  pub cutoff : ℕ
  pub existing : List Booking

-- `booking.startAt < endAt && booking.endAt > startAt`
unfoldable pub conflicts : ℕ → ℕ → Booking → Bool
conflicts start_at end_at b = ltb b.start_at end_at && ltb start_at b.end_at

unfoldable pub slot_at : Offer → ℕ → ℕ → Slot
slot_at offer day minute =
    let start_at = offer.zone.at_minute day minute in
    record {
      coach_id = offer.coach_id;
      start_at = start_at;
      end_at = start_at + offer.duration * minute_ms;
    }

-- neither of the two `continue`s is taken
unfoldable pub is_offered : Offer → Slot → Bool
is_offered offer slot =
    not (ltb slot.start_at offer.cutoff)
    && not (any (conflicts slot.start_at slot.end_at) offer.existing)

-- the body of the innermost loop for each start minute
unfoldable pub offered_slots : Offer → ℕ → List ℕ → List Slot
offered_slots offer day [] = []
offered_slots offer day (m ∷ ms) =
    let rest = offered_slots offer day ms in
    let slot = slot_at offer day m in if is_offered offer slot then slot ∷ rest else rest

unfoldable pub range_slots : Offer → ℕ → MinuteRange → List Slot
range_slots offer day range =
    offered_slots offer day
      (slot_starts (suc range.end_minute) range.start_minute offer.duration range.end_minute)

unfoldable pub day_slots : Offer → ℕ → List MinuteRange → List Slot
day_slots offer day [] = []
day_slots offer day (range ∷ ranges) = range_slots offer day range ++ day_slots offer day ranges

-- the loop over `rounds` days from `day`
unfoldable pub all_slots : Offer → NumMap (List MinuteRange) → ℕ → ℕ → List Slot
all_slots offer ranges zero day = []
all_slots offer ranges (suc rounds) day =
    day_slots offer day (get_or (get day ranges) []) ++ all_slots offer ranges rounds (day + 1)

-- the `where` of the query for the active bookings within the dates
unfoldable pub is_existing : Zone → ℕ → ℕ → ℕ → Option ℕ → Booking → Bool
is_existing zone coach_id from to exclude b =
    b.coach_id == coach_id
    && is_confirmed b.status
    && not (is_excluded exclude b)
    && leb (zone.start_of_day from) b.start_at
    && leb b.end_at (zone.start_of_day (to + 1))

-- the loops, on one state of the database
unfoldable pub slots_between : Db → Zone → ℕ → ℕ → ℕ → ℕ → ℕ → Option ℕ → List Slot
slots_between db zone coach_id duration cutoff from to exclude =
    let offer : Offer = record {
      zone = zone;
      coach_id = coach_id;
      duration = duration;
      cutoff = cutoff;
      existing = keep (is_existing zone coach_id from to exclude) db.bookings;
    } in
    all_slots offer (get_effective_ranges_for_date_range db zone coach_id from to) (to + 1 - from)
      from

module _ (luxon : Luxon) (env : Env) where
  unfoldable pub compute_slots : QuerySlotsDto → Action World (List Slot)
  compute_slots query = do
    event_type ←
        find_or_throw (λ w. find (λ (e : EventType). e.id == query.event_type_id) w.db.event_types)
          (not_found (translated "errors.eventTypeNotFound" none []))
    throw_if (not event_type.is_active) (not_found (translated "errors.eventTypeNotFound" none []))
    settings ← on_db (Settings.get event_type.coach_id)
    let zone : Zone = luxon.zone settings.business_timezone
    from ←
        find_or_throw (λ _. zone.from_iso_date query.from)
          (bad_request (translated "errors.invalidDateRange" none []))
    to ←
        find_or_throw (λ _. zone.from_iso_date query.to)
          (bad_request (translated "errors.invalidDateRange" none []))
    throw_if (ltb to from) (bad_request (translated "errors.invalidDateRange" none []))
    throw_if (ltb max_range_days (to - from))
        (bad_request (translated "errors.rangeTooLong" none (("days", max_range_days) ∷ [])))
    gets (λ w.
        slots_between w.db zone event_type.coach_id event_type.duration_minutes
          (env.now + settings.cancellation_notice_hours * hour_ms) from to query.exclude_booking_id)
