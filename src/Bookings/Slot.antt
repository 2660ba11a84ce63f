-- ===== src/Bookings/Slot.antt =====
-- bookings/bookings.service.ts: the checks on the time of a booking and the two writes that
-- reserve it, which run in one transaction.
use betti_coaching_calendar.Prelude.{
  ℕ, ◌-◌, Bool, not, ◌&&◌, ◌||◌, ◌==◌, ltb, String, Option, none, some, [], ◌∷◌, ◌++◌, find, any,
  get_or, update_where,
}
use betti_coaching_calendar.Http.{Message, translated, bad_request, conflict, prisma_error}
use betti_coaching_calendar.Action.{
  Action, pure, throw_if, throw_when, find_or_throw, modify, ◌>>=◌, ◌>>◌,
}
use betti_coaching_calendar.Schema.{Db, Booking, is_confirmed, truthy}
use betti_coaching_calendar.Common.Luxon.{Zone}
use betti_coaching_calendar.Availability.Ranges.{Candidate, is_within_effective_range}

-- `i18n.t(key, locale)`
abbrev pub t : String → String → Message
t key locale = translated key (some locale) []

-- `id: excludeBookingId ? { not: excludeBookingId } : undefined`
abbrev pub is_excluded : Option ℕ → Booking → Bool
is_excluded exclude b = truthy exclude && b.id == get_or exclude 0

-- the `where` of the query for an overlapping booking
unfoldable pub overlaps : ℕ → ℕ → ℕ → Option ℕ → Booking → Bool
overlaps coach_id start_at end_at exclude b =
    b.coach_id == coach_id
    && is_confirmed b.status
    && not (is_excluded exclude b)
    && ltb b.start_at end_at
    && ltb start_at b.end_at

-- the minutes of the day that the booking would take, as the code computes them: the start by the
-- wall clock, the end by the time that has passed since midnight
unfoldable pub candidate_of : Zone → ℕ → ℕ → Candidate
candidate_of zone start_at end_at = record {
  start_minute = zone.minute_of start_at;
  end_ms = end_at - zone.start_of_day (zone.date_of start_at);
}

-- `seen` is the database as the plain client reads it, by which the schedule is checked; the query
-- for an overlap reads the transaction's own.
unfoldable pub assert_slot_is_bookable :
    Db → Zone → ℕ → ℕ → ℕ → String → Option ℕ → Action Db (Unit {0})
unfolding ◌>>=◌
assert_slot_is_bookable seen zone coach_id start_at end_at locale exclude = do
  throw_if
      (not (
        is_within_effective_range seen zone coach_id (zone.date_of start_at)
          (candidate_of zone start_at end_at)))
      (conflict (t "errors.outsideAvailability" locale))
  throw_when (λ db. any (overlaps coach_id start_at end_at exclude) db.bookings)
      (conflict (t "errors.slotJustBooked" locale))

unfoldable pub assert_same_calendar_day : {S : Type 0} → Zone → ℕ → ℕ → String → Action S (Unit {0})
unfolding throw_if
assert_same_calendar_day zone start_at end_at locale =
    throw_if (not (zone.date_of start_at == zone.date_of end_at))
      (bad_request (t "errors.spanMultipleDays" locale))

-- `booking.create`, with the unique and the foreign keys of the table
unfoldable pub insert_booking : Booking → Action Db Booking
unfolding ◌>>=◌
insert_booking row = do
  throw_when (λ db. any (λ b. b.id == row.id || b.manage_token == row.manage_token) db.bookings)
      (prisma_error "P2002")
  throw_when
      (λ db. not (
        any (λ e. e.id == row.event_type_id) db.event_types
        && any (λ c. c.id == row.coach_id) db.coaches))
      (prisma_error "P2003")
  modify (λ db. record db { bookings = db.bookings ++ row ∷ [] })
  pure row

-- `booking.update({ where: { id }, data })`
unfoldable pub update_booking : ℕ → (Booking → Booking) → Action Db Booking
unfolding ◌>>=◌
update_booking id change = do
  row ← find_or_throw (λ db. find (λ b. b.id == id) db.bookings) (prisma_error "P2025")
  modify (λ db. record db { bookings = update_where (λ b. b.id == id) change db.bookings })
  pure (change row)

-- the body of the transaction of `create`
unfoldable pub reserve : Zone → Booking → Db → Action Db Booking
unfolding ◌>>=◌
reserve zone row seen = do
  assert_slot_is_bookable seen zone row.coach_id row.start_at row.end_at row.locale none
  insert_booking row

-- the change of `rescheduleByClient`
abbrev pub set_times : ℕ → ℕ → Booking → Booking
set_times start_at end_at b = record b { start_at = start_at; end_at = end_at }

-- the body of the transaction of `rescheduleByClient`
unfoldable pub move_booking : Zone → Booking → ℕ → ℕ → Db → Action Db Booking
unfolding ◌>>=◌
move_booking zone booking start_at end_at seen = do
  assert_slot_is_bookable seen zone booking.coach_id start_at end_at booking.locale
      (some booking.id)
  update_booking booking.id (set_times start_at end_at)
