-- ===== src/Tests/Bookings.antt =====
-- Bookings, slots and transactions at concrete inputs.
use betti_coaching_calendar.Prelude.{
  ℕ, ◌≤◌, ◌≡◌, ◌⊎◌, refl, none, some, List, [], ◌∷◌, update_where, find, any, In, here, there,
  arith,
}
use betti_coaching_calendar.Action.{◌>>=◌}
use betti_coaching_calendar.Schema.{BookingStatus, CancelledBy, Db, Booking}
use betti_coaching_calendar.World.{World, Env, on_db, NotificationKind}
use betti_coaching_calendar.Settings as SettingsService
use betti_coaching_calendar.Common.Transaction.{run_serializable, transaction, finish}
use betti_coaching_calendar.Common.Retries.{run_serializable_decided}
use betti_coaching_calendar.Availability.Ranges.{
  is_within_effective_range, get_effective_ranges_for_date, fits,
}
use betti_coaching_calendar.Bookings.Slot.{
  reserve, overlaps, candidate_of, assert_same_calendar_day, assert_slot_is_bookable,
  insert_booking, update_booking,
}
use betti_coaching_calendar.Bookings.Safety.{IsRespected}
use betti_coaching_calendar.Bookings.Calendar.{IsCalendar, clash}
use betti_coaching_calendar.Bookings.Untouched.{IsBystander, serve_untouched}
use betti_coaching_calendar.Bookings.Service.{
  cancel_by_client, cancel_by_coach, find_by_manage_token, assert_confirmed,
  assert_within_notice_window, apply_cancellation, create, enqueue, parse_start,
}
use betti_coaching_calendar.Bookings.Cancelled.{IsCancelled, cancel_by_client-ok}
use betti_coaching_calendar.Bookings.Withdrawn.{IsWithdrawn, cancel_by_coach-ok}
use betti_coaching_calendar.Common.Ownership.{assert_coach_owns_or_is_admin}
use betti_coaching_calendar.Bookings.Requests.{
  Request, create_booking, client_cancel, coach_cancel, handle, serve, no_double_booking,
}
use betti_coaching_calendar.Tests.Data.{
  utc, luxon, anna, db, world, env, busy_env, dto, booking, nine, ten,
}

abbrev history : List (Env × Request)
history = (env 1, create_booking (dto "nine") none) ∷ (env 2, create_booking (dto "ten") none) ∷ []

quiet : (id : ℕ) → IsRespected (env id)
quiet id = record { calendar = λ k d h. h; keeps = λ i c k d h. h }

no_double_booking_example :
    ((booking 1 nine).end_at ≤ (booking 2 ten).start_at)
    ⊎ ((booking 2 ten).end_at ≤ (booking 1 nine).start_at)
unfolding serve handle create ◌>>=◌ on_db SettingsService.get parse_start assert_same_calendar_day
    run_serializable transaction reserve enqueue any find overlaps candidate_of
    is_within_effective_range fits get_effective_ranges_for_date assert_slot_is_bookable
    insert_booking
no_double_booking_example =
    no_double_booking luxon history world (booking 1 nine) (booking 2 ten) (quiet 1, (quiet 2, tt))
      tt (here refl) (there (here refl)) (λ e. omega arith) refl refl refl

run_serializable_decided_example :
    (j : ℕ) × (start : Db) × (1 ≤ j)
    × (j ≤ 3)
    × (run_serializable busy_env (reserve utc (booking 1 nine)) db
        ≡ finish (transaction busy_env (reserve utc (booking 1 nine)) j start))
run_serializable_decided_example =
    run_serializable_decided busy_env (reserve utc (booking 1 nine)) db

abbrev booked : Db
booked = record db { bookings = booking 1 nine ∷ [] }

abbrev moved : Db
moved = record db { bookings = booking 1 ten ∷ [] }

abbrev created : World
created = record world {
  db = booked;
  jobs = record { booking_id = 1; coach_id = 1; kind = NotificationKind.confirmed } ∷ [];
}

-- three days ahead
abbrev early_env : Env
early_env = record (env 1) { now = 630000000 }

abbrev full : World
full = record world { db = booked }

abbrev dropped : Booking
dropped = record (booking 1 nine) {
  status = BookingStatus.cancelled;
  cancelled_by = some CancelledBy.client;
  cancellation_reason = some "ill";
}

abbrev freed : World
freed = record world {
  db = record db { bookings = dropped ∷ [] };
  jobs = record { booking_id = 1; coach_id = 1; kind = NotificationKind.cancelled } ∷ [];
}

-- the first booking, while the second is cancelled and its time is asked for
abbrev shared : World
shared = record world { db = record db { bookings = booking 1 nine ∷ booking 2 ten ∷ [] } }

abbrev strangers : List (Env × Request)
strangers =
    (early_env, client_cancel 102 (some "ill"))
    ∷ (early_env, coach_cancel anna 2 "ill")
    ∷ (env 3, create_booking (dto "nine") none)
    ∷ []

abbrev cancelled_ten : Booking
cancelled_ten = record (booking 2 ten) {
  status = BookingStatus.cancelled;
  cancelled_by = some CancelledBy.client;
  cancellation_reason = some "ill";
}

bystander : (id now : ℕ) → IsBystander (booking 1 nine) (record (env id) { now = now })
bystander id now = record {
  respected = record { calendar = λ k d h. h; keeps = λ i c k d h. h };
  leaves = λ k d m. m;
}

shared-IsCalendar : IsCalendar shared.db.bookings
unfolding clash
shared-IsCalendar =
    ((record { ids = λ e. omega arith; tokens = λ e. omega arith; apart = refl }, tt), (tt, tt))

serve_untouched_example : In (booking 1 nine) (booking 1 nine ∷ cancelled_ten ∷ [])
unfolding serve handle create cancel_by_client cancel_by_coach find_by_manage_token assert_confirmed
    assert_within_notice_window apply_cancellation update_booking update_where find enqueue ◌>>=◌
    on_db SettingsService.get parse_start assert_same_calendar_day run_serializable transaction
    reserve any overlaps candidate_of is_within_effective_range fits get_effective_ranges_for_date
    assert_slot_is_bookable insert_booking assert_coach_owns_or_is_admin
serve_untouched_example =
    serve_untouched luxon strangers shared (booking 1 nine)
      (bystander 1 630000000, (bystander 1 630000000, (bystander 3 800000000, tt)))
      ((λ e. omega arith), ((λ e. (let same : 2 ≡ 1 = e.0 in omega arith)), ((λ e. e), tt)))
      shared-IsCalendar (here refl)

cancel_by_client-ok_example : IsCancelled luxon early_env 101 (some "ill") full freed dropped
unfolding cancel_by_client find_by_manage_token assert_confirmed assert_within_notice_window ◌>>=◌
    on_db SettingsService.get apply_cancellation update_booking update_where find enqueue
cancel_by_client-ok_example =
    cancel_by_client-ok luxon early_env 101 (some "ill") full freed dropped refl

abbrev withdrawn : Booking
withdrawn = record dropped { cancelled_by = some CancelledBy.coach }

abbrev emptied : World
emptied = record freed { db = record db { bookings = withdrawn ∷ [] } }

cancel_by_coach-ok_example : IsWithdrawn luxon early_env anna 1 "ill" full emptied withdrawn
unfolding cancel_by_coach assert_coach_owns_or_is_admin assert_confirmed ◌>>=◌ on_db
    apply_cancellation update_booking update_where find enqueue
cancel_by_coach-ok_example =
    cancel_by_coach-ok luxon early_env anna 1 "ill" full emptied withdrawn refl

abbrev shifted : World
shifted = record world {
  db = record db { bookings = booking 1 ten ∷ [] };
  jobs = record { booking_id = 1; coach_id = 1; kind = NotificationKind.rescheduled } ∷ [];
}
