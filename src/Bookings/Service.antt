-- ===== src/Bookings/Service.antt =====
-- bookings/bookings.service.ts: the operations. A booking stands for its row; the event type and
-- the coach that the code includes with it are found by its foreign keys.
use betti_coaching_calendar.Prelude.{
  ℕ, ◌+◌, ◌-◌, ◌*◌, Bool, not, ◌&&◌, ◌||◌, ◌==◌, ltb, leb, String, str_eq, Option, none, some, List,
  [], ◌∷◌, ◌++◌, find, keep, any, get_or, or_else, sort_by, if◌then◌else◌,
}
use betti_coaching_calendar.Http.{translated, bad_request, conflict, not_found, ok, err}
use betti_coaching_calendar.Action.{Action, pure, throw_if, find_or_throw, lift, gets, ◌>>=◌, ◌>>◌}
use betti_coaching_calendar.Schema.{
  Db, Booking, BookingStatus, CancelledBy, EventType, Coach, LocationType, is_confirmed, is_admin,
  is_google_meet, same_location, truthy,
}
use betti_coaching_calendar.World.{World, Env, NotificationKind, on_db}
use betti_coaching_calendar.Common.Luxon.{Luxon, Zone, minute_ms, hour_ms}
use betti_coaching_calendar.Common.Ownership.{assert_coach_owns_or_is_admin, resolve_coach_scope}
use betti_coaching_calendar.Common.Transaction.{run_serializable}
use betti_coaching_calendar.Settings
use betti_coaching_calendar.Google.{delete_calendar_event}
use betti_coaching_calendar.Bookings.Slot.{
  t, assert_same_calendar_day, update_booking, reserve, move_booking,
}

-- `CreateBookingDto`
pub record CreateBookingDto : Type 0 where
  pub event_type_id : ℕ
  pub start_at : String
  pub location : LocationType
  pub client_name : String
  pub client_email : String
  pub client_phone : String
  pub client_note : Option String
  pub locale : String

-- `orderBy: { startAt: 'asc' }`
abbrev by_start : Booking → Booking → Bool
by_start a b = leb a.start_at b.start_at

-- the query of `findAll`, for one coach or for all
abbrev pub bookings_of : Option ℕ → Db → List Booking
bookings_of scope db =
    sort_by by_start (keep (λ b. not (truthy scope) || b.coach_id == get_or scope 0) db.bookings)

unfoldable pub find_all : Coach → Option ℕ → Action World (List Booking)
find_all coach coach_id = do
  scope ← lift (
      if is_admin coach.role
      then ok coach_id
      else elim (resolve_coach_scope coach coach_id) [ ok i ↦ ok (some i) | err e ↦ err e ])
  gets (λ w. bookings_of scope w.db)

unfoldable pub find_by_manage_token : ℕ → Action World Booking
find_by_manage_token token =
    find_or_throw (λ w. find (λ b. b.manage_token == token) w.db.bookings)
      (not_found (translated "errors.bookingNotFound" none []))

unfoldable pub assert_confirmed : Booking → String → Action World (Unit {0})
assert_confirmed booking locale =
    throw_if (not (is_confirmed booking.status)) (conflict (t "errors.bookingNotActive" locale))

module _ (luxon : Luxon) (env : Env) where
  -- `NotificationJobsService.enqueue`
  unfoldable pub enqueue : ℕ → ℕ → NotificationKind → Action World (Unit {0})
  enqueue booking_id coach_id kind w = elim env.send_error [
    | some e ↦ (err e, w)
    | none ↦ (
      ok tt,
      record w {
        jobs = w.jobs ++ record { booking_id = booking_id; coach_id = coach_id; kind = kind } ∷ [];
      },
    )
  ]

  -- `DateTime.fromISO` and the checks on its result
  unfoldable pub parse_start : String → String → Action World ℕ
  parse_start text locale = do
    start_at ←
        find_or_throw (λ _. luxon.from_iso text) (bad_request (t "errors.invalidStartAt" locale))
    throw_if (ltb start_at env.now) (bad_request (t "errors.pastStartAt" locale))
    pure start_at

  -- the row that `create` writes
  abbrev pub new_booking : CreateBookingDto → EventType → ℕ → Option String → Booking
  new_booking dto event_type start_at origin_url = record {
    id = env.new_id;
    event_type_id = event_type.id;
    coach_id = event_type.coach_id;
    start_at = start_at;
    end_at = start_at + event_type.duration_minutes * minute_ms;
    location = dto.location;
    client_name = dto.client_name;
    client_email = dto.client_email;
    client_phone = dto.client_phone;
    client_note = dto.client_note;
    locale = dto.locale;
    status = BookingStatus.confirmed;
    cancelled_by = none;
    cancellation_reason = none;
    manage_token = env.new_token;
    google_event_id = none;
    meet_link = none;
    origin_url = origin_url;
  }

  abbrev pub find_event_type : ℕ → World → Option EventType
  find_event_type id w = find (λ e. e.id == id) w.db.event_types

  unfoldable pub create : CreateBookingDto → Option String → Action World Booking
  create dto origin_url = do
    event_type ←
        find_or_throw (find_event_type dto.event_type_id)
          (not_found (t "errors.eventTypeNotFound" dto.locale))
    throw_if (not event_type.is_active) (not_found (t "errors.eventTypeNotFound" dto.locale))
    throw_if (not (any (same_location dto.location) event_type.locations))
        (bad_request (t "errors.locationNotOffered" dto.locale))
    settings ← on_db (Settings.get event_type.coach_id)
    let zone : Zone = luxon.zone settings.business_timezone
    start_at ← parse_start dto.start_at dto.locale
    let row : Booking = new_booking dto event_type start_at origin_url
    assert_same_calendar_day zone row.start_at row.end_at dto.locale
    booking ← on_db (run_serializable env (reserve zone row))
    enqueue booking.id booking.coach_id NotificationKind.confirmed
    pure booking

  unfoldable pub assert_within_notice_window : ℕ → ℕ → String → Action World (Unit {0})
  assert_within_notice_window coach_id start_at locale = do
    settings ← on_db (Settings.get coach_id)
    throw_if (ltb start_at (env.now + settings.cancellation_notice_hours * hour_ms)) (
        bad_request (
          translated "errors.bookingNoticeWindow" (some locale)
            (("hours", settings.cancellation_notice_hours) ∷ [])))

  -- an absent reason leaves the column alone
  abbrev pub cancel_change : CancelledBy → Option String → Booking → Booking
  cancel_change by reason b = record b {
    status = BookingStatus.cancelled;
    cancelled_by = some by;
    cancellation_reason = or_else reason b.cancellation_reason;
  }

  -- `if (booking.googleEventId) await deleteEvent(…)`
  abbrev pub delete_event_of : ℕ → Option String → Action World (Unit {0})
  delete_event_of coach_id none = pure tt
  delete_event_of coach_id (some event) =
      if str_eq event "" then pure tt else delete_calendar_event env coach_id event

  unfoldable pub apply_cancellation : Booking → CancelledBy → Option String → Action World Booking
  apply_cancellation booking by reason = do
    delete_event_of booking.coach_id booking.google_event_id
    on_db (update_booking booking.id (cancel_change by reason))

  unfoldable pub cancel_by_client : ℕ → Option String → Action World Booking
  cancel_by_client token reason = do
    booking ← find_by_manage_token token
    assert_confirmed booking booking.locale
    assert_within_notice_window booking.coach_id booking.start_at booking.locale
    updated ← apply_cancellation booking CancelledBy.client reason
    enqueue updated.id updated.coach_id NotificationKind.cancelled
    pure updated

  unfoldable pub cancel_by_coach : Coach → ℕ → String → Action World Booking
  cancel_by_coach coach booking_id reason = do
    found ← gets (λ w. find (λ b. b.id == booking_id) w.db.bookings)
    booking ← lift (
        assert_coach_owns_or_is_admin (λ b. b.coach_id) coach found
          (t "errors.bookingNotFound" coach.preferred_locale))
    assert_confirmed booking coach.preferred_locale
    updated ← apply_cancellation booking CancelledBy.coach (some reason)
    enqueue updated.id updated.coach_id NotificationKind.cancelled
    pure updated

  abbrev pub clear_meet : Booking → Booking
  clear_meet b = record b { meet_link = none; google_event_id = none }

  -- what follows the transaction of `rescheduleByClient` for a booking with a Meet event
  unfoldable pub drop_meet_event : Booking → Action World Booking
  drop_meet_event updated =
      if is_google_meet updated.location && not (str_eq (get_or updated.google_event_id "") "")
      then (do
        delete_calendar_event env updated.coach_id (get_or updated.google_event_id "")
        on_db (update_booking updated.id clear_meet))
      else pure updated

  unfoldable pub reschedule_by_client : ℕ → String → Action World Booking
  reschedule_by_client token text = do
    booking ← find_by_manage_token token
    assert_confirmed booking booking.locale
    assert_within_notice_window booking.coach_id booking.start_at booking.locale
    settings ← on_db (Settings.get booking.coach_id)
    let zone : Zone = luxon.zone settings.business_timezone
    start_at ← parse_start text booking.locale
    let end_at : ℕ = start_at + booking.end_at - booking.start_at
    assert_same_calendar_day zone start_at end_at booking.locale
    moved ← on_db (run_serializable env (move_booking zone booking start_at end_at))
    updated ← drop_meet_event moved
    enqueue updated.id updated.coach_id NotificationKind.rescheduled
    pure updated
