-- ===== src/Bookings/Moved.antt =====
-- What a successful `rescheduleByClient` of bookings/bookings.service.ts says and leaves behind.
use betti_coaching_calendar.Prelude.{
  ℕ, ◌+◌, ◌-◌, ◌*◌, ◌≤◌, ◌≡◌, ◌∙◌, sym, ap, none, refl, Bool, true, not, ◌&&◌, ◌==◌, String, str_eq,
  some, get_or, [], ◌∷◌, ◌++◌, find, find-update_where, find_sound, if◌then◌else◌, arith,
}
use betti_coaching_calendar.Http.{ok}
use betti_coaching_calendar.Schema.{Db, Booking, Settings, is_confirmed, is_google_meet}
use betti_coaching_calendar.World.{World, Env, on_db, NotificationKind}
use betti_coaching_calendar.Common.Luxon.{Luxon, Zone, hour_ms}
use betti_coaching_calendar.Common.Transaction.{run_serializable}
use betti_coaching_calendar.Common.Retries.{IsSnapshot, run_serializable-ok}
use betti_coaching_calendar.Settings as SettingsService
use betti_coaching_calendar.Bookings.Slot.{move_booking, set_times}
use betti_coaching_calendar.Bookings.Outcome.{IsBookable, move-ok}
use betti_coaching_calendar.Bookings.Created.{job_of, on_db-ok}

-- the booking has a calendar event that belongs to its old time
abbrev pub has_event : Booking → Bool
has_event b = is_google_meet b.location && not (str_eq (get_or b.google_event_id "") "")

-- what becomes of the Meet event of a moved booking
abbrev pub without_event : Luxon → Env → Booking → Booking
without_event luxon env b =
    if has_event b then record b { meet_link = none; google_event_id = none } else b

pub record IsMoved (luxon : Luxon) (env : Env) (token : ℕ) (text : String) (w w' : World)
    (b : Booking) : Type 0 where
  pub booking : Booking
  pub notice : Settings
  pub settings : Settings
  pub start_at : ℕ
  -- the token names a booking that is active
  pub found : find (λ r. r.manage_token == token) w.db.bookings ≡ some booking
  pub active : is_confirmed booking.status ≡ true
  -- which starts after the notice that the coach asks for
  pub profile : Db
  pub asked : SettingsService.get booking.coach_id w.db ≡ (ok notice, profile)
  pub in_time : env.now + notice.cancellation_notice_hours * hour_ms ≤ booking.start_at
  -- the new start is a date, and not in the past
  pub parsed : luxon.from_iso text ≡ some start_at
  pub not_past : env.now ≤ start_at
  -- the new time is on one date of the coach's calendar
  pub reread : Db
  pub timezone : SettingsService.get booking.coach_id profile ≡ (ok settings, reread)
  pub same_day :
      (luxon.zone settings.business_timezone).date_of start_at
      ≡ (luxon.zone settings.business_timezone).date_of
          (start_at + booking.end_at - booking.start_at)
  -- the row in the database of the transaction, in which the new time was free, within the schedule
  -- that the plain client saw while it ran
  pub row : Booking
  pub transaction :
      (seen db : Db) × IsSnapshot env reread seen db
      × IsBookable seen
          (luxon.zone settings.business_timezone)
          booking.coach_id
          start_at
          (start_at + booking.end_at - booking.start_at)
          (some booking.id)
          db
      × (find (λ r. r.id == booking.id) db.bookings ≡ some row)
  -- the row has its new times, and no calendar event of its old one
  pub answer :
      b
      ≡ without_event luxon env (record row {
        start_at = start_at;
        end_at = start_at + booking.end_at - booking.start_at;
      })
  pub stored : find (λ r. r.id == booking.id) w'.db.bookings ≡ some b
  -- one job is queued
  pub queued : w'.jobs ≡ w.jobs ++ job_of b NotificationKind.rescheduled ∷ []

module _ (luxon : Luxon) (env : Env) where
  -- the transaction
  pub moved-ok :
      (zone : Zone) (booking b : Booking) (start_at end_at : ℕ) (w w' : World)
      → on_db (run_serializable env (move_booking zone booking start_at end_at)) w ≡ (ok b, w')
      → (row : Booking) × ((seen db : Db) × IsSnapshot env w.db seen db
          × IsBookable seen zone booking.coach_id start_at end_at (some booking.id) db
          × (find (λ r. r.id == booking.id) db.bookings ≡ some row))
        × (b ≡ set_times start_at end_at row)
        × (b.id ≡ booking.id)
        × (find (λ r. r.id == booking.id) w'.db.bookings ≡ some b)
        × (w'.jobs ≡ w.jobs)
  moved-ok zone booking b start_at end_at w w' h =
      let (run, kept) = on_db-ok _ w w' b h in
      let (seen, start, snapshot, wrote) =
        run_serializable-ok env (move_booking zone booking start_at end_at) w.db w'.db b run in
      let (bookable, row, stored) = move-ok zone booking start_at end_at seen start w'.db b wrote in
      let own = find_sound (λ r. r.id == booking.id) start.bookings {a = row.0} row.1 in
      let new =
        find-update_where (λ r. r.id == booking.id) (set_times start_at end_at) start.bookings row.0
          (λ x. refl) row.1 in
      let same : row.0.id ≡ booking.id = ground (arith, own) in
      (
        row.0,
        (seen, start, snapshot, bookable, row.1),
        row.2,
        ap (λ (x : Booking). x.id) row.2 ∙ same,
        ap (λ (db : Db). find (λ r. r.id == booking.id) db.bookings) stored
            ∙ new
            ∙ ap some (sym row.2),
        ap (λ (v : World). v.jobs) kept,
      )
