-- ===== src/Bookings/Cancelled.antt =====
-- What a successful `cancelByClient` of bookings/bookings.service.ts says and leaves behind.
use betti_coaching_calendar.Prelude.{
  ℕ, ◌+◌, ◌*◌, ◌≤◌, ◌≡◌, ◌∙◌, sym, subst, ap, Bool, true, false, ◌==◌, String, Option, none, some,
  [], ◌∷◌, ◌++◌, find, update_where, Option-cases, inl, inr, arith,
}
use betti_coaching_calendar.Http.{Error, ok}
use betti_coaching_calendar.Action.{◌>>=◌, throw_if}
use betti_coaching_calendar.Action.Inversion.{bind-ok, find-ok, throw_if-ok}
use betti_coaching_calendar.Schema.{Db, Booking, CancelledBy, Settings, is_confirmed}
use betti_coaching_calendar.World.{World, Env, NotificationKind}
use betti_coaching_calendar.Common.Luxon.{Luxon, hour_ms}
use betti_coaching_calendar.Settings as SettingsService
use betti_coaching_calendar.Google.{delete_calendar_event, get_authenticated_client}
use betti_coaching_calendar.Bookings.Slot.{update_booking}
use betti_coaching_calendar.Bookings.Service.{
  find_by_manage_token, assert_confirmed, assert_within_notice_window, apply_cancellation,
  cancel_change, delete_event_of, cancel_by_client,
}
use betti_coaching_calendar.Bookings.Created.{job_of, enqueue-ok, on_db-ok, pure-ok}

pub record IsCancelled (luxon : Luxon) (env : Env) (token : ℕ) (reason : Option String)
    (w w' : World) (b : Booking) : Type 0 where
  pub booking : Booking
  pub settings : Settings
  pub profile : Db
  -- the token names a booking that is active
  pub found : find (λ r. r.manage_token == token) w.db.bookings ≡ some booking
  pub active : is_confirmed booking.status ≡ true
  -- which starts after the notice that the coach asks for
  pub notice : SettingsService.get booking.coach_id w.db ≡ (ok settings, profile)
  pub in_time : env.now + settings.cancellation_notice_hours * hour_ms ≤ booking.start_at
  -- the row is cancelled, by the client
  pub row : Booking
  pub stored_row : find (λ r. r.id == booking.id) profile.bookings ≡ some row
  pub answer : b ≡ cancel_change luxon env CancelledBy.client reason row
  pub stored : w'.db ≡ record profile {
    bookings =
        update_where
          (λ r. r.id == booking.id)
          (cancel_change luxon env CancelledBy.client reason)
          profile.bookings;
  }
  -- one job is queued
  pub queued : w'.jobs ≡ w.jobs ++ job_of b NotificationKind.cancelled ∷ []

passed-ok :
    (test : Bool) (e : Error) (w w' : World) (u : Unit {0})
    → throw_if test e w ≡ (ok u, w')
    → (test ≡ false) × (w' ≡ w)
unfolding throw_if
passed-ok test e w w' u h = (ground arith, ground arith)

pub update_booking-ok :
    (id : ℕ) (change : Booking → Booking) (db db' : Db) (b : Booking)
    → update_booking id change db ≡ (ok b, db')
    → (row : Booking) × (find (λ r. r.id == id) db.bookings ≡ some row)
      × (b ≡ change row)
      × (db' ≡ record db { bookings = update_where (λ r. r.id == id) change db.bookings })
unfolding update_booking
update_booking-ok id change db db' b h = elim (Option-cases (find (λ r. r.id == id) db.bookings)) [
  | inl e ↦ absurd (ground arith)
  | inr (row, e) ↦ (row, e, ground arith, ground arith)
]

module _ (luxon : Luxon) (env : Env) where
  pub notice-ok :
      (coach_id start_at : ℕ) (locale : String) (w w' : World) (u : Unit {0})
      → assert_within_notice_window luxon env coach_id start_at locale w ≡ (ok u, w')
      → (settings : Settings) × (SettingsService.get coach_id w.db ≡ (ok settings, w'.db))
        × (env.now + settings.cancellation_notice_hours * hour_ms ≤ start_at)
        × (w'.jobs ≡ w.jobs)
  unfolding assert_within_notice_window
  notice-ok coach_id start_at locale w w' u h =
      let (settings, w1, got, h1) = bind-ok _ _ w h in
      let (read, kept) = on_db-ok _ w w1 settings got in
      let (early, same) = passed-ok _ _ w1 w' u h1 in
      (
        settings,
        subst (λ (v : World). SettingsService.get coach_id w.db ≡ (ok settings, v.db)) (sym same)
            read,
        ground (arith, early),
        ap (λ (v : World). v.jobs) (same ∙ kept),
      )

  -- Google is asked, at most: the database and the queue stay
  delete-ok :
      (coach_id : ℕ) (event : Option String) (w w' : World) (u : Unit {0})
      → delete_event_of luxon env coach_id event w ≡ (ok u, w')
      → (w'.db ≡ w.db) × (w'.jobs ≡ w.jobs)
  unfolding delete_calendar_event get_authenticated_client ◌>>=◌
  delete-ok coach_id none w w' u h = (ground arith, ground arith)
  delete-ok coach_id (some event) w w' u h = (ground arith, ground arith)

  pub applied-ok :
      (booking : Booking) (by : CancelledBy) (reason : Option String) (w w' : World) (b : Booking)
      → apply_cancellation luxon env booking by reason w ≡ (ok b, w')
      → (row : Booking) × (find (λ r. r.id == booking.id) w.db.bookings ≡ some row)
        × (b ≡ cancel_change luxon env by reason row)
        × (w'.db ≡ record w.db {
          bookings =
              update_where
                (λ r. r.id == booking.id)
                (cancel_change luxon env by reason)
                w.db.bookings;
        })
        × (w'.jobs ≡ w.jobs)
  unfolding apply_cancellation
  applied-ok booking by reason w w' b h =
      let (u, w1, deleted, h1) = bind-ok _ _ w h in
      let (same, jobs) = delete-ok booking.coach_id booking.google_event_id w w1 u deleted in
      let change = cancel_change luxon env by reason in
      let (updated, kept) = on_db-ok _ w1 w' b h1 in
      let (row, found, answer, stored) =
        update_booking-ok booking.id change w1.db w'.db b updated in
      (
        row,
        subst (λ (db : Db). find (λ r. r.id == booking.id) db.bookings ≡ some row) same found,
        answer,
        subst
            (λ (db : Db).
              w'.db
              ≡ record db { bookings = update_where (λ r. r.id == booking.id) change db.bookings })
            same stored,
        ap (λ (v : World). v.jobs) kept ∙ jobs,
      )

  -- If `cancelByClient` answers with a booking, then its token names a booking that was active and
  -- starts no sooner than the notice that its coach asks for; the row of that booking is cancelled,
  -- by the client and with the reason that was given, and nothing else of the database has changed
  -- but for the settings that the first reading of them makes; one notification is queued.
  pub cancel_by_client-ok :
      (token : ℕ) (reason : Option String) (w w' : World) (b : Booking)
      → cancel_by_client luxon env token reason w ≡ (ok b, w')
      → IsCancelled luxon env token reason w w' b
  unfolding cancel_by_client find_by_manage_token assert_confirmed
  cancel_by_client-ok token reason w w' b h =
      let (booking, found, h1) = find-ok _ _ _ w h in
      let (active, h2) = throw_if-ok _ _ _ w h1 in
      let (u, w1, noticed, h3) = bind-ok _ _ w h2 in
      let (updated, w2, applied, h4) = bind-ok _ _ w1 h3 in
      let (v, w3, sent, h5) = bind-ok _ _ w2 h4 in
      let (settings, read, in_time, jobs) =
        notice-ok booking.coach_id booking.start_at booking.locale w w1 u noticed in
      let (row, stored_row, answer, stored, jobs') =
        applied-ok booking CancelledBy.client reason w1 w2 updated applied in
      let queued = enqueue-ok luxon env updated NotificationKind.cancelled w2 w3 v sent in
      let (same, last) = pure-ok updated b w3 w' h5 in
      record {
        booking = booking;
        settings = settings;
        profile = w1.db;
        found = found;
        active = ground (arith, active);
        notice = read;
        in_time = in_time;
        row = row;
        stored_row = stored_row;
        answer = same ∙ answer;
        stored = ap (λ (x : World). x.db) (last ∙ queued) ∙ stored;
        queued =
            ap (λ (x : World). x.jobs) (last ∙ queued)
            ∙ ap (λ js. js ++ job_of updated NotificationKind.cancelled ∷ []) (jobs' ∙ jobs)
            ∙ ap (λ (x : Booking). w.jobs ++ job_of x NotificationKind.cancelled ∷ []) (sym same);
      }
