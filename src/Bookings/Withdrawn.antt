-- ===== src/Bookings/Withdrawn.antt =====
-- What a successful `cancelByCoach` of bookings/bookings.service.ts says and leaves behind.
use mathlib.Core.Option.{some-injective}
use betti_coaching_calendar.Prelude.{
  ℕ, ◌≡◌, ◌∙◌, sym, subst, ap, true, ◌==◌, String, some, [], ◌∷◌, ◌++◌, find, find_sound,
  update_where, ◌⊎◌, passed, arith,
}
use betti_coaching_calendar.Http.{ok}
use betti_coaching_calendar.Action.{Action, gets, pure, ◌>>=◌, ◌>>◌}
use betti_coaching_calendar.Action.Inversion.{bind-ok, lift-ok, throw_if-ok}
use betti_coaching_calendar.Schema.{Booking, CancelledBy, Coach, CoachRole, is_confirmed}
use betti_coaching_calendar.World.{World, Env, NotificationKind}
use betti_coaching_calendar.Common.Luxon.{Luxon}
use betti_coaching_calendar.Common.Ownership.{owns_iff}
use betti_coaching_calendar.Bookings.Slot.{t}
use betti_coaching_calendar.Bookings.Service.{
  assert_confirmed, apply_cancellation, cancel_change, enqueue, cancel_by_coach,
}
use betti_coaching_calendar.Bookings.Created.{job_of, enqueue-ok, pure-ok}
use betti_coaching_calendar.Bookings.Cancelled.{applied-ok}

pub record IsWithdrawn (luxon : Luxon) (env : Env) (coach : Coach) (booking_id : ℕ)
    (reason : String) (w w' : World) (b : Booking) : Type 0 where
  pub booking : Booking
  -- an active booking of the coach, or of any coach for an admin
  pub found : find (λ r. r.id == booking_id) w.db.bookings ≡ some booking
  pub allowed : (booking.coach_id ≡ coach.id) ⊎ (coach.role ≡ CoachRole.admin)
  pub active : is_confirmed booking.status ≡ true
  -- it is cancelled, by the coach
  pub answer : b ≡ cancel_change luxon env CancelledBy.coach (some reason) booking
  pub stored : w'.db ≡ record w.db {
    bookings =
        update_where
          (λ r. r.id == booking_id)
          (cancel_change luxon env CancelledBy.coach (some reason))
          w.db.bookings;
  }
  -- one job is queued
  pub queued : w'.jobs ≡ w.jobs ++ job_of b NotificationKind.cancelled ∷ []

gets-ok :
    {A : Type 0} (f : World → A) (w w' : World) (a : A)
    → gets f w ≡ (ok a, w')
    → (a ≡ f w) × (w' ≡ w)
unfolding gets
gets-ok f w w' a h = (ground arith, ground arith)

module _ (luxon : Luxon) (env : Env) where
  -- the write and the notification, once the checks have passed
  abbrev withdraw : Booking → String → Action World Booking
  withdraw booking reason =
      apply_cancellation luxon env booking CancelledBy.coach (some reason) >>= λ updated.
      enqueue luxon env updated.id updated.coach_id NotificationKind.cancelled >> pure updated

  withdraw-ok :
      (coach : Coach) (booking_id : ℕ) (reason : String) (booking : Booking) (w w' : World)
      (b : Booking)
      → find (λ r. r.id == booking_id) w.db.bookings ≡ some booking
      → (booking.coach_id ≡ coach.id) ⊎ (coach.role ≡ CoachRole.admin)
      → is_confirmed booking.status ≡ true
      → withdraw booking reason w ≡ (ok b, w')
      → IsWithdrawn luxon env coach booking_id reason w w' b
  withdraw-ok coach booking_id reason booking w w' b found allowed active h =
      let (updated, w1, applied, h1) = bind-ok _ _ w h in
      let (v, w2, sent, h2) = bind-ok _ _ w1 h1 in
      let (row, stored_row, answer, stored, jobs) =
        applied-ok luxon env booking CancelledBy.coach (some reason) w w1 updated applied in
      let queued = enqueue-ok luxon env updated NotificationKind.cancelled w1 w2 v sent in
      let (same, last) = pure-ok updated b w2 w' h2 in
      let named : booking.id ≡ booking_id =
        let hit = find_sound (λ r. r.id == booking_id) w.db.bookings found in ground arith in
      let own : row ≡ booking =
        some-injective _ _
          (sym stored_row ∙ (ap (λ i. find (λ r. r.id == i) w.db.bookings) named ∙ found)) in
      record {
        booking = booking;
        found = found;
        allowed = allowed;
        active = active;
        answer = same ∙ (answer ∙ ap (cancel_change luxon env CancelledBy.coach (some reason)) own);
        stored =
            ap (λ (x : World). x.db) (last ∙ queued)
            ∙ (stored
                ∙ ap
                    (λ i. record w.db {
                      bookings =
                          update_where (λ r. r.id == i)
                            (cancel_change luxon env CancelledBy.coach (some reason)) w.db.bookings;
                    })
                    named);
        queued =
            ap (λ (x : World). x.jobs) (last ∙ queued)
            ∙ ap (λ js. js ++ job_of updated NotificationKind.cancelled ∷ []) jobs
            ∙ ap (λ (x : Booking). w.jobs ++ job_of x NotificationKind.cancelled ∷ []) (sym same);
      }

  -- If `cancelByCoach` answers with a booking, then its identifier names a booking that was active
  -- and is the coach's own, or the coach is an admin; the row of that booking is cancelled, by the
  -- coach and with the reason that was given, nothing else of the database has changed, and one
  -- notification is queued.
  pub cancel_by_coach-ok :
      (coach : Coach) (booking_id : ℕ) (reason : String) (w w' : World) (b : Booking)
      → cancel_by_coach luxon env coach booking_id reason w ≡ (ok b, w')
      → IsWithdrawn luxon env coach booking_id reason w w' b
  unfolding cancel_by_coach assert_confirmed
  cancel_by_coach-ok coach booking_id reason w w' b h =
      let missing = t "errors.bookingNotFound" coach.preferred_locale in
      let (found, w0, got, h1) = bind-ok _ _ w h in
      let (read, still) = gets-ok _ w w0 found got in
      let (booking, owned, h2) = lift-ok _ _ w0 h1 in
      let (hit, allowed) =
        (owns_iff (λ (r : Booking). r.coach_id) coach missing found booking).0 owned in
      let (active, h3) = throw_if-ok _ _ _ w0 h2 in
      withdraw-ok coach booking_id reason booking w w' b (sym read ∙ hit) allowed (passed _ active)
        (subst (λ v. withdraw booking reason v ≡ (ok b, w')) still h3)
