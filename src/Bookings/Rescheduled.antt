-- ===== src/Bookings/Rescheduled.antt =====
-- What `rescheduleByClient` of bookings/bookings.service.ts keeps of the table of bookings. The
-- booking that it read stays in the table with its coach until the transaction.
use betti_coaching_calendar.Prelude.{ℕ, ◌≡◌, refl, sym, subst, String, List, find-In}
use betti_coaching_calendar.Http.{ok}
use betti_coaching_calendar.Action.{Action, ◌>>=◌}
use betti_coaching_calendar.Action.Keeps.{
  Keeps, Keeps-with, Leads, Leads-bind, Leads-into, keeps_rules,
}
use betti_coaching_calendar.Schema.{Booking}
use betti_coaching_calendar.World.{World, Env, on_db}
use betti_coaching_calendar.Common.Luxon.{Luxon, Zone}
use betti_coaching_calendar.Common.Transaction.{run_serializable}
use betti_coaching_calendar.Common.Retries.{run_serializable-keeps}
use betti_coaching_calendar.Settings
use betti_coaching_calendar.Bookings.Slot.{move_booking, assert_same_calendar_day}
use betti_coaching_calendar.Bookings.Moved.{moved-ok}
use betti_coaching_calendar.Bookings.Service.{
  find_by_manage_token, assert_confirmed, parse_start, reschedule_by_client,
  assert_within_notice_window,
}
use betti_coaching_calendar.Bookings.Frame.{
  HasCoach, IsKept, MayManage, get-bookings, managed, enqueue-Keeps, drop-Keeps,
}

module _ (luxon : Luxon) (env : Env) (R : ℕ → Type 0) (P : List Booking → Type 0)
    (kept : IsKept env R P) where
  abbrev IsSound : World → Type 0
  IsSound w = P w.db.bookings

  -- while the booking that was read is in the table, with its coach
  abbrev WithBooking : Booking → World → Type 0
  WithBooking booking w = IsSound w × HasCoach booking.id booking.coach_id w.db.bookings

  settings-WithBooking :
      (booking : Booking) (coach_id : ℕ)
      → Keeps (WithBooking booking) (on_db (Settings.get coach_id))
  unfolding on_db
  settings-WithBooking booking coach_id = record {
    at = λ w h. (rw get-bookings h.0, rw get-bookings h.1);
  }

  notice-WithBooking :
      (booking : Booking) (coach_id start_at : ℕ) (locale : String)
      → Keeps (WithBooking booking) (assert_within_notice_window luxon env coach_id start_at locale)
  unfolding assert_within_notice_window
  notice-WithBooking booking coach_id start_at locale =
      search (keeps_rules, settings-WithBooking) depth 8

  parse-WithBooking :
      (booking : Booking) (text locale : String)
      → Keeps (WithBooking booking) (parse_start luxon env text locale)
  unfolding parse_start
  parse-WithBooking booking text locale = search keeps_rules

  move-Leads :
      (booking : Booking) (zone : Zone) (start_at end_at : ℕ)
      → R booking.id
      → Leads
          (WithBooking booking)
          IsSound
          (on_db (run_serializable env (move_booking zone booking start_at end_at)))
  unfolding on_db
  move-Leads booking zone start_at end_at r = record {
    at = λ w h.
        (run_serializable-keeps
          (λ db. P db.bookings × HasCoach booking.id booking.coach_id db.bookings) env
          (move_booking zone booking start_at end_at)
          (λ k d p. (kept.others k d p.0, kept.others_coach booking.id booking.coach_id k d p.1))
          (λ seen d d' a p e. kept.moved zone booking start_at end_at seen d d' a r p.0 p.1 e) w.db
          h).0;
  }

  moved-R :
      (booking : Booking) (zone : Zone) (start_at end_at : ℕ)
      → R booking.id
      → (b : Booking) (w w' : World)
      → on_db (run_serializable env (move_booking zone booking start_at end_at)) w ≡ (ok b, w')
      → R b.id
  moved-R booking zone start_at end_at r b w w' h =
      let (_, _, _, same, _, _) = moved-ok luxon env zone booking b start_at end_at w w' h in
      subst R (sym same) r

  move_then-Leads :
      {A : Type 0} (booking : Booking) (zone : Zone) (start_at end_at : ℕ)
      (f : Booking → Action World A)
      → R booking.id
      → ((b : Booking) → R b.id → Keeps IsSound (f b))
      → Leads
          (WithBooking booking)
          IsSound
          (on_db (run_serializable env (move_booking zone booking start_at end_at)) >>= f)
  move_then-Leads booking zone start_at end_at f r k =
      Leads-into (λ b. R b.id) _ f (move-Leads booking zone start_at end_at r)
        (λ b w w' e. moved-R booking zone start_at end_at r b w w' e) k

  ruleset with_booking_rules =
      (keeps_rules, settings-WithBooking, notice-WithBooking, parse-WithBooking)

  pub reschedule-Keeps :
      (token : ℕ) (text : String)
      → MayManage R P token
      → Keeps IsSound (reschedule_by_client luxon env token text)
  unfolding reschedule_by_client find_by_manage_token assert_confirmed assert_same_calendar_day
  reschedule-Keeps token text may =
      Keeps-with (λ b. R b.id) WithBooking _ _ _
        (λ booking w h found. (
          managed luxon env R P kept token booking w may h found,
          (h, (booking, find-In _ w.db.bookings booking found, refl, refl)),
        ))
        (λ booking r.
          search
            (
              with_booking_rules,
              Leads-bind,
              move_then-Leads,
              drop-Keeps luxon env R P kept,
              enqueue-Keeps luxon env R P kept,
              λ (w : World) (h : WithBooking booking w). h.0,
            )
            depth 25)
