-- ===== src/Bookings/Safety.antt =====
-- No request of bookings/bookings.service.ts books a coach twice at a time, whatever other requests
-- commit between its reads and its writes.
use betti_coaching_calendar.Prelude.{
  ℕ, ◌≡◌, sym, ap, ◌∙◌, ◌==◌, update_where, List, All, All-of_In, In-update_where, if◌then◌else◌,
  arith,
}
use betti_coaching_calendar.Http.{ok}
use betti_coaching_calendar.Schema.{Db, Booking}
use betti_coaching_calendar.World.{Env}
use betti_coaching_calendar.Common.Luxon.{Zone}
use betti_coaching_calendar.Bookings.Slot.{reserve, move_booking, set_times}
use betti_coaching_calendar.Bookings.Calendar.{
  IsCalendar, harmless-IsCalendar, reserve-IsCalendar, move-IsCalendar, one_row,
}
use betti_coaching_calendar.Bookings.Outcome.{reserve-ok, move-ok}
use betti_coaching_calendar.Bookings.Frame.{HasCoach, IsKept}

-- What other requests commit between two attempts: they keep the calendar, and remove no booking
-- and give none to another coach.
pub record IsRespected (env : Env) : Type 0 where
  pub calendar :
      (k : ℕ) (db : Db) → IsCalendar db.bookings → IsCalendar (env.before_attempt k db).bookings
  pub keeps :
      (i coach_id k : ℕ) (db : Db)
      → HasCoach i coach_id db.bookings
      → HasCoach i coach_id (env.before_attempt k db).bookings

-- any row may be written
abbrev pub Everything : ℕ → Type 0
Everything _ = Unit {0}

reserve_kept :
    (zone : Zone) (row : Booking) (seen db db' : Db) (b : Booking)
    → IsCalendar db.bookings
    → reserve zone row seen db ≡ (ok b, db')
    → IsCalendar db'.bookings
reserve_kept zone row seen db db' b h e =
    let (bookable, insertable, _, written) = reserve-ok zone row seen db db' b e in
    rw written (reserve-IsCalendar db.bookings row insertable.fresh bookable.free h)

-- all rows with the identifier have the coach
pub All-of_coach :
    (i coach_id : ℕ) (bs : List Booking)
    → IsCalendar bs
    → HasCoach i coach_id bs
    → All (λ b. b.id ≡ i → b.coach_id ≡ coach_id) bs
All-of_coach i coach_id bs h (c, m, p, q) =
    All-of_In _ bs
      (λ b n e. ap (λ (x : Booking). x.coach_id) (one_row bs b c h n m (e ∙ sym p)) ∙ q)

move-HasCoach :
    (i coach_id j start_at end_at : ℕ) (bs : List Booking)
    → HasCoach i coach_id bs
    → HasCoach i coach_id (update_where (λ b. b.id == j) (set_times start_at end_at) bs)
move-HasCoach i coach_id j start_at end_at bs (c, m, p, q) = (
  if c.id == j then set_times start_at end_at c else c,
  In-update_where (λ b. b.id == j) (set_times start_at end_at) c bs m,
  ground arith,
  ground arith,
)

move_kept :
    (zone : Zone) (booking : Booking) (start_at end_at : ℕ) (seen db db' : Db) (b : Booking)
    → Everything booking.id
    → IsCalendar db.bookings
    → HasCoach booking.id booking.coach_id db.bookings
    → move_booking zone booking start_at end_at seen db ≡ (ok b, db')
    → IsCalendar db'.bookings × HasCoach booking.id booking.coach_id db'.bookings
move_kept zone booking start_at end_at seen db db' b r h c e =
    let (bookable, _, written) = move-ok zone booking start_at end_at seen db db' b e in
    rw written (
      move-IsCalendar db.bookings booking.id booking.coach_id start_at end_at
          (All-of_coach booking.id booking.coach_id db.bookings h c) bookable.free h,
      move-HasCoach booking.id booking.coach_id booking.id start_at end_at db.bookings c,
    )

pub IsCalendar-IsKept : (env : Env) → IsRespected env → IsKept env Everything IsCalendar
IsCalendar-IsKept env others = record {
  others = others.calendar;
  others_coach = others.keeps;
  reserved = reserve_kept;
  moved = move_kept;
  changed = λ i change bs r s h. harmless-IsCalendar i change bs s h;
}
