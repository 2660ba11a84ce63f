-- ===== src/Bookings/Outcome.antt =====
-- When the two transactions of bookings/bookings.service.ts succeed, and what they write.
use betti_coaching_calendar.Prelude.{
  ℕ, ◌≡◌, true, false, ◌||◌, ◌==◌, Option, none, some, [], ◌∷◌, ◌++◌, find, any, update_where,
  Option-cases, inl, inr, arith,
}
use betti_coaching_calendar.Http.{ok}
use betti_coaching_calendar.Schema.{Db, Booking}
use betti_coaching_calendar.Common.Luxon.{Zone}
use betti_coaching_calendar.Availability.Ranges.{is_within_effective_range}
use betti_coaching_calendar.Bookings.Slot.{
  assert_slot_is_bookable, insert_booking, update_booking, reserve, move_booking, set_times,
  overlaps, candidate_of,
}

-- The slot lies within the schedule that the plain client sees, and no active booking of the coach
-- in the transaction's database overlaps it, other than the one that is being moved.
pub record IsBookable (seen : Db) (zone : Zone) (coach_id start_at end_at : ℕ) (exclude : Option ℕ)
    (db : Db) : Type 0 where
  pub scheduled :
      is_within_effective_range seen zone coach_id
        (zone.date_of start_at)
        (candidate_of zone start_at end_at)
      ≡ true
  pub free : any (overlaps coach_id start_at end_at exclude) db.bookings ≡ false

-- The identifier and the token are new, and the event type and the coach exist.
pub record IsInsertable (row : Booking) (db : Db) : Type 0 where
  pub fresh : any (λ b. b.id == row.id || b.manage_token == row.manage_token) db.bookings ≡ false
  pub event_type : any (λ e. e.id == row.event_type_id) db.event_types ≡ true
  pub coach : any (λ c. c.id == row.coach_id) db.coaches ≡ true

-- The transaction of `create` succeeds only if the time lies in the schedule that the plain client
-- sees, no active booking of the coach overlaps it in the transaction's database, the identifier and
-- the token are new and the event type and the coach exist; it answers with the row, and has added it
-- and changed nothing else.
pub reserve-ok :
    (zone : Zone) (row : Booking) (seen db db' : Db) (b : Booking)
    → reserve zone row seen db ≡ (ok b, db')
    → IsBookable seen zone row.coach_id row.start_at row.end_at none db
      × IsInsertable row db
      × (b ≡ row)
      × (db' ≡ record db { bookings = db.bookings ++ row ∷ [] })
unfolding reserve assert_slot_is_bookable insert_booking
reserve-ok zone row seen db db' b e = (
  record { scheduled = ground arith; free = ground arith },
  record { fresh = ground arith; event_type = ground arith; coach = ground arith },
  ground arith,
  ground arith,
)

-- The transaction of `rescheduleByClient` succeeds only if the new time lies in the schedule that the
-- plain client sees, no active booking of the coach but the moved one overlaps it in the
-- transaction's database, and the booking is in the table; it answers with the row at its new times,
-- and has changed these times and nothing else.
pub move-ok :
    (zone : Zone) (booking : Booking) (start_at end_at : ℕ) (seen db db' : Db) (b : Booking)
    → move_booking zone booking start_at end_at seen db ≡ (ok b, db')
    → IsBookable seen zone booking.coach_id start_at end_at (some booking.id) db
      × ((row : Booking) × (find (λ r. r.id == booking.id) db.bookings ≡ some row)
          × (b ≡ set_times start_at end_at row))
      × (db' ≡ record db {
        bookings = update_where (λ r. r.id == booking.id) (set_times start_at end_at) db.bookings;
      })
unfolding move_booking assert_slot_is_bookable update_booking
move-ok zone booking start_at end_at seen db db' b e = (
  record { scheduled = ground arith; free = ground arith },
  elim (Option-cases (find (λ r. r.id == booking.id) db.bookings)) [
    | inl h ↦ absurd (ground arith)
    | inr (row, h) ↦ (row, h, ground arith)
  ],
  ground arith,
)
