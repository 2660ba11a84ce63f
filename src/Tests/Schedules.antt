-- ===== src/Tests/Schedules.antt =====
-- Schedules and offered slots at concrete inputs.
use betti_coaching_calendar.Prelude.{
  ℕ, ◌≤◌, ◌≡◌, ◌↔◌, leb, refl, true, ◌&&◌, none, some, List, [], ◌∷◌, any, keep, In, here,
  if◌then◌else◌, arith,
}
use betti_coaching_calendar.Http.{ok}
use betti_coaching_calendar.Schema.{Db, Coach}
use betti_coaching_calendar.Availability.Ranges.{
  MinuteRange, get, get_effective_ranges_for_date, get_effective_ranges_for_date_range,
}
use betti_coaching_calendar.Availability.RangeLaws.{get-date_range}
use betti_coaching_calendar.Availability.Requests.{Request, create_weekly, create_override, serve}
use betti_coaching_calendar.Availability.Invariant.{IsSchedule, serve-IsSchedule}
use betti_coaching_calendar.Bookings.Slot.{assert_slot_is_bookable}
use betti_coaching_calendar.Slots.Rounds.{slot_starts_end}
use betti_coaching_calendar.Slots.{
  slot_starts, Slot, slots_between, slot_at, is_offered, conflicts, is_existing,
}
use betti_coaching_calendar.Slots.Offered.{IsDaySlot, offer_of}
use betti_coaching_calendar.Slots.Listed.{IsOpen, slots_between_iff}
use betti_coaching_calendar.Slots.Agreement.{offered_is_bookable}
use betti_coaching_calendar.Tests.Data.{utc, utc-IsRegularUntil, db, anna, booking, nine}

-- nine o'clock is taken
abbrev booked : Db
booked = record db { bookings = booking 1 nine ∷ [] }

abbrev ten_slot : Slot
ten_slot = record { coach_id = 1; start_at = 900000000; end_at = 903600000 }

abbrev working : MinuteRange
working = record { start_minute = 540; end_minute = 660 }

ten_is_offered :
    IsDaySlot
      (offer_of booked utc 1 60 800000000 10 10 none)
      10
      (get_effective_ranges_for_date booked utc 1 10)
      ten_slot
unfolding get_effective_ranges_for_date slot_at is_offered any conflicts keep is_existing
ten_is_offered = record {
  range = working;
  listed = here refl;
  minute = 600;
  aligned = (1, refl, omega arith);
  slot = refl;
  offered = refl;
}

slots_between_iff_example :
    In ten_slot (slots_between booked utc 1 60 800000000 10 10 none)
    ↔ ((d : ℕ) × (10 ≤ d) × (d ≤ 10) × IsOpen booked utc 1 60 800000000 10 10 none d ten_slot)
slots_between_iff_example =
    slots_between_iff booked utc 1 60 800000000 10 10 none (omega arith) (omega arith) ten_slot

offered_is_bookable_example :
    assert_slot_is_bookable booked utc 1 ten_slot.start_at ten_slot.end_at "hu" none booked
    ≡ (ok tt, booked)
unfolding get_effective_ranges_for_date conflicts
offered_is_bookable_example =
    offered_is_bookable booked utc 1 60 800000000 10 10 none 10 ten_slot "hu" (omega arith)
      utc-IsRegularUntil (omega arith, tt) ((λ _ _ _. (omega arith, omega arith)), tt)
      ten_is_offered

get-date_range_example :
    get 10 (get_effective_ranges_for_date_range db utc 1 9 12)
    ≡ (if leb 9 10 && leb 10 12 then some (get_effective_ranges_for_date db utc 1 10) else none)
get-date_range_example = get-date_range db utc 1 9 12 10

abbrev changes : List (Coach × Request)
changes =
    (anna, create_weekly 2 (record { weekday = 5; start_minute = 540; end_minute = 600 }))
    ∷ (
      anna,
      create_override 1 (record {
        date = 10;
        is_unavailable = some true;
        start_minute = none;
        end_minute = none;
      }),
    )
    ∷ []

serve-IsSchedule_example : IsSchedule (serve changes db)
serve-IsSchedule_example =
    serve-IsSchedule changes db (record {
      weekly = ((omega arith, omega arith, omega arith, omega arith), tt);
      overrides = tt;
    })

slot_starts_end_example : slot_starts 1000 540 60 600 ≡ slot_starts 61 540 60 600
slot_starts_end_example =
    slot_starts_end 61 1000 540 60 600 (omega arith) (omega arith) (omega arith)
