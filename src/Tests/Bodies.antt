-- ===== src/Tests/Bodies.antt =====
-- Response bodies at concrete inputs.
use betti_coaching_calendar.Prelude.{◌≡◌, refl, true}
use betti_coaching_calendar.Common.Strip.{
  Value, Fields, field, no_fields, value, no_values, strip, is_clean, no_password_hash,
}

abbrev coach_fields : Fields
coach_fields = field "id" (Value.scalar "1") (field "createdAt" (Value.date 1700000000) no_fields)

abbrev coach : Value
coach = Value.object (field "passwordHash" (Value.scalar "hash") coach_fields)

-- a booking with its coach
abbrev booking_of : Value → Value
booking_of who =
    Value.object (field "coach" who (field "guests" (Value.array (value who no_values)) no_fields))

strip_booking : strip (booking_of coach) ≡ booking_of (Value.object coach_fields)
unfolding strip
strip_booking = refl

no_password_hash_example : is_clean (strip (booking_of coach)) ≡ true
no_password_hash_example = no_password_hash (booking_of coach)
