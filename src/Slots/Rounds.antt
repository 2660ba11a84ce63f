-- ===== src/Slots/Rounds.antt =====
-- The innermost loop of slots/slots.service.ts ends.
use betti_coaching_calendar.Prelude.{
  ℕ, zero, suc, ◌+◌, ◌≤◌, ◌<◌, ◌≡◌, refl, ap, [], ◌∷◌, leb, if◌then◌else◌, arith,
}
use betti_coaching_calendar.Slots.{slot_starts}

past_end :
    (rounds start_minute duration end_minute : ℕ)
    → end_minute < start_minute
    → slot_starts rounds start_minute duration end_minute ≡ []
unfolding slot_starts
past_end zero start_minute duration end_minute h = refl
past_end (suc rounds) start_minute duration end_minute h = ground arith

-- The loop over the slots of a range ends when the duration is positive: as many rounds as there are
-- minutes from the start to the end of the range, and one more, are enough, since with any greater
-- number of rounds it finds the same slots.
pub slot_starts_end :
    (rounds more start_minute duration end_minute : ℕ)
    → 1 ≤ duration
    → end_minute < start_minute + rounds
    → rounds ≤ more
    → slot_starts more start_minute duration end_minute
      ≡ slot_starts rounds start_minute duration end_minute
unfolding slot_starts
slot_starts_end zero more start_minute duration end_minute d h le =
    past_end more start_minute duration end_minute (omega arith)
slot_starts_end (suc rounds) zero start_minute duration end_minute d h le = absurd (omega arith)
slot_starts_end (suc rounds) (suc more) start_minute duration end_minute d h le =
    ap (λ rest. if leb (start_minute + duration) end_minute then start_minute ∷ rest else [])
      (slot_starts_end rounds more (start_minute + duration) duration end_minute d (omega arith)
        (omega arith))
