-- ===== src/Availability/Weekly.antt =====
-- availability/weekly-availability.service.ts and its DTOs: the recurring hours of a coach.
use betti_coaching_calendar.Prelude.{
  ℕ, Bool, true, not, ◌&&◌, ◌||◌, ◌==◌, ltb, leb, Option, none, some, List, ◌++◌, [], ◌∷◌, find,
  keep, sort_by, update_where, get_or,
}
use betti_coaching_calendar.Http.{plain, bad_request}
use betti_coaching_calendar.Action.{Action, pure, throw_if, lift, gets, modify, ◌>>=◌, ◌>>◌}
use betti_coaching_calendar.Schema.{Db, Coach, WeeklyAvailability}
use betti_coaching_calendar.Common.Ownership.{assert_coach_owns_or_is_admin}

pub record CreateWeeklyAvailabilityDto : Type 0 where
  pub weekday : ℕ
  pub start_minute : ℕ
  pub end_minute : ℕ

-- `PartialType` of it
pub record UpdateWeeklyAvailabilityDto : Type 0 where
  pub weekday : Option ℕ
  pub start_minute : Option ℕ
  pub end_minute : Option ℕ

-- the decorators `@Min` and `@Max`; on an absent optional field they are skipped
abbrev pub between : ℕ → ℕ → ℕ → Bool
between lo hi n = leb lo n && leb n hi

abbrev pub between? : ℕ → ℕ → Option ℕ → Bool
between? lo hi none = true
between? lo hi (some n) = between lo hi n

unfoldable pub validate_create : CreateWeeklyAvailabilityDto → Bool
validate_create dto =
    between 1 7 dto.weekday && between 0 1440 dto.start_minute && between 0 1440 dto.end_minute

unfoldable pub validate_update : UpdateWeeklyAvailabilityDto → Bool
validate_update dto =
    between? 1 7 dto.weekday && between? 0 1440 dto.start_minute && between? 0 1440 dto.end_minute

unfoldable pub find_for_coach : ℕ → Db → List WeeklyAvailability
unfolding keep sort_by
find_for_coach coach_id db =
    sort_by
      (λ a b.
        ltb a.weekday b.weekday || (a.weekday == b.weekday && leb a.start_minute b.start_minute))
      (keep (λ w. w.coach_id == coach_id) db.weekly)

abbrev pub assert_valid_range : ℕ → ℕ → Action Db (Unit {0})
assert_valid_range start_minute end_minute =
    throw_if (leb end_minute start_minute)
      (bad_request (plain "startMinute must be before endMinute"))

abbrev pub set_weekly : Db → List WeeklyAvailability → Db
set_weekly db rows = record db { weekly = rows }

-- `id` is the identifier that the database makes
unfoldable pub create : ℕ → Coach → CreateWeeklyAvailabilityDto → Action Db WeeklyAvailability
unfolding ◌>>=◌
create id coach dto = do
  assert_valid_range dto.start_minute dto.end_minute
  let row : WeeklyAvailability = record {
    id = id;
    coach_id = coach.id;
    weekday = dto.weekday;
    start_minute = dto.start_minute;
    end_minute = dto.end_minute;
  }
  modify (λ db. set_weekly db (db.weekly ++ row ∷ []))
  pure row

unfoldable pub assert_ownership : Coach → ℕ → Action Db WeeklyAvailability
unfolding assert_coach_owns_or_is_admin find ◌>>=◌
assert_ownership coach id = do
  row ← gets (λ db. find (λ w. w.id == id) db.weekly)
  lift (
      assert_coach_owns_or_is_admin (λ w. w.coach_id) coach row
        (plain "Weekly availability entry not found"))

unfoldable pub merge : UpdateWeeklyAvailabilityDto → WeeklyAvailability → WeeklyAvailability
merge dto existing = record existing {
  weekday = get_or dto.weekday existing.weekday;
  start_minute = get_or dto.start_minute existing.start_minute;
  end_minute = get_or dto.end_minute existing.end_minute;
}

-- `data: { weekday, startMinute, endMinute }`
unfoldable pub store : WeeklyAvailability → WeeklyAvailability → WeeklyAvailability
store row w = record w {
  weekday = row.weekday;
  start_minute = row.start_minute;
  end_minute = row.end_minute;
}

unfoldable pub update : Coach → ℕ → UpdateWeeklyAvailabilityDto → Action Db WeeklyAvailability
unfolding ◌>>=◌
update coach id dto = do
  existing ← assert_ownership coach id
  let row : WeeklyAvailability = merge dto existing
  assert_valid_range row.start_minute row.end_minute
  modify (λ db. set_weekly db (update_where (λ w. w.id == id) (store row) db.weekly))
  pure row

unfoldable pub remove : Coach → ℕ → Action Db (Unit {0})
unfolding ◌>>=◌
remove coach id = do
  assert_ownership coach id
  modify (λ db. set_weekly db (keep (λ w. not (w.id == id)) db.weekly))
