-- ===== src/Availability/Overrides.antt =====
-- availability/availability-override.service.ts and its DTOs: other hours for one date, or none.
use betti_coaching_calendar.Prelude.{
  ℕ, Bool, true, false, not, ◌&&◌, ◌==◌, leb, Option, none, some, List, ◌++◌, [], ◌∷◌, find, keep,
  sort_by, update_where, get_or, or_else, is_some, if◌then◌else◌,
}
use betti_coaching_calendar.Http.{plain, bad_request, Result, ok, err}
use betti_coaching_calendar.Action.{Action, pure, lift, gets, modify, ◌>>=◌, ◌>>◌}
use betti_coaching_calendar.Schema.{Db, Coach, AvailabilityOverride}
use betti_coaching_calendar.Common.Ownership.{assert_coach_owns_or_is_admin}
use betti_coaching_calendar.Availability.Weekly.{between?}

-- The date of the DTO, which `toDateOnly` reads; absent fields are `none`.
pub record CreateAvailabilityOverrideDto : Type 0 where
  pub date : ℕ
  pub is_unavailable : Option Bool
  pub start_minute : Option ℕ
  pub end_minute : Option ℕ

pub record UpdateAvailabilityOverrideDto : Type 0 where
  pub date : Option ℕ
  pub is_unavailable : Option Bool
  pub start_minute : Option ℕ
  pub end_minute : Option ℕ

-- `@ValidateIf(!isUnavailable) @IsInt() @Min(0) @Max(24 * 60)`
unfoldable pub validate_create : CreateAvailabilityOverrideDto → Bool
validate_create dto =
    if get_or dto.is_unavailable false
    then true
    else is_some dto.start_minute
      && is_some dto.end_minute
      && between? 0 1440 dto.start_minute
      && between? 0 1440 dto.end_minute

-- `PartialType` makes the two fields optional
unfoldable pub validate_update : UpdateAvailabilityOverrideDto → Bool
validate_update dto =
    if get_or dto.is_unavailable false
    then true
    else between? 0 1440 dto.start_minute && between? 0 1440 dto.end_minute

unfoldable pub find_for_coach : ℕ → Db → List AvailabilityOverride
unfolding keep sort_by
find_for_coach coach_id db =
    sort_by (λ a b. leb a.date b.date) (keep (λ o. o.coach_id == coach_id) db.overrides)

-- the checks on the two minutes of a date that is not a day off
unfoldable pub check_minutes : Option ℕ → Option ℕ → Result (Unit {0})
check_minutes (some start_minute) (some end_minute) =
    if leb end_minute start_minute
    then err (bad_request (plain "startMinute must be before endMinute"))
    else ok tt
check_minutes _ _ =
    err (bad_request (plain "startMinute and endMinute are required unless isUnavailable is true"))

-- the test `!isUnavailable` around them
abbrev pub check_hours : Bool → Option ℕ → Option ℕ → Result (Unit {0})
check_hours is_unavailable start_minute end_minute =
    if is_unavailable then ok tt else check_minutes start_minute end_minute

abbrev pub set_overrides : Db → List AvailabilityOverride → Db
set_overrides db rows = record db { overrides = rows }

abbrev unless : Bool → Option ℕ → Option ℕ
unless b o = if b then none else o

unfoldable pub create : ℕ → Coach → CreateAvailabilityOverrideDto → Action Db AvailabilityOverride
unfolding ◌>>=◌
create id coach dto = do
  let is_unavailable : Bool = get_or dto.is_unavailable false
  lift (check_hours is_unavailable dto.start_minute dto.end_minute)
  let row : AvailabilityOverride = record {
    id = id;
    coach_id = coach.id;
    date = dto.date;
    is_unavailable = is_unavailable;
    start_minute = unless is_unavailable dto.start_minute;
    end_minute = unless is_unavailable dto.end_minute;
  }
  modify (λ db. set_overrides db (db.overrides ++ row ∷ []))
  pure row

unfoldable pub assert_ownership : Coach → ℕ → Action Db AvailabilityOverride
unfolding assert_coach_owns_or_is_admin find ◌>>=◌
assert_ownership coach id = do
  row ← gets (λ db. find (λ o. o.id == id) db.overrides)
  lift (
      assert_coach_owns_or_is_admin (λ o. o.coach_id) coach row
        (plain "Availability override not found"))

unfoldable pub merge : UpdateAvailabilityOverrideDto → AvailabilityOverride → AvailabilityOverride
merge dto existing =
    let is_unavailable : Bool = get_or dto.is_unavailable existing.is_unavailable in
    record existing {
      date = get_or dto.date existing.date;
      is_unavailable = is_unavailable;
      start_minute = unless is_unavailable (or_else dto.start_minute existing.start_minute);
      end_minute = unless is_unavailable (or_else dto.end_minute existing.end_minute);
    }

-- `data: { date, isUnavailable, startMinute, endMinute }`
unfoldable pub store : AvailabilityOverride → AvailabilityOverride → AvailabilityOverride
store row o = record o {
  date = row.date;
  is_unavailable = row.is_unavailable;
  start_minute = row.start_minute;
  end_minute = row.end_minute;
}

unfoldable pub update : Coach → ℕ → UpdateAvailabilityOverrideDto → Action Db AvailabilityOverride
unfolding ◌>>=◌
update coach id dto = do
  existing ← assert_ownership coach id
  let row : AvailabilityOverride = merge dto existing
  lift (check_hours row.is_unavailable row.start_minute row.end_minute)
  modify (λ db. set_overrides db (update_where (λ o. o.id == id) (store row) db.overrides))
  pure row

unfoldable pub remove : Coach → ℕ → Action Db (Unit {0})
unfolding ◌>>=◌
remove coach id = do
  assert_ownership coach id
  modify (λ db. set_overrides db (keep (λ o. not (o.id == id)) db.overrides))
