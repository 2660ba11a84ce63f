-- ===== src/Availability/Requests.antt =====
-- availability/availability.controller.ts: the requests of a signed-in coach that change the two
-- tables, after the validation of their bodies.
use betti_coaching_calendar.Prelude.{ℕ, Bool, true, List, [], ◌∷◌, if◌then◌else◌}
use betti_coaching_calendar.Schema.{Db, Coach}
use betti_coaching_calendar.Availability.Weekly
use betti_coaching_calendar.Availability.Weekly.{
  CreateWeeklyAvailabilityDto, UpdateWeeklyAvailabilityDto,
}
use betti_coaching_calendar.Availability.Overrides
use betti_coaching_calendar.Availability.Overrides.{
  CreateAvailabilityOverrideDto, UpdateAvailabilityOverrideDto,
}

pub data Request : Type 0 where
  -- the first number is the identifier that the database makes
  create_weekly : ℕ → CreateWeeklyAvailabilityDto → Request
  update_weekly : ℕ → UpdateWeeklyAvailabilityDto → Request
  remove_weekly : ℕ → Request
  create_override : ℕ → CreateAvailabilityOverrideDto → Request
  update_override : ℕ → UpdateAvailabilityOverrideDto → Request
  remove_override : ℕ → Request

-- the global `ValidationPipe`
unfoldable pub validate : Request → Bool
unfolding Weekly.validate_create Weekly.validate_update Overrides.validate_create
    Overrides.validate_update
validate (create_weekly id dto) = Weekly.validate_create dto
validate (update_weekly id dto) = Weekly.validate_update dto
validate (remove_weekly id) = true
validate (create_override id dto) = Overrides.validate_create dto
validate (update_override id dto) = Overrides.validate_update dto
validate (remove_override id) = true

-- the tables after the handler, whether it answered or threw
unfoldable pub handle : Coach → Request → Db → Db
handle coach (create_weekly id dto) db = (Weekly.create id coach dto db).1
handle coach (update_weekly id dto) db = (Weekly.update coach id dto db).1
handle coach (remove_weekly id) db = (Weekly.remove coach id db).1
handle coach (create_override id dto) db = (Overrides.create id coach dto db).1
handle coach (update_override id dto) db = (Overrides.update coach id dto db).1
handle coach (remove_override id) db = (Overrides.remove coach id db).1

-- A history of requests; a body that does not validate is refused before its handler.
unfoldable pub serve : List (Coach × Request) → Db → Db
serve [] db = db
serve ((coach, request) ∷ rest) db =
    serve rest (if validate request then handle coach request db else db)
