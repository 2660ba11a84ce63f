-- ===== src/Tests/Services.antt =====
-- Services, allowed origins and notification jobs at concrete inputs.
use betti_coaching_calendar.Prelude.{
  ℕ, ◌≡◌, ◌↔◌, refl, true, none, some, List, [], ◌∷◌, map, any, All, arith,
}
use betti_coaching_calendar.Http.{ok}
use betti_coaching_calendar.Action.{◌>>=◌}
use betti_coaching_calendar.Schema.{Db, EventType, LocationType, AllowedOrigin}
use betti_coaching_calendar.EventTypes.{CreateEventTypeDto, reorder, owned, set_positions}
use betti_coaching_calendar.EventTypes.Reorder.{
  HasKeys, IsDistinct, IsOwned, index_of, at_place, reorder_iff, reorder_positions,
}
use betti_coaching_calendar.AllowedOrigins.{Origins}
use betti_coaching_calendar.AllowedOrigins.Staleness.{Event, asks, elsewhere}
use betti_coaching_calendar.Tests.Data.{anna, talk, db, booking, nine}

abbrev walk : EventType
walk = record talk { id = 2; title = "Walk"; position = 1 }

abbrev catalog : Db
catalog = record db { event_types = talk ∷ walk ∷ []; bookings = booking 1 nine ∷ [] }

abbrev run_dto : CreateEventTypeDto
run_dto = record {
  title = "Run";
  description = none;
  duration_minutes = 30;
  locations = LocationType.in_person ∷ [];
  price = none;
  position = none;
}

abbrev new_run : EventType
new_run = record {
  id = 3;
  coach_id = 1;
  title = "Run";
  description = none;
  duration_minutes = 30;
  locations = LocationType.in_person ∷ [];
  price = none;
  position = 2;
  is_active = true;
}

keys : HasKeys catalog.event_types
keys = (((λ e. omega arith), tt), (tt, tt))

reorder_iff_example :
    ((reorder anna (2 ∷ 1 ∷ []) catalog).0 ≡ ok tt)
    ↔ (IsDistinct (2 ∷ 1 ∷ []) × All (IsOwned 1 catalog.event_types) (2 ∷ 1 ∷ []))
reorder_iff_example = reorder_iff anna (2 ∷ 1 ∷ []) catalog keys

abbrev reordered : Db
reordered = record catalog {
  event_types = record talk { position = 1 } ∷ record walk { position = 0 } ∷ [];
}

reorder_positions_example : reordered ≡ record catalog {
  event_types = map (λ e. at_place (index_of 0 (2 ∷ 1 ∷ []) e.id) e) catalog.event_types;
}
unfolding reorder owned set_positions any ◌>>=◌
reorder_positions_example = reorder_positions anna (2 ∷ 1 ∷ []) catalog reordered keys refl

abbrev site : AllowedOrigin
site = record { id = 1; origin = "https://anna.example.com"; label = none }

abbrev asked : List (ℕ × Event)
asked = (1000, asks "https://anna.example.com") ∷ (2000, elsewhere []) ∷ []

abbrev start : Origins
start = record { table = site ∷ []; cache = none; cached_at = 0 }

abbrev other_site : AllowedOrigin
other_site = record { id = 2; origin = "https://bela.example.com"; label = none }

abbrev warm : Origins
warm = record { table = site ∷ []; cache = some []; cached_at = 900 }

abbrev cold : Origins
cold = record { table = site ∷ other_site ∷ []; cache = none; cached_at = 900 }
