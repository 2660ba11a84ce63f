-- ===== src/EventTypes.antt =====
-- event-types/event-types.service.ts and its DTOs: the services that a coach offers.
pub mod Order
pub mod Reorder
use betti_coaching_calendar.Prelude.{
  ℕ, zero, suc, ◌+◌, ◌≤◌, ◌≡◌, Bool, true, false, not, ◌&&◌, ◌||◌, ◌==◌, ltb, leb, String, str_eq,
  Option, none, some, List, [], ◌∷◌, ◌++◌, length, find, any, keep, sort_by, update_where, get_or,
  or_else, is_some, if◌then◌else◌,
}
use betti_coaching_calendar.Http.{
  Error, plain, bad_request, conflict, prisma_error, Result, ok, err,
}
use betti_coaching_calendar.Action.{
  Action, pure, lift, gets, find_or_throw, throw_if, throw_when, modify, ◌>>=◌, ◌>>◌,
}
use betti_coaching_calendar.Schema.{Db, Coach, EventType, LocationType, same_location, Booking}
use betti_coaching_calendar.Common.Ownership.{assert_coach_owns_or_is_admin}

pub record CreateEventTypeDto : Type 0 where
  pub title : String
  pub description : Option String
  pub duration_minutes : ℕ
  pub locations : List LocationType
  pub price : Option ℕ
  pub position : Option ℕ

-- `PartialType` of it, with `isActive`; a null description or price is stored as such
pub record UpdateEventTypeDto : Type 0 where
  pub title : Option String
  pub description : Option (Option String)
  pub duration_minutes : Option ℕ
  pub locations : Option (List LocationType)
  pub price : Option (Option ℕ)
  pub position : Option ℕ
  pub is_active : Option Bool

-- `orderBy: [{ position: 'asc' }, { title: 'asc' }]`; `le` is the order of titles in the database's
-- collation
abbrev pub in_order : (String → String → Bool) → EventType → EventType → Bool
in_order le a b = ltb a.position b.position || (a.position == b.position && le a.title b.title)

unfoldable pub find_active : (String → String → Bool) → ℕ → Db → List EventType
unfolding keep sort_by
find_active le coach_id db =
    sort_by (in_order le) (keep (λ e. e.is_active && (e.coach_id == coach_id)) db.event_types)

unfoldable pub find_mine : (String → String → Bool) → ℕ → Db → List EventType
unfolding keep sort_by
find_mine le coach_id db = sort_by (in_order le) (keep (λ e. e.coach_id == coach_id) db.event_types)

abbrev pub max : ℕ → ℕ → ℕ
max a b = if leb a b then b else a

-- `_max: { position: true }`
unfoldable pub max_position : List EventType → Option ℕ
max_position [] = none
max_position (e ∷ es) = let rest = max_position es in some (max e.position (get_or rest 0))

abbrev pub after : Option ℕ → ℕ
after none = 0
after (some n) = n + 1

-- `(last._max.position ?? -1) + 1`
unfoldable pub next_position : ℕ → Db → ℕ
unfolding keep max_position
next_position coach_id db = after (max_position (keep (λ e. e.coach_id == coach_id) db.event_types))

abbrev pub set_event_types : (List EventType → List EventType) → Db → Db
set_event_types f db = record db { event_types = f db.event_types }

-- `id` is the identifier that the database makes
unfoldable pub create : ℕ → Coach → CreateEventTypeDto → Action Db EventType
create id coach dto = do
  next ← gets (next_position coach.id)
  let row : EventType = record {
    id = id;
    coach_id = coach.id;
    title = dto.title;
    description = dto.description;
    duration_minutes = dto.duration_minutes;
    locations = dto.locations;
    price = dto.price;
    position = get_or dto.position next;
    is_active = true;
  }
  modify (set_event_types (λ es. es ++ row ∷ []))
  pure row

unfoldable pub assert_ownership : Coach → ℕ → Action Db EventType
unfolding assert_coach_owns_or_is_admin find
assert_ownership coach id = do
  row ← gets (λ db. find (λ e. e.id == id) db.event_types)
  lift (assert_coach_owns_or_is_admin (λ e. e.coach_id) coach row (plain "Event type not found"))

unfoldable pub apply : UpdateEventTypeDto → EventType → EventType
apply dto e = record e {
  title = get_or dto.title e.title;
  description = get_or dto.description e.description;
  duration_minutes = get_or dto.duration_minutes e.duration_minutes;
  locations = get_or dto.locations e.locations;
  price = get_or dto.price e.price;
  position = get_or dto.position e.position;
  is_active = get_or dto.is_active e.is_active;
}

-- `eventType.update({ where: { id } })` of a row that was found
abbrev pub store : ℕ → (EventType → EventType) → Action Db (Unit {0})
store id change = modify (set_event_types (update_where (λ e. e.id == id) change))

unfoldable pub update : Coach → ℕ → UpdateEventTypeDto → Action Db EventType
unfolding update_where apply
update coach id dto = do
  event_type ← assert_ownership coach id
  store event_type.id (apply dto)
  pure (apply dto event_type)

abbrev pub deactivate : EventType → EventType
deactivate e = record e { is_active = false }

unfoldable pub archive : Coach → ℕ → Action Db EventType
unfolding update_where
archive coach id = do
  event_type ← assert_ownership coach id
  store event_type.id deactivate
  pure (deactivate event_type)

-- a booking refers to it
abbrev pub is_booked : ℕ → Db → Bool
is_booked id db = any (λ b. b.event_type_id == id) db.bookings

-- `eventType.delete`: the database, whose foreign key is `onDelete: Restrict`, throws P2003
unfoldable pub delete_event_type : ℕ → Action Db (Unit {0})
unfolding any keep
delete_event_type id = do
  throw_when (is_booked id) (prisma_error "P2003")
  modify (set_event_types (keep (λ e. not (e.id == id))))

-- the `catch` of `remove`
unfoldable pub catch_restricted : Error → Error
catch_restricted (prisma_error code) =
    if str_eq code "P2003"
    then conflict (
        plain
          "This service has existing bookings and cannot be permanently deleted -- archive it instead")
    else prisma_error code
catch_restricted e = e

abbrev caught : Result (Unit {0}) → Result (Unit {0})
caught (ok done) = ok done
caught (err e) = err (catch_restricted e)

unfoldable pub remove : Coach → ℕ → Action Db (Unit {0})
remove coach id = do
  event_type ← assert_ownership coach id
  λ db. (let (result, after) = delete_event_type event_type.id db in (caught result, after))

abbrev pub includes : List ℕ → ℕ → Bool
includes ids id = any (λ i. i == id) ids

-- the transaction: each identifier gets its index
unfoldable pub set_positions : ℕ → List ℕ → List EventType → List EventType
unfolding update_where
set_positions k [] es = es
set_positions k (id ∷ ids) es =
    set_positions (suc k) ids (update_where (λ e. e.id == id) (λ e. record e { position = k }) es)

unfoldable pub owned : Coach → List ℕ → Db → List EventType
unfolding keep any
owned coach ids db = keep (λ e. includes ids e.id && (e.coach_id == coach.id)) db.event_types

unfoldable pub reorder : Coach → List ℕ → Action Db (Unit {0})
unfolding owned set_positions
reorder coach ids = do
  throw_when (λ db. not (length (owned coach ids db) == length ids))
      (bad_request (plain "One or more event types were not found or are not yours"))
  modify (set_event_types (set_positions 0 ids))
