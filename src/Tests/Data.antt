-- ===== src/Tests/Data.antt =====
-- A small calendar: one coach in a zone without daylight saving time, who works from 9 to 11 on the
-- weekday of date 10, and offers one service of an hour.
use betti_coaching_calendar.Prelude.{
  ℕ, ◌+◌, ◌*◌, ◌/◌, ◌%◌, ◌==◌, refl, true, String, str_eq, none, some, [], ◌∷◌, if◌then◌else◌,
  arith,
}
use betti_coaching_calendar.Http.{ok}
use betti_coaching_calendar.Schema.{
  Db, Coach, CoachRole, EventType, LocationType, WeeklyAvailability, Booking, BookingStatus,
}
use betti_coaching_calendar.World.{World, Env, commits, serialization_failure}
use betti_coaching_calendar.Common.Luxon.{Zone, Luxon, IsRegularUntil}
use betti_coaching_calendar.Settings.{default_settings}
use betti_coaching_calendar.Bookings.Service.{CreateBookingDto}

abbrev pub day_ms : ℕ
day_ms = 86400000

abbrev pub utc : Zone
utc = record {
  date_of = λ n. n / 86400000;
  minute_of = λ n. n % 86400000 / 60000;
  start_of_day = λ d. d * 86400000;
  at_minute = λ d m. d * 86400000 + m * 60000;
  weekday = λ d. d % 7 + 1;
  from_iso_date = λ _. some 10;
}

pub utc-IsRegularUntil : IsRegularUntil utc 10 1440
utc-IsRegularUntil = record {
  date = λ m h. omega arith;
  wall = λ m h. omega arith;
  elapsed = λ m h. refl;
}

abbrev pub nine : ℕ
nine = 896400000

abbrev pub ten : ℕ
ten = 900000000

abbrev pub luxon : Luxon
luxon = record {
  from_iso = λ text. if str_eq text "nine" then some 896400000 else some 900000000;
  zone = λ _. utc;
}

abbrev pub anna : Coach
anna = record {
  id = 1;
  email = "anna@example.com";
  password_hash = "hash";
  name = "Anna";
  preferred_locale = "hu";
  role = CoachRole.coach;
  sessions_revoked_at = none;
  frontend_url = some "https://anna.example.com";
}

abbrev pub talk : EventType
talk = record {
  id = 1;
  coach_id = 1;
  title = "Talk";
  description = none;
  duration_minutes = 60;
  locations = LocationType.phone ∷ [];
  price = none;
  position = 0;
  is_active = true;
}

abbrev pub thursday : WeeklyAvailability
thursday = record { id = 1; coach_id = 1; weekday = 4; start_minute = 540; end_minute = 660 }

abbrev pub db : Db
db = record {
  coaches = anna ∷ [];
  event_types = talk ∷ [];
  weekly = thursday ∷ [];
  overrides = [];
  bookings = [];
  settings = default_settings 1 ∷ [];
  integrations = [];
  allowed_origins = [];
}

abbrev pub world : World
world = record { db = db; jobs = []; calls = []; mails = [] }

-- a request whose transaction commits at the first attempt
abbrev pub env : ℕ → Env
env id = record {
  now = 800000000;
  new_id = id;
  new_token = id + 100;
  before_attempt = λ k d. d;
  attempt = λ k. commits;
  other_connection = λ k d. d;
  send_error = none;
  decrypt = λ text. ok text;
}

-- one whose first attempt could not be serialized
abbrev pub busy_env : Env
busy_env = record (env 1) { attempt = λ k. if k == 1 then serialization_failure else commits }

abbrev pub dto : String → CreateBookingDto
dto start_at = record {
  event_type_id = 1;
  start_at = start_at;
  location = LocationType.phone;
  client_name = "Cili";
  client_email = "cili@example.com";
  client_phone = "1";
  client_note = none;
  locale = "hu";
}

abbrev pub booking : ℕ → ℕ → Booking
booking id start_at = record {
  id = id;
  event_type_id = 1;
  coach_id = 1;
  start_at = start_at;
  end_at = start_at + 3600000;
  location = LocationType.phone;
  client_name = "Cili";
  client_email = "cili@example.com";
  client_phone = "1";
  client_note = none;
  locale = "hu";
  status = BookingStatus.confirmed;
  cancelled_by = none;
  cancellation_reason = none;
  manage_token = id + 100;
  google_event_id = none;
  meet_link = none;
  origin_url = none;
}
