-- ===== src/Settings.antt =====
-- settings/settings.service.ts: the business profile of a coach, made on first read.
pub mod Palette
pub mod Update
pub mod Profiles
pub mod Shown
use betti_coaching_calendar.Prelude.{ℕ, ◌==◌, Option, none, some, [], ◌∷◌, ◌++◌, find}
use betti_coaching_calendar.Http.{plain, not_found, ok}
use betti_coaching_calendar.Action.{Action, find_or_throw, ◌>>=◌, ◌>>◌}
use betti_coaching_calendar.Schema.{Db, Coach, Settings}

-- the defaults of the Settings table
abbrev pub default_settings : ℕ → Settings
default_settings coach_id = record {
  coach_id = coach_id;
  business_address = "";
  cancellation_notice_hours = 48;
  business_timezone = "Europe/Budapest";
  email_from = none;
  brand_name = none;
  brand_tagline = none;
  email_brand_palette = none;
}

-- `settings.upsert` with an empty update, after its lookup
abbrev pub upsert : ℕ → Option Settings → Action Db Settings
upsert coach_id none db = (
  ok (default_settings coach_id),
  record db { settings = db.settings ++ default_settings coach_id ∷ [] },
)
upsert coach_id (some row) db = (ok row, db)

abbrev pub find_settings : ℕ → Db → Option Settings
find_settings coach_id db = find (λ s. s.coach_id == coach_id) db.settings

abbrev pub find_coach : ℕ → Db → Option Coach
find_coach id db = find (λ c. c.id == id) db.coaches

-- `SettingsService.get`
unfoldable pub get : ℕ → Action Db Settings
unfolding ◌>>=◌
get coach_id = find_or_throw (find_coach coach_id) (not_found (plain "Coach not found")) >> λ db.
    upsert coach_id (find_settings coach_id db) db
