-- ===== src/Settings/Update.antt =====
-- `update` of settings/settings.service.ts with the validation of its body, and the controller.
use betti_coaching_calendar.Prelude.{
  ℕ, Bool, true, false, not, ◌&&◌, ◌||◌, ◌==◌, leb, String, Option, none, some, List, update_where,
}
use betti_coaching_calendar.Http.{Error, plain, bad_request, failure, prisma_error}
use betti_coaching_calendar.Action.{Action, pure, throw_if, find_or_throw, modify, ◌>>=◌, ◌>>◌}
use betti_coaching_calendar.Schema.{Db, Settings}
use betti_coaching_calendar.Common.Json.{Json}
use betti_coaching_calendar.Settings as SettingsService
use betti_coaching_calendar.Settings.{find_settings}
use betti_coaching_calendar.Settings.Palette.{is_valid_email_brand_palette}

-- an optional field of a body: undefined, null or a value
pub data Field {ℓ} (A : Type ℓ) : Type ℓ where
  absent : Field A
  null : Field A
  value : A → Field A

pub record UpdateSettingsDto : Type 0 where
  pub business_address : Field String
  pub cancellation_notice_hours : Field ℕ
  pub business_timezone : Field String
  pub email_from : Field String
  pub brand_name : Field String
  pub brand_tagline : Field String
  -- its type is checked to be an object
  pub email_brand_palette : Field Json

module _ {ℓ} {A : Type ℓ} where
  -- the decorators other than `@IsOptional`, which lets null pass
  abbrev pub passes : (A → Bool) → Field A → Bool
  passes p (value a) = p a
  passes p _ = true

  abbrev pub is_null : Field A → Bool
  is_null null = true
  is_null _ = false

  -- what an update leaves in a column that cannot be null
  abbrev pub over : Field A → A → A
  over (value a) b = a
  over _ b = b

  -- the same for a column that can
  abbrev pub over_optional : Field A → Option A → Option A
  over_optional absent b = b
  over_optional null b = none
  over_optional (value a) b = some a

-- the decorators of `UpdateSettingsDto`, with `isTimeZone` of class-validator
abbrev pub max_notice_hours : ℕ
max_notice_hours = 720

unfoldable pub is_valid_body : (String → Bool) → UpdateSettingsDto → Bool
is_valid_body is_time_zone dto =
    passes (λ hours. leb hours max_notice_hours) dto.cancellation_notice_hours
    && passes is_time_zone dto.business_timezone

-- Prisma refuses null for a column that cannot be null
abbrev pub has_forbidden_null : UpdateSettingsDto → Bool
has_forbidden_null dto =
    is_null dto.business_address
    || is_null dto.cancellation_notice_hours
    || is_null dto.business_timezone

abbrev pub apply : UpdateSettingsDto → Settings → Settings
apply dto row = record row {
  business_address = over dto.business_address row.business_address;
  cancellation_notice_hours = over dto.cancellation_notice_hours row.cancellation_notice_hours;
  business_timezone = over dto.business_timezone row.business_timezone;
  email_from = over_optional dto.email_from row.email_from;
  brand_name = over_optional dto.brand_name row.brand_name;
  brand_tagline = over_optional dto.brand_tagline row.brand_tagline;
  email_brand_palette = over_optional dto.email_brand_palette row.email_brand_palette;
}

abbrev pub is_of : ℕ → Settings → Bool
is_of coach_id s = s.coach_id == coach_id

abbrev pub set_settings : (List Settings → List Settings) → Db → Db
set_settings f db = record db { settings = f db.settings }

abbrev pub invalid_palette : Error
invalid_palette = bad_request (
    plain
      "emailBrandPalette must have light/dark objects, each with hex color values for bg, bgPanel, bgCard, ink, inkSoft, accent, accentSoft, line, brown")

-- `SettingsService.update`
unfoldable pub update : ℕ → UpdateSettingsDto → Action Db Settings
unfolding ◌>>=◌ is_valid_email_brand_palette update_where
update coach_id dto = do
  SettingsService.get coach_id
  throw_if (not (passes is_valid_email_brand_palette dto.email_brand_palette)) invalid_palette
  throw_if (has_forbidden_null dto) (failure "PrismaClientValidationError")
  row ← find_or_throw (find_settings coach_id) (prisma_error "P2025")
  modify (set_settings (update_where (is_of coach_id) (apply dto)))
  pure (apply dto row)

-- A request to the controller; the coach of an update is the one that the guard let in.
pub data Request : Type 0 where
  get : ℕ → Request
  patch : ℕ → UpdateSettingsDto → Request

unfoldable pub handle : (String → Bool) → Request → Action Db Settings
unfolding is_valid_body
handle is_time_zone (get coach_id) = SettingsService.get coach_id
handle is_time_zone (patch coach_id dto) = do
  throw_if (not (is_valid_body is_time_zone dto)) (bad_request (plain "validation"))
  update coach_id dto
