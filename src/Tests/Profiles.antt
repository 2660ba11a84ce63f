-- ===== src/Tests/Profiles.antt =====
-- The settings of a coach at concrete inputs.
use betti_coaching_calendar.Prelude.{
  refl, none, some, Bool, String, str_eq, [], ◌∷◌, find, update_where,
}
use betti_coaching_calendar.Action.{◌>>=◌}
use betti_coaching_calendar.Schema.{Settings}
use betti_coaching_calendar.Settings as SettingsService
use betti_coaching_calendar.Settings.{default_settings}
use betti_coaching_calendar.Settings.Palette.{default_email_palette, is_valid_email_brand_palette}
use betti_coaching_calendar.Settings.Update.{
  absent, null, value, UpdateSettingsDto, update, get, patch,
}
use betti_coaching_calendar.Settings.Profiles.{IsProfiles, serve, serve-IsProfiles}
use betti_coaching_calendar.Settings.Shown.{IsUpdated, update_lem}
use betti_coaching_calendar.Tests.Data.{db}

abbrev is_time_zone : String → Bool
is_time_zone zone = str_eq zone "Europe/Budapest"

-- a change of the notice window, the sender and the colours
abbrev dto : UpdateSettingsDto
dto = record {
  business_address = absent;
  cancellation_notice_hours = value 24;
  business_timezone = absent;
  email_from = null;
  brand_name = value "Betti";
  brand_tagline = absent;
  email_brand_palette = value default_email_palette;
}

serve-IsProfiles_example :
    IsProfiles is_time_zone (serve is_time_zone (patch 1 dto ∷ get 2 ∷ []) db)
serve-IsProfiles_example =
    serve-IsProfiles is_time_zone (patch 1 dto ∷ get 2 ∷ []) db refl (record {
      own = (tt, tt);
      valid = (record { notice = refl; zone = refl; palette = refl }, tt);
    })

abbrev changed : Settings
changed = record (default_settings 1) {
  cancellation_notice_hours = 24;
  email_from = none;
  brand_name = some "Betti";
  email_brand_palette = some default_email_palette;
}

update_lem_example : IsUpdated 1 dto db changed (record db { settings = changed ∷ [] })
unfolding update SettingsService.get ◌>>=◌ find update_where is_valid_email_brand_palette
update_lem_example = update_lem 1 dto db changed (record db { settings = changed ∷ [] }) refl
