-- ===== src/Tests/Emails.antt =====
-- Notification jobs and their emails at concrete inputs.
use betti_coaching_calendar.Settings.Palette.{default_email_palette, default_email_palette-valid}
use betti_coaching_calendar.Notifications.Links.{expected_links, compose-links}
use betti_coaching_calendar.Notifications.Template.Markup.{values}
use betti_coaching_calendar.Notifications.Template.Styles.{EmailPalette, EmailBrandPalette}
use betti_coaching_calendar.Notifications.Template.Css.{build_font_and_dark_mode_css}
use betti_coaching_calendar.Notifications.Template.BookingEmail.{booking_email, read_palette}
use betti_coaching_calendar.Notifications.Template.Sheet.{IsColored, stays_inside}
use betti_coaching_calendar.Notifications.Template.Colors.{read_palette-IsColored}
use betti_coaching_calendar.Prelude.{
  ℕ, ◌+◌, ◌≤◌, ◌≡◌, ◌==◌, refl, inl, true, false, none, some, List, [], ◌∷◌, length, find,
  if◌then◌else◌,
}
use betti_coaching_calendar.Http.{failure, ok, err}
use betti_coaching_calendar.Action.{◌>>=◌}
use betti_coaching_calendar.Schema.{LocationType, Booking}
use betti_coaching_calendar.World.{World, NotificationKind, NotificationJobData, on_db}
use betti_coaching_calendar.Settings as SettingsService
use betti_coaching_calendar.Settings.{default_settings}
use betti_coaching_calendar.Notifications.Formats.{Packages, build_ics_file}
use betti_coaching_calendar.Notifications.Content.{client, coach}
use betti_coaching_calendar.Notifications.Email.{EmailConfig, ProviderAnswer, SendEmailInput, send}
use betti_coaching_calendar.Notifications.Service.{
  BookingWithRelations, SendEnv, compose, email_input, content, build_context, promise_all, send_to,
  notify,
}
use betti_coaching_calendar.Notifications.Secrets.{with_token, compose-with_token}
use betti_coaching_calendar.Notifications.Reach.{IsReached, notify_reaches}
use betti_coaching_calendar.Jobs.{AttemptEnv}
use betti_coaching_calendar.Jobs.Retries as JobRetries
use betti_coaching_calendar.Jobs.Retries.{failures, run_one_event}
use betti_coaching_calendar.Tests.Data.{anna, talk, db, world, env, booking, nine}

-- packages that write everything in a simple way
abbrev packages : Packages
packages = record {
  get_fixed_t = λ locale key vars. key;
  format_date_time = λ zone locale at. "then";
  format_number = λ locale n. "some";
  utc_stamp = λ at. "stamp";
  utc_fields = λ at. record { year = 2026; month = 1; day = 1; hour = 9; minute = 0 };
  search_params = λ params. "params";
  create_event = λ event. (none, some "file");
  uuid = λ id. if id == 101 then "first" else "second";
}

abbrev config : EmailConfig
config = record { email_from = "shared@example.com"; resend_api_key = some "key" }

abbrev accepting : ProviderAnswer
accepting = record { gmail = ok tt; resend = ok none }

abbrev refusing : ProviderAnswer
refusing = record { gmail = err (failure "mail"); resend = ok none }

-- Google fails at first; then the event is made, but the emails fail; then they are sent
abbrev attempt_at : ℕ → AttemptEnv
attempt_at k = record {
  env = env 1;
  inserted =
      if k == 0
      then err (failure "quota")
      else ok (record { id = some "e"; hangout_link = some "link"; video_uri = none });
  stored = ok tt;
  sends = record {
    client_answer = accepting;
    coach_answer = if k == 1 then refusing else accepting;
    coach_first = true;
  };
}

abbrev meet : Booking
meet = record (booking 1 nine) { location = LocationType.google_meet }

abbrev online : World
online = record world {
  db = record db {
    bookings = meet ∷ [];
    integrations =
        record {
          coach_id = 1;
          refresh_token_encrypted = "t";
          connected_email = "e";
          connected_at = 0;
        }
        ∷ [];
  };
}

abbrev job : NotificationJobData
job = record { booking_id = 1; coach_id = 1; kind = NotificationKind.confirmed }

abbrev attempts : List AttemptEnv
attempts = attempt_at 0 ∷ attempt_at 1 ∷ attempt_at 2 ∷ []

run_one_event_example :
    length (JobRetries.run packages config job attempts online).calls
    ≤ length online.calls + 1 + failures attempts
run_one_event_example = run_one_event packages config job attempts online

abbrev rows : BookingWithRelations
rows = record { booking = booking 1 nine; event_type = talk; coach = anna }

compose-with_token_example :
    compose packages coach NotificationKind.confirmed (with_token 7 rows) (default_settings 1)
    ≡ compose packages coach NotificationKind.confirmed rows (default_settings 1)
compose-with_token_example =
    compose-with_token packages coach NotificationKind.confirmed rows (default_settings 1) 7
      (inl refl)

abbrev sends : SendEnv
sends = record { client_answer = accepting; coach_answer = accepting; coach_first = false }

notify_reaches_example :
    IsReached packages config sends NotificationKind.cancelled rows world
      (notify packages config sends NotificationKind.cancelled rows world).1
unfolding notify send_to compose send promise_all on_db SettingsService.get ◌>>=◌ find
notify_reaches_example =
    notify_reaches packages config sends NotificationKind.cancelled rows world
      (notify packages config sends NotificationKind.cancelled rows world).1 refl

abbrev grey : EmailPalette
grey = record {
  bg = "#eeeeee";
  bg_panel = "#dddddd";
  bg_card = "#ffffff";
  ink = "#000000";
  ink_soft = "#111111";
  accent = "#222222";
  accent_soft = "#333333";
  line = "#444444";
  brown = "#555555";
}

abbrev made : SendEmailInput
made =
    email_input client rows
      (content packages NotificationKind.confirmed
        (build_context packages rows (default_settings 1)) client "hu")
      (some "file") none

compose-links_example :
    values "href" (booking_email (record { light = grey; dark = grey }) made.props)
    ≡ expected_links NotificationKind.confirmed client
        (build_context packages rows (default_settings 1))
compose-links_example =
    compose-links packages (record { light = grey; dark = grey }) client NotificationKind.confirmed
      rows (default_settings 1) made (unfold compose build_ics_file in refl)

read_palette-IsColored_example :
    (p : EmailBrandPalette) × (read_palette default_email_palette ≡ some p)
    × IsColored p.light
    × IsColored p.dark
    × (stays_inside (build_font_and_dark_mode_css p.dark) ≡ true)
read_palette-IsColored_example =
    read_palette-IsColored default_email_palette default_email_palette-valid
