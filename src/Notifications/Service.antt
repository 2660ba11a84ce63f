-- ===== src/Notifications/Service.antt =====
-- notifications/notifications.service.ts: the two emails that each event of a booking has.
use betti_coaching_calendar.Prelude.{
  Bool, String, str_append, Option, none, some, get_or, if◌then◌else◌,
}
use betti_coaching_calendar.Http.{Result, ok, err, map_ok}
use betti_coaching_calendar.Action.{Action, lift, ◌>>=◌}
use betti_coaching_calendar.Schema.{Booking, EventType, Coach, Settings, LocationType}
use betti_coaching_calendar.World.{World, NotificationKind, on_db}
use betti_coaching_calendar.Settings as SettingsService
use betti_coaching_calendar.Settings.Palette.{default_email_palette}
use betti_coaching_calendar.Notifications.Formats.{
  Packages, IcsEvent, build_google_calendar_quick_add_url, build_ics_file,
}
use betti_coaching_calendar.Notifications.Content.{
  EmailRecipient, client, coach, BookingEmailContext, EmailContent, build_confirmed,
  build_cancelled, build_rescheduled,
}
use betti_coaching_calendar.Notifications.Email.{EmailConfig, ProviderAnswer, SendEmailInput, send}

pub record BookingWithRelations : Type 0 where
  pub booking : Booking
  pub event_type : EventType
  pub coach : Coach

-- `resolveLocationText`
abbrev pub resolve_location_text : LocationType → Option String → String → String
resolve_location_text LocationType.google_meet meet_link business_address = get_or meet_link ""
resolve_location_text LocationType.phone meet_link business_address = "Telefon"
resolve_location_text LocationType.in_person meet_link business_address = business_address

abbrev pub recipient_locale : EmailRecipient → BookingWithRelations → String
recipient_locale client b = b.booking.locale
recipient_locale coach b = b.coach.preferred_locale

abbrev pub recipient_address : EmailRecipient → BookingWithRelations → String
recipient_address client b = b.booking.client_email
recipient_address coach b = b.coach.email

abbrev pub email_input :
    EmailRecipient
    → BookingWithRelations
    → EmailContent
    → Option String
    → Option String
    → SendEmailInput
email_input recipient b made file email_from = record {
  to = recipient_address recipient b;
  subject = made.subject;
  props = made.props;
  ics_content = file;
  ics_filename = some "booking.ics";
  from = email_from;
}

module _ (pk : Packages) where
  -- `buildContext`
  unfoldable pub build_context : BookingWithRelations → Settings → BookingEmailContext
  unfolding build_google_calendar_quick_add_url
  build_context b settings = record {
    event_type_title = b.event_type.title;
    price = b.event_type.price;
    client_name = b.booking.client_name;
    coach_name = b.coach.name;
    start_at = b.booking.start_at;
    end_at = b.booking.end_at;
    duration_minutes = b.event_type.duration_minutes;
    location = b.booking.location;
    business_address = settings.business_address;
    meet_link = b.booking.meet_link;
    client_phone = b.booking.client_phone;
    timezone = settings.business_timezone;
    logo_url = str_append (get_or b.booking.origin_url "") "/email-logo.png";
    brand_name = get_or settings.brand_name b.coach.name;
    brand_tagline = settings.brand_tagline;
    palette = get_or settings.email_brand_palette default_email_palette;
    manage_url =
        str_append (get_or b.booking.origin_url "")
          (str_append "/?manage=" (pk.uuid b.booking.manage_token));
    google_calendar_url =
        build_google_calendar_quick_add_url pk b.event_type.title b.booking.client_note
          (resolve_location_text b.booking.location b.booking.meet_link settings.business_address)
          b.booking.start_at b.booking.end_at;
    cancelled_by = b.booking.cancelled_by;
    cancellation_reason = b.booking.cancellation_reason;
  }

  abbrev pub content :
      NotificationKind → BookingEmailContext → EmailRecipient → String → EmailContent
  content NotificationKind.confirmed ctx recipient locale = build_confirmed pk ctx recipient locale
  content NotificationKind.cancelled ctx recipient locale = build_cancelled pk ctx recipient locale
  content NotificationKind.rescheduled ctx recipient locale =
      build_rescheduled pk ctx recipient locale

  abbrev pub ics_event : BookingWithRelations → BookingEmailContext → IcsEvent
  ics_event b ctx = record {
    uid = str_append (pk.uuid b.booking.id) "@betti-coaching-calendar";
    title = b.event_type.title;
    description = b.booking.client_note;
    location = resolve_location_text b.booking.location b.booking.meet_link ctx.business_address;
    start = pk.utc_fields b.booking.start_at;
    end = pk.utc_fields b.booking.end_at;
    organizer = record { name = b.coach.name; email = b.coach.email };
    attendee = record { name = b.booking.client_name; email = b.booking.client_email };
  }

  -- a cancellation has no calendar file
  abbrev pub ics_content :
      NotificationKind → BookingWithRelations → BookingEmailContext → Result (Option String)
  ics_content NotificationKind.cancelled b ctx = ok none
  ics_content _ b ctx = map_ok (λ file. some file) (build_ics_file pk (ics_event b ctx))

  -- what `sendTo` hands to the email service
  unfoldable pub compose :
      EmailRecipient → NotificationKind → BookingWithRelations → Settings → Result SendEmailInput
  unfolding build_context build_confirmed build_cancelled build_rescheduled build_ics_file
  compose recipient kind b settings =
      map_ok
        (λ file.
          email_input recipient b
            (content kind (build_context b settings) recipient (recipient_locale recipient b)) file
            settings.email_from)
        (ics_content kind b (build_context b settings))

-- `Promise.all` of two calls: both run, in either order, and the error of the first that fails is
-- thrown
abbrev pub first_error : Result (Unit {0}) → Result (Unit {0}) → Result (Unit {0})
first_error (err e) _ = err e
first_error (ok _) r = r

unfoldable pub promise_all :
    Bool → Action World (Unit {0}) → Action World (Unit {0}) → Action World (Unit {0})
promise_all swapped m n w =
    if swapped
    then (first_error (n w).0 (m (n w).1).0, (m (n w).1).1)
    else (first_error (m w).0 (n (m w).1).0, (n (m w).1).1)

-- the answers of the providers to the two emails, and which of them is sent first
pub record SendEnv : Type 0 where
  pub client_answer : ProviderAnswer
  pub coach_answer : ProviderAnswer
  pub coach_first : Bool

module _ (pk : Packages) (config : EmailConfig) (e : SendEnv) where
  abbrev answer_to : EmailRecipient → ProviderAnswer
  answer_to client = e.client_answer
  answer_to coach = e.coach_answer

  unfoldable pub send_to :
      NotificationKind → BookingWithRelations → Settings → EmailRecipient → Action World (Unit {0})
  send_to kind b settings recipient =
      lift (compose pk recipient kind b settings) >>= send config (answer_to recipient)

  -- `notifyBookingConfirmed`, `notifyBookingCancelled` and `notifyBookingRescheduled`
  unfoldable pub notify : NotificationKind → BookingWithRelations → Action World (Unit {0})
  notify kind b = do
    settings ← on_db (SettingsService.get b.booking.coach_id)
    promise_all e.coach_first (send_to kind b settings client) (send_to kind b settings coach)
