-- ===== src/Notifications/Content.antt =====
-- notifications/email-content.builder.ts: subject and properties of an email about a booking.
use betti_coaching_calendar.Prelude.{
  ℕ, Bool, true, false, String, str_append, Option, none, some, List, [], ◌∷◌, get_or,
  if◌then◌else◌,
}
use betti_coaching_calendar.Schema.{LocationType, CancelledBy}
use betti_coaching_calendar.Common.Json.{Json}
use betti_coaching_calendar.I18n.{text, number, Vars, t}
use betti_coaching_calendar.Notifications.Mail.{
  BookingEmailDetail, BookingEmailButton, BookingEmailLink, BookingEmailProps,
}
use betti_coaching_calendar.Notifications.Formats.{Packages, has_text, format_price_huf}

pub data EmailRecipient : Type 0 where
  client coach : EmailRecipient

pub record BookingEmailContext : Type 0 where
  pub event_type_title : String
  pub price : Option ℕ
  pub client_name : String
  pub coach_name : String
  pub start_at : ℕ
  pub end_at : ℕ
  pub duration_minutes : ℕ
  pub location : LocationType
  pub business_address : String
  pub meet_link : Option String
  pub client_phone : String
  pub timezone : String
  pub logo_url : String
  pub brand_name : String
  pub brand_tagline : Option String
  pub palette : Json
  pub manage_url : String
  pub google_calendar_url : String
  pub cancelled_by : Option CancelledBy
  pub cancellation_reason : Option String

pub record EmailContent : Type 0 where
  pub subject : String
  pub props : BookingEmailProps

-- the kinds of email about a booking that stands
pub data ScheduledKind : Type 0 where
  booking_confirmed booking_rescheduled : ScheduledKind

abbrev kind_key : ScheduledKind → String
kind_key booking_confirmed = "bookingConfirmed"
kind_key booking_rescheduled = "bookingRescheduled"

abbrev recipient_key : EmailRecipient → String
recipient_key client = "client"
recipient_key coach = "coach"

-- `email.${kind}.${recipient}.${name}`
abbrev scheduled_key : ScheduledKind → EmailRecipient → String → String
scheduled_key kind recipient name = str_append "email." (
    str_append (kind_key kind)
      (str_append "." (str_append (recipient_key recipient) (str_append "." name))))

abbrev by_client : Option CancelledBy → Bool
by_client (some CancelledBy.client) = true
by_client _ = false

module _ (pk : Packages) where
  abbrev tr : String → String → Vars → String
  tr locale key vars = t pk.get_fixed_t key locale vars

  unfoldable pub location_label : BookingEmailContext → String → String
  unfolding t
  location_label ctx locale = label ctx.location
    where
      label : LocationType → String
      label LocationType.in_person =
          tr locale "email.common.locationInPerson" (("address", text ctx.business_address) ∷ [])
      label LocationType.google_meet =
          tr locale "email.common.locationGoogleMeet"
            (("link", text (get_or ctx.meet_link "")) ∷ [])
      label LocationType.phone =
          tr locale "email.common.locationPhone" (("phone", text ctx.client_phone) ∷ [])

  -- the row of the price is left out where there is none
  abbrev pub price_row : Option String → String → List BookingEmailDetail
  price_row price label =
      if has_text price then record { label = label; value = get_or price "" } ∷ [] else []

  unfoldable pub build_details : BookingEmailContext → String → List BookingEmailDetail
  unfolding t location_label format_price_huf
  build_details ctx locale =
      record { label = tr locale "email.common.labelEventType" []; value = ctx.event_type_title }
      ∷ record {
        label = tr locale "email.common.labelDateTime" [];
        value = pk.format_date_time ctx.timezone locale ctx.start_at;
      }
      ∷ record {
        label = tr locale "email.common.labelDuration" [];
        value = tr locale "email.common.minutes" (("count", number ctx.duration_minutes) ∷ []);
      }
      ∷ record {
        label = tr locale "email.common.labelLocation" [];
        value = location_label ctx locale;
      }
      ∷ price_row (format_price_huf pk ctx.price locale (tr locale "email.common.free" []))
          (tr locale "email.common.labelPrice" [])

  abbrev pub build_manage_links : BookingEmailContext → String → List BookingEmailLink
  build_manage_links ctx locale =
      record {
        label = tr locale "email.common.linkCancelBooking" [];
        url = str_append ctx.manage_url "&action=cancel#idopontfoglalas";
      }
      ∷ record {
        label = tr locale "email.common.linkRescheduleBooking" [];
        url = str_append ctx.manage_url "&action=reschedule#idopontfoglalas";
      }
      ∷ []

  abbrev scheduled_vars : BookingEmailContext → Vars
  scheduled_vars ctx =
      ("title", text ctx.event_type_title)
      ∷ ("name", text ctx.client_name)
      ∷ ("clientName", text ctx.client_name)
      ∷ []

  abbrev calendar_button : BookingEmailContext → String → BookingEmailButton
  calendar_button ctx locale = record {
    label = tr locale "email.common.buttonAddToGoogleCalendar" [];
    url = ctx.google_calendar_url;
  }

  abbrev calendar_note : ScheduledKind → String → Option String
  calendar_note booking_confirmed locale = none
  calendar_note booking_rescheduled locale = some (tr locale "email.common.calendarUpdateHint" [])

  -- `buildScheduledEmail`
  unfoldable pub build_scheduled_email :
      BookingEmailContext → EmailRecipient → String → ScheduledKind → EmailContent
  unfolding build_details t
  build_scheduled_email ctx client locale kind = record {
    subject = tr locale (scheduled_key kind client "subject") (scheduled_vars ctx);
    props = record {
      logo_url = ctx.logo_url;
      brand_name = ctx.brand_name;
      brand_tagline = ctx.brand_tagline;
      palette = ctx.palette;
      preview_text = tr locale (scheduled_key kind client "preview") (scheduled_vars ctx);
      heading = tr locale (scheduled_key kind client "heading") [];
      intro = tr locale (scheduled_key kind client "intro") (scheduled_vars ctx);
      details_heading = tr locale "email.common.detailsHeading" [];
      details = build_details ctx locale;
      note = none;
      primary_button = none;
      secondary_button = some (calendar_button ctx locale);
      manage_links = some (build_manage_links ctx locale);
      helper_text = some (tr locale (scheduled_key kind client "manageHint") []);
      calendar_note = calendar_note kind locale;
      footer = tr locale "email.common.footer" [];
    };
  }
  build_scheduled_email ctx coach locale kind = record {
    subject = tr locale (scheduled_key kind coach "subject") (scheduled_vars ctx);
    props = record {
      logo_url = ctx.logo_url;
      brand_name = ctx.brand_name;
      brand_tagline = ctx.brand_tagline;
      palette = ctx.palette;
      preview_text = tr locale (scheduled_key kind coach "preview") (scheduled_vars ctx);
      heading = tr locale (scheduled_key kind coach "heading") [];
      intro = tr locale (scheduled_key kind coach "intro") (scheduled_vars ctx);
      details_heading = tr locale "email.common.detailsHeading" [];
      details = build_details ctx locale;
      note = none;
      primary_button = none;
      secondary_button = some (calendar_button ctx locale);
      manage_links = none;
      helper_text = none;
      calendar_note = calendar_note kind locale;
      footer = tr locale "email.common.footer" [];
    };
  }

  unfoldable pub build_confirmed : BookingEmailContext → EmailRecipient → String → EmailContent
  unfolding build_scheduled_email
  build_confirmed ctx recipient locale =
      build_scheduled_email ctx recipient locale booking_confirmed

  unfoldable pub build_rescheduled : BookingEmailContext → EmailRecipient → String → EmailContent
  unfolding build_scheduled_email
  build_rescheduled ctx recipient locale =
      build_scheduled_email ctx recipient locale booking_rescheduled

  -- the reason, if the person who cancelled gave one
  abbrev pub reason_note : BookingEmailContext → EmailRecipient → String → Option BookingEmailDetail
  reason_note ctx recipient locale =
      if has_text ctx.cancellation_reason
      then some (record {
        label =
            tr locale
              (str_append "email.bookingCancelled."
                (str_append (recipient_key recipient) ".reasonLabel"))
              [];
        value = get_or ctx.cancellation_reason "";
      })
      else none

  unfoldable pub build_cancelled : BookingEmailContext → EmailRecipient → String → EmailContent
  unfolding build_details t
  build_cancelled ctx client locale = record {
    subject =
        tr locale "email.bookingCancelled.client.subject"
          (("title", text ctx.event_type_title) ∷ []);
    props = record {
      logo_url = ctx.logo_url;
      brand_name = ctx.brand_name;
      brand_tagline = ctx.brand_tagline;
      palette = ctx.palette;
      preview_text = tr locale "email.bookingCancelled.client.preview" [];
      heading = tr locale "email.bookingCancelled.client.heading" [];
      intro =
          tr locale
            (if by_client ctx.cancelled_by
              then "email.bookingCancelled.client.introByClient"
              else "email.bookingCancelled.client.introByCoach")
            (("coachName", text ctx.coach_name) ∷ []);
      details_heading = tr locale "email.common.detailsHeading" [];
      details = build_details ctx locale;
      note = reason_note ctx client locale;
      primary_button = none;
      secondary_button = none;
      manage_links = none;
      helper_text = some (tr locale "email.bookingCancelled.client.rebookHint" []);
      calendar_note = none;
      footer = tr locale "email.common.footer" [];
    };
  }
  build_cancelled ctx coach locale = record {
    subject =
        tr locale "email.bookingCancelled.coach.subject"
          (("title", text ctx.event_type_title) ∷ []);
    props = record {
      logo_url = ctx.logo_url;
      brand_name = ctx.brand_name;
      brand_tagline = ctx.brand_tagline;
      palette = ctx.palette;
      preview_text = tr locale "email.bookingCancelled.coach.preview" [];
      heading = tr locale "email.bookingCancelled.coach.heading" [];
      intro =
          tr locale
            (if by_client ctx.cancelled_by
              then "email.bookingCancelled.coach.introByClient"
              else "email.bookingCancelled.coach.introByCoach")
            (("clientName", text ctx.client_name) ∷ []);
      details_heading = tr locale "email.common.detailsHeading" [];
      details = build_details ctx locale;
      note = reason_note ctx coach locale;
      primary_button = none;
      secondary_button = none;
      manage_links = none;
      helper_text = none;
      calendar_note = none;
      footer = tr locale "email.common.footer" [];
    };
  }
