-- ===== src/Notifications/Mail.antt =====
-- What an email about a booking is made of: the properties of notifications/templates/BookingEmail.tsx
-- and the messages that notifications/email.service.ts hands to a provider.
use betti_coaching_calendar.Prelude.{String, Option, List}
use betti_coaching_calendar.Common.Json.{Json}

pub record BookingEmailDetail : Type 0 where
  pub label : String
  pub value : String

pub record BookingEmailButton : Type 0 where
  pub label : String
  pub url : String

pub record BookingEmailLink : Type 0 where
  pub label : String
  pub url : String

pub record BookingEmailProps : Type 0 where
  pub logo_url : String
  pub brand_name : String
  pub brand_tagline : Option String
  pub palette : Json
  pub preview_text : String
  pub heading : String
  pub intro : String
  pub details_heading : String
  pub details : List BookingEmailDetail
  pub note : Option BookingEmailDetail
  pub primary_button : Option BookingEmailButton
  pub secondary_button : Option BookingEmailButton
  pub manage_links : Option (List BookingEmailLink)
  pub helper_text : Option String
  pub calendar_note : Option String
  pub footer : String

pub record Attachment : Type 0 where
  pub filename : String
  pub content : String

pub data Provider : Type 0 where
  gmail resend : Provider

-- A message that a provider accepted. The properties stand for the HTML that the template makes of
-- them.
pub record Message : Type 0 where
  pub provider : Provider
  pub from : String
  pub to : String
  pub subject : String
  pub html : BookingEmailProps
  pub attachment : Option Attachment
