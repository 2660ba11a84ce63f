-- ===== src/Schema.antt =====
-- prisma/schema.prisma: the tables, a row as a record and a table as a list of rows. Identifiers,
-- `manageToken` among them, are numbers: the code only compares them. The number 0 stands for the
-- empty string, which no generated identifier is, and which JavaScript takes for false. Instants
-- are milliseconds since 1970, calendar dates are days since a fixed day.
use betti_coaching_calendar.Prelude.{
  ℕ, Bool, true, false, Option, none, some, List, String, not, ◌==◌,
}
use betti_coaching_calendar.Common.Json.{Json}

pub data LocationType : Type 0 where
  in_person google_meet phone : LocationType

pub data BookingStatus : Type 0 where
  confirmed cancelled : BookingStatus

pub data CancelledBy : Type 0 where
  client coach : CancelledBy

pub data CoachRole : Type 0 where
  admin coach : CoachRole

pub record Coach : Type 0 where
  pub id : ℕ
  pub email : String
  pub password_hash : String
  pub name : String
  pub preferred_locale : String
  pub role : CoachRole
  pub sessions_revoked_at : Option ℕ
  pub frontend_url : Option String

pub record EventType : Type 0 where
  pub id : ℕ
  pub coach_id : ℕ
  pub title : String
  pub description : Option String
  pub duration_minutes : ℕ
  pub locations : List LocationType
  pub price : Option ℕ
  pub position : ℕ
  pub is_active : Bool

pub record WeeklyAvailability : Type 0 where
  pub id : ℕ
  pub coach_id : ℕ
  pub weekday : ℕ
  pub start_minute : ℕ
  pub end_minute : ℕ

pub record AvailabilityOverride : Type 0 where
  pub id : ℕ
  pub coach_id : ℕ
  pub date : ℕ
  pub is_unavailable : Bool
  pub start_minute : Option ℕ
  pub end_minute : Option ℕ

pub record Booking : Type 0 where
  pub id : ℕ
  pub event_type_id : ℕ
  pub coach_id : ℕ
  pub start_at : ℕ
  pub end_at : ℕ
  pub location : LocationType
  pub client_name : String
  pub client_email : String
  pub client_phone : String
  pub client_note : Option String
  pub locale : String
  pub status : BookingStatus
  pub cancelled_by : Option CancelledBy
  pub cancellation_reason : Option String
  pub manage_token : ℕ
  pub google_event_id : Option String
  pub meet_link : Option String
  pub origin_url : Option String

pub record Settings : Type 0 where
  pub coach_id : ℕ
  pub business_address : String
  pub cancellation_notice_hours : ℕ
  pub business_timezone : String
  pub email_from : Option String
  pub brand_name : Option String
  pub brand_tagline : Option String
  pub email_brand_palette : Option Json

pub record GoogleIntegration : Type 0 where
  pub coach_id : ℕ
  pub refresh_token_encrypted : String
  pub connected_email : String
  pub connected_at : ℕ

pub record AllowedOrigin : Type 0 where
  pub id : ℕ
  pub origin : String
  pub label : Option String

pub record Db : Type 0 where
  pub coaches : List Coach
  pub event_types : List EventType
  pub weekly : List WeeklyAvailability
  pub overrides : List AvailabilityOverride
  pub bookings : List Booking
  pub settings : List Settings
  pub integrations : List GoogleIntegration
  pub allowed_origins : List AllowedOrigin

-- `id ? … : …`, with 0 for the empty string
abbrev pub truthy : Option ℕ → Bool
truthy none = false
truthy (some i) = not (i == 0)

abbrev pub is_admin : CoachRole → Bool
is_admin CoachRole.admin = true
is_admin CoachRole.coach = false

abbrev pub is_confirmed : BookingStatus → Bool
is_confirmed confirmed = true
is_confirmed cancelled = false

-- equality of locations
abbrev pub same_location : LocationType → LocationType → Bool
same_location in_person in_person = true
same_location google_meet google_meet = true
same_location phone phone = true
same_location _ _ = false

abbrev pub is_google_meet : LocationType → Bool
is_google_meet google_meet = true
is_google_meet _ = false
