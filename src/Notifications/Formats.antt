-- ===== src/Notifications/Formats.antt =====
-- notifications/price-format.util.ts, notifications/google-calendar-link.util.ts and
-- notifications/ics.util.ts, over the packages that write numbers, dates and addresses.
use betti_coaching_calendar.Prelude.{
  ℕ, Bool, true, false, ◌&&◌, ◌==◌, String, str_eq, str_append, Option, none, some, List, [], ◌∷◌,
  get_or, if◌then◌else◌,
}
use betti_coaching_calendar.Http.{Error, failure, Result, ok, err}
use betti_coaching_calendar.I18n.{FixedT}
use betti_coaching_calendar.Settings.Palette.{codes}

pub record Person : Type 0 where
  pub name : String
  pub email : String

pub record DateArray : Type 0 where
  pub year : ℕ
  pub month : ℕ
  pub day : ℕ
  pub hour : ℕ
  pub minute : ℕ

-- what `createEvent` of the package ics is given, besides the constants
pub record IcsEvent : Type 0 where
  pub uid : String
  pub title : String
  pub description : Option String
  pub location : String
  pub start : DateArray
  pub end : DateArray
  pub organizer : Person
  pub attendee : Person

-- i18next, luxon, Intl, URLSearchParams and ics
pub record Packages : Type 0 where
  pub get_fixed_t : FixedT
  -- `toLocaleString` in a zone and a locale
  pub format_date_time : String → String → ℕ → String
  -- `Intl.NumberFormat(locale).format`
  pub format_number : String → ℕ → String
  -- `toFormat("yyyyMMdd'T'HHmmss'Z'")` in UTC
  pub utc_stamp : ℕ → String
  -- the fields of an instant in UTC
  pub utc_fields : ℕ → DateArray
  pub search_params : List (String × String) → String
  -- `error` and `value`
  pub create_event : IcsEvent → Option Error × Option String
  -- how an identifier or a token is written
  pub uuid : ℕ → String

-- the text is there and not empty
abbrev pub has_text : Option String → Bool
has_text none = false
has_text (some text) = if str_eq text "" then false else true

abbrev starts : List ℕ → List ℕ → Bool
starts [] text = true
starts (c ∷ cs) [] = false
starts (c ∷ cs) (d ∷ ds) = c == d && starts cs ds

-- `text.startsWith(prefix)`
abbrev starts_with : String → String → Bool
starts_with text prefix = starts (codes prefix) (codes text)

-- `if (error || !value) throw`
abbrev pub ics_answer : Option Error × Option String → Result String
ics_answer (some e, value) = err e
ics_answer (none, value) =
    if has_text value then ok (get_or value "") else err (failure "Failed to build ICS file")

module _ (pk : Packages) where
  unfoldable pub format_price_huf : Option ℕ → String → String → Option String
  format_price_huf none locale free_label = none
  format_price_huf (some price) locale free_label =
      if price == 0
      then some free_label
      else some (
          str_append (pk.format_number (if starts_with locale "hu" then "hu-HU" else "en-US") price)
            " HUF")

  -- title, note, place, start and end
  unfoldable pub build_google_calendar_quick_add_url :
      String → Option String → String → ℕ → ℕ → String
  build_google_calendar_quick_add_url title description location start_at end_at =
      str_append "https://calendar.google.com/calendar/render?" (
        pk.search_params (
          ("action", "TEMPLATE")
          ∷ ("text", title)
          ∷ ("dates", str_append (pk.utc_stamp start_at) (str_append "/" (pk.utc_stamp end_at)))
          ∷ ("details", get_or description "")
          ∷ ("location", location)
          ∷ []))

  unfoldable pub build_ics_file : IcsEvent → Result String
  build_ics_file event = ics_answer (pk.create_event event)
