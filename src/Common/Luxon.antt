-- ===== src/Common/Luxon.antt =====
-- The dates of luxon, which the code uses and which are not part of it. An instant is a number of
-- milliseconds since 1970, a calendar date a number of days, so that ISO date strings and days
-- are ordered alike. A zone is what a named timezone makes of instants.
use betti_coaching_calendar.Prelude.{ℕ, ◌+◌, ◌*◌, ◌<◌, ◌≡◌, Option, String}

pub record Zone : Type 0 where
  -- `dt.setZone(tz).toISODate()`
  pub date_of : ℕ → ℕ
  -- `dt.hour * 60 + dt.minute`, the wall clock
  pub minute_of : ℕ → ℕ
  -- the instant at which a calendar date starts, `dt.startOf('day')`
  pub start_of_day : ℕ → ℕ
  -- `day.set({ hour, minute, second: 0, millisecond: 0 })`, the minute counted from midnight
  pub at_minute : ℕ → ℕ → ℕ
  -- `DateTime.fromISO(isoDate, { zone }).weekday`
  pub weekday : ℕ → ℕ
  -- `DateTime.fromISO(text, { zone }).startOf('day')`, and whether it is valid
  pub from_iso_date : String → Option ℕ

pub record Luxon : Type 0 where
  -- `DateTime.fromISO(text, { setZone: true })`, and whether it is valid
  pub from_iso : String → Option ℕ
  pub zone : String → Zone

abbrev pub minute_ms : ℕ
minute_ms = 60000

abbrev pub hour_ms : ℕ
hour_ms = 3600000

-- On this date the wall clock shows, up to the given minute, the minutes that have passed: no
-- change of daylight saving time lies before it.
pub record IsRegularUntil (z : Zone) (day minute : ℕ) : Type 0 where
  pub date : (m : ℕ) → m < minute → z.date_of (z.at_minute day m) ≡ day
  pub wall : (m : ℕ) → m < minute → z.minute_of (z.at_minute day m) ≡ m
  pub elapsed : (m : ℕ) → m < minute → z.at_minute day m ≡ z.start_of_day day + m * minute_ms
