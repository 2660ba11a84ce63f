-- ===== src/Tests.antt =====
-- The library at concrete inputs.
mod Data
mod Tokens
mod Bookings
mod Schedules
mod Accounts
mod Services
mod Bodies
mod Emails
mod Profiles
mod Calendars
mod Web
