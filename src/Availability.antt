-- ===== src/Availability.antt =====
-- availability/: when a coach can be booked. The schedule of one date, that of a range of dates,
-- and the services which keep the two tables.
pub mod Ranges
pub mod RangeLaws
pub mod Weekly
pub mod Overrides
pub mod Requests
pub mod Invariant
