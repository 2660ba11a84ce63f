-- ===== src/Bookings.antt =====
-- bookings/bookings.service.ts
pub mod Slot
pub mod Service
pub mod Calendar
pub mod Frame
pub mod Rescheduled
pub mod Safety
pub mod Outcome
pub mod Requests
pub mod Created
pub mod Cancelled
pub mod Withdrawn
pub mod Moved
pub mod Untouched
