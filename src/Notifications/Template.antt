-- ===== src/Notifications/Template.antt =====
-- notifications/templates/BookingEmail.tsx: the markup of an email about a booking.
pub mod Markup
pub mod Styles
pub mod Css
pub mod BookingEmail
pub mod Sheet
pub mod Colors
pub mod Shown
