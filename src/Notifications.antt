-- ===== src/Notifications.antt =====
-- notifications/: the emails about a booking.
pub mod Mail
pub mod Template
pub mod Formats
pub mod Content
pub mod Email
pub mod Service
pub mod Secrets
pub mod Delivery
pub mod Notified
pub mod Reach
pub mod Success
pub mod Links
