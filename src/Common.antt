-- ===== src/Common.antt =====
-- common/: helpers that the services share.
pub mod Ownership
pub mod Luxon
pub mod Transaction
pub mod Retries
pub mod Strip
pub mod Json
pub mod Crypto
pub mod Origin
pub mod Html
pub mod ExceptionFilter
