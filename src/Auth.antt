-- ===== src/Auth.antt =====
-- auth/: tokens, passwords, guards and sign-in.
pub mod Token
pub mod Guard
pub mod Service
pub mod Scopes
pub mod Sessions
pub mod Forgotten
pub mod Letters
