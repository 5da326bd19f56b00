-- ===== src/Config.antt =====
-- The directory cli/config.
pub mod Base64
pub mod Auth
pub mod Settings
pub mod Credentials
