-- ===== src/Settings.antt =====
-- The package share/settings.
pub mod Number
pub mod HostPort
pub mod Remote
pub mod Users
pub mod Environment
