-- ===== src/Platform.antt =====
-- The control plane (src/platform).
pub mod Metering
pub mod Status
pub mod Accounts
