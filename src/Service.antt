-- ===== src/Service.antt =====
-- internal/service: the validation of domains and the shared chain of configuration changes.
pub mod Validate
pub mod Chain
pub mod Updates
pub mod IpUpdates
