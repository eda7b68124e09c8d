-- ===== src/Waf.antt =====
-- internal/waf: the configuration that the engine reads.
pub mod Mode
pub mod Exclusions
