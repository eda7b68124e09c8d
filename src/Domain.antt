-- ===== src/Domain.antt =====
-- internal/domain: the sites, their slugs and the header of an overlay.
pub mod Model
pub mod Slug
pub mod Overlay
pub mod Header
pub mod Scanner
