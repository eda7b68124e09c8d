-- ===== src/Files.antt =====
-- internal/files: the names of overlays and snapshots, the atomic writer, backups and retention.
pub mod Naming
pub mod Writer
pub mod Backup
pub mod Listing
