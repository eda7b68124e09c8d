-- ===== src/Logs.antt =====
-- internal/logs: the audit trail of the program and the reader of Coraza's audit log.
pub mod Trail
pub mod Entry
pub mod Reader
pub mod Tail
pub mod Classify
pub mod Paginate
pub mod Matches
