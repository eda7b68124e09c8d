-- ===== src/Ratelimit.antt =====
-- internal/ratelimit: the token buckets and the limits on clients.
pub mod Bucket
pub mod Rate
pub mod Clients
pub mod Prune
pub mod Sound
