-- ===== src/Web.antt =====
-- The HTTP side: requests and answers, internal/auth, the limits of internal/ratelimit, the request
-- log of internal/logs, and the handler that cmd/server puts together.
pub mod Http
pub mod Auth
pub mod Limits
pub mod Stack
pub mod Guards
pub mod Calls
pub mod Url
pub mod Reply
