-- ===== src/Bunny.antt =====
-- internal/bunny: the client of bunny.net and the transports that it sends its requests through.
pub mod Http
pub mod Retry
pub mod Logging
pub mod Client
