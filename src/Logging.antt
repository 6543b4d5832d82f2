-- ===== src/Logging.antt =====
-- What is written to the log and who it is for: internal/logging/masking.go and the request ids of
-- internal/middleware/request_id.go.
pub mod Masking
pub mod RequestId
pub mod Http
