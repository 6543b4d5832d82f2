-- ===== src/Admin.antt =====
-- internal/admin: the API that manages tokens.
pub mod Types
pub mod Access
pub mod Handlers
pub mod Create
pub mod Server
