-- ===== src/Auth.antt =====
-- internal/auth: who may do what.
pub mod Types
pub mod Check
pub mod Parse
pub mod Context
pub mod Bootstrap
pub mod Middleware
