-- ===== src/Proxy.antt =====
-- internal/proxy: the handlers of the proxy, and the client of bunny.net that they call.
pub mod Types
pub mod Handlers
pub mod Filters
pub mod Granted
pub mod Router
