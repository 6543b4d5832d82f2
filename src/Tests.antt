-- ===== src/Tests.antt =====
-- The theorems at concrete inputs: a database with an admin and a scoped token, and requests to it.
pub mod Data
pub mod Proxy
pub mod Api
pub mod Zones
pub mod Race
pub mod Bunny
pub mod Logs
pub mod MockBunny
pub mod Router
pub mod Program
pub mod Writers
pub mod Created
