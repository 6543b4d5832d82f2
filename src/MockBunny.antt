-- ===== src/MockBunny.antt =====
-- internal/testutil/mockbunny: the simulated bunny.net that the tests of the proxy run against.
pub mod Types
pub mod Zones
pub mod Records
pub mod Import
pub mod Scan
pub mod Injection
pub mod Server
pub mod Valid
pub mod Polls
pub mod RateLimit
pub mod RoundTrip
pub mod Seeds
pub mod Requests
