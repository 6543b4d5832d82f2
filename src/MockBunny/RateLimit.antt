-- ===== src/MockBunny/RateLimit.antt =====
-- The rate limit of the simulated bunny.net (internal/testutil/mockbunny/middleware.go and server.go).
use bunny_api_proxy.Base.{ℕ, zero, suc, ◌≡◌, Option, some}
use bunny_api_proxy.MockBunny.Types.{FailureInjection, Response, respond, injected}
use bunny_api_proxy.MockBunny.Injection.{inject, after_latency}

-- What is answered in place of the handler after `k` other requests.
abbrev pub nth_answer : (k : ℕ) → FailureInjection → Option Response
nth_answer zero fi = (inject (after_latency fi)).0
nth_answer (suc k) fi = nth_answer k (inject (after_latency fi)).1

abbrev pub too_many : Response
too_many = respond 429 (injected "{\"ErrorKey\":\"rate_limit\",\"Message\":\"Too many requests\"}")

-- A rate limit, and nothing else to inject but delays.
pub record IsLimited (limit counter : ℕ) (fi : FailureInjection) : Type 0 where
  pub limited : fi.rate_limit_after ≡ some limit
  pub counted : fi.rate_limit_counter ≡ counter
  pub no_error : fi.next_error_remaining ≡ 0
  pub not_malformed : fi.malformed_remaining ≡ 0
