-- ===== src/MockBunny/Injection.antt =====
-- The injected failures of the simulated bunny.net (internal/testutil/mockbunny/middleware.go and
-- server.go). The delay itself has no effect on the state.
use Prim.Native.String.{◌++◌}
use bunny_api_proxy.Base.{
  ℕ, suc, ◌-◌, String, Bool, false, Option, none, some, ltb, leb, if◌then◌else◌,
}
use text.Mathlib.Text.{starts_with}
use bunny_api_proxy.MockBunny.Types.{FailureInjection, State, Response, respond, injected}

abbrev pub with_injection : State → FailureInjection → State
with_injection s fi = record s { failure_injection = fi }

unfoldable pub set_next_error : ℕ → String → ℕ → State → State
set_next_error status_code message count s = with_injection s (record s.failure_injection {
  next_error_status = status_code;
  next_error_message = message;
  next_error_remaining = count;
})

unfoldable pub set_latency : ℕ → ℕ → State → State
set_latency duration count s =
    with_injection s
      (record s.failure_injection { latency_duration = duration; latency_remaining = count })

unfoldable pub set_rate_limit : ℕ → State → State
set_rate_limit after_requests s =
    with_injection s (record s.failure_injection {
      rate_limit_after = some after_requests;
      rate_limit_counter = 0;
    })

unfoldable pub set_malformed_response : ℕ → State → State
set_malformed_response count s =
    with_injection s (record s.failure_injection { malformed_remaining = count })

abbrev pub is_limited : FailureInjection → Option ℕ → Bool
is_limited fi none = false
is_limited fi (some after) = leb after fi.rate_limit_counter

abbrev pub count_request : FailureInjection → Option ℕ → FailureInjection
count_request fi none = fi
count_request fi (some after) = record fi { rate_limit_counter = suc fi.rate_limit_counter }

abbrev pub after_latency : FailureInjection → FailureInjection
after_latency fi =
    if ltb 0 fi.latency_remaining
    then record fi { latency_remaining = fi.latency_remaining - 1 }
    else fi

-- The answer in place of the handler's, or none, and what is left to inject.
abbrev pub inject : FailureInjection → Option Response × FailureInjection
inject fi =
    if is_limited fi fi.rate_limit_after
    then (
      some (
          respond 429 (injected "{\"ErrorKey\":\"rate_limit\",\"Message\":\"Too many requests\"}")),
      fi,
    )
    else if ltb 0 fi.next_error_remaining
    then (
      some (
          respond fi.next_error_status (
            injected (
              "{\"ErrorKey\":\"injected_error\",\"Message\":\"" ++ fi.next_error_message
              ++ "\"}"))),
      record fi { next_error_remaining = fi.next_error_remaining - 1 },
    )
    else if ltb 0 fi.malformed_remaining
    then (
      some (respond 200 (injected "{invalid json")),
      record fi { malformed_remaining = fi.malformed_remaining - 1 },
    )
    else (none, count_request fi fi.rate_limit_after)

abbrev pub answer_or : Option Response → (State → Response × State) → State → Response × State
answer_or (some r) next s = (r, s)
answer_or none next s = next s

unfoldable pub failure_injection_middleware :
    (path : String) → (State → Response × State) → State → Response × State
failure_injection_middleware path next s =
    let (answer, fi) = inject (after_latency s.failure_injection) in
    if starts_with path "/admin" then next s else answer_or answer next (with_injection s fi)
