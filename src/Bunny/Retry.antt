-- ===== src/Bunny/Retry.antt =====
-- RetryTransport of internal/bunny/logging_transport.go. Its log output is left out.
pub mod Attempts
pub mod Ends
pub mod Bounds
pub mod Bodies
pub mod Closed
use text.Mathlib.Text.{find?}
use bunny_api_proxy.Base.{
  ℕ, zero, suc, ◌*◌, String, ◌==◌, Bool, true, false, not, ◌&&◌, ◌||◌, Option, none, some, ltb, leb,
  ◌==ℕ◌, if◌then◌else◌,
}
use bunny_api_proxy.Go.Pattern.{is_some}
use bunny_api_proxy.Bunny.Http.{Request, HttpResponse, TransportError, Exchange, Transport, close}

abbrev pub is_idempotent_method : String → Bool
is_idempotent_method method =
    method == "GET"
    || method == "HEAD"
    || method == "OPTIONS"
    || method == "DELETE"
    || method == "PUT"

abbrev pub is_5xx_error : ℕ → Bool
is_5xx_error status_code = leb 500 status_code && ltb status_code 600

-- strings.Contains
abbrev pub has_text : String → String → Bool
has_text s t = is_some (find? s t)

unfoldable pub is_timeout_error : TransportError → Bool
is_timeout_error err =
    if err.is_deadline_exceeded
    then true
    else if err.is_timeout
    then true
    else has_text err.message "Client.Timeout exceeded"
      || has_text err.message "context deadline exceeded"
      || has_text err.message "i/o timeout"

-- `shouldRetry`
abbrev pub should_retry_with : String → Option TransportError → Option HttpResponse → Bool
should_retry_with method (some err) resp = is_timeout_error err
should_retry_with method none (some resp) =
    is_5xx_error resp.status_code && is_idempotent_method method
should_retry_with method none none = false

abbrev pub should_retry : String → Exchange → Bool
should_retry method x = should_retry_with method x.error x.resp

-- `resp.Body.Close()` before a retry
abbrev pub close_response : Option TransportError → Option HttpResponse → Option HttpResponse
close_response none (some resp) = some (record resp { body = close resp.body })
close_response none none = none
close_response (some err) resp = resp

unfoldable pub close_before_retry : String → Exchange → Exchange
close_before_retry method x =
    if should_retry method x then record x { resp = close_response x.error x.resp } else x

abbrev pub max_retries : ℕ
max_retries = 3

-- time.Second, in nanoseconds
abbrev pub second : ℕ
second = 1_000_000_000

module _ {W : Type 0} (transport : Transport W) (wait : ℕ → W → Option TransportError × W) where
  -- `wait` is the select of the timer and the request's context: `none` when the time is over, else
  -- the context's error.
  unfoldable pub retry_loop :
      (rounds : ℕ) → Request → Exchange → (attempt backoff : ℕ) → W → Exchange × Request × W
  retry_loop zero req last attempt backoff w = (last, req, w)
  retry_loop (suc rounds) req last attempt backoff w =
      let (x, req', w') = transport req w in
      let result = close_before_retry req'.method x in
      elim (not (should_retry req'.method x) || attempt ==ℕ max_retries) [
        | true ↦ (result, req', w')
        | false ↦
            let (cancelled, w'') = wait backoff w' in
            elim cancelled [
              | some e ↦ (record result { error = some e }, req', w'')
              | none ↦ retry_loop rounds req' result (suc attempt) (backoff * 2) w''
            ]
      ]

  -- RoundTrip: `for attempt := 0; attempt <= maxRetries; attempt++`
  unfoldable pub round_trip : Transport W
  round_trip req w =
      retry_loop (suc max_retries) req (record { resp = none; error = none }) 0 second w
