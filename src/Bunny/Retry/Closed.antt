-- ===== src/Bunny/Retry/Closed.antt =====
-- The answer that RetryTransport (internal/bunny/logging_transport.go) returns after its last attempt, as
-- the client and the proxy's handler see it.
use bunny_api_proxy.Base.{
  ℕ, ℤ, zero, suc, ◌+◌, ◌*◌, String, ◌==◌, ◌≡◌, refl, ap, ◌∙◌, true, false, Option, none, some,
  arith, Bool-cases, inl, inr, [], ◌∷◌, ◌==ℕ◌,
}
use bunny_api_proxy.Go.ParseInt.{parse_int}
use bunny_api_proxy.Auth.Context.{Context}
use bunny_api_proxy.Proxy.Types.{err, other_error, write_error}
use bunny_api_proxy.Proxy.Handlers.{handle_get_zone}
use bunny_api_proxy.Bunny.Http.{
  Request, HttpResponse, TransportError, Exchange, Transport, on_wire, closed, answered_by,
}
use bunny_api_proxy.Bunny.Retry.{
  is_5xx_error, is_idempotent_method, should_retry, close_before_retry, max_retries, second,
  retry_loop, round_trip,
}
use bunny_api_proxy.Bunny.Client.{Library, Client, responded, send, zone_url}
use bunny_api_proxy.Bunny.Client.Operations.{new_client, get_zone}

-- bunny.net answers every attempt with this status and text, and the request's context goes on.
pub record IsDown {W : Type 0} (transport : Transport W) (wait : ℕ → W → Option TransportError × W)
    (status_code : ℕ) (text : String) : Type 0 where
  pub answers :
      (req : Request) (w : W)
      → (transport req w).0
        ≡ answered_by (record { status_code = status_code; body = on_wire text })
  pub keeps_method : (req : Request) (w : W) → (transport req w).1.method ≡ req.method
  pub is_5xx : is_5xx_error status_code ≡ true
  pub goes_on : (d : ℕ) (w : W) → (wait d w).0 ≡ none

module _ {W : Type 0} (transport : Transport W) (wait : ℕ → W → Option TransportError × W)
    (status_code : ℕ) (text : String) (down : IsDown transport wait status_code text) where
  abbrev closed_answer : Exchange
  closed_answer = answered_by (record { status_code = status_code; body = closed })

  is_retried :
      (req : Request) (w : W)
      → is_idempotent_method req.method ≡ true
      → should_retry (transport req w).1.method (transport req w).0 ≡ true
  is_retried req w h = rw (down.answers req w, down.keeps_method req w, down.is_5xx, h) refl

  is_closed :
      (req : Request) (w : W)
      → is_idempotent_method req.method ≡ true
      → close_before_retry (transport req w).1.method (transport req w).0 ≡ closed_answer
  unfolding close_before_retry
  is_closed req w h = rw (is_retried req w h, close_before_retry) (rw (down.answers req w) refl)

  loop_closed :
      (n a b : ℕ) (req : Request) (last : Exchange) (w : W)
      → a + n ≡ max_retries
      → is_idempotent_method req.method ≡ true
      → (retry_loop transport wait (suc n) req last a b w).0 ≡ closed_answer
  unfolding retry_loop
  loop_closed zero a b req last w ha h =
      let last_one : (a ==ℕ max_retries) ≡ true = ground (arith, ha) in
      rw (is_retried req w h, last_one, retry_loop) (is_closed req w h)
  loop_closed (suc n) a b req last w ha h =
      let not_last : (a ==ℕ max_retries) ≡ false = ground (arith, ha) in
      rw (is_retried req w h, not_last, down.goes_on b (transport req w).2, retry_loop)
        (loop_closed n (suc a) (b * 2) (transport req w).1
          (close_before_retry (transport req w).1.method (transport req w).0) _ (omega (arith, ha))
          (ap is_idempotent_method (down.keeps_method req w) ∙ h))

-- `http.Client.Do` returns the response that its transport returns.
abbrev pub Passes : {W : Type 0} → Transport W → Library W → Type 0
Passes {W = W} transport lib =
    (req : Request) (w : W) (r : HttpResponse)
    → (transport req w).0 ≡ answered_by r
    → (lib.http_do req w).0 ≡ responded r

get_zone_down :
    {W : Type 0} (transport : Transport W) (wait : ℕ → W → Option TransportError × W)
    (lib : Library W) (c : Client) (status_code : ℕ) (text : String) (id : ℤ) (w : W)
    → IsDown transport wait status_code text
    → Passes (round_trip transport wait) lib
    → (get_zone lib c id w).0 ≡ err other_error
unfolding get_zone send round_trip
get_zone_down transport wait lib c status_code text id w down passes =
    let req : Request = record {
      method = "GET";
      url = zone_url lib c id;
      headers = ("AccessKey", c.api_key) ∷ [];
      body = none;
    } in
    let e =
      passes req w (record { status_code = status_code; body = closed })
        (loop_closed transport wait status_code text down max_retries 0 second req
          (record { resp = none; error = none }) w refl refl) in
    elim (Bool-cases (lib.parses_url (zone_url lib c id))) [
      | inl p ↦ rw (p, e, get_zone, send) refl
      | inr p ↦ rw (p, get_zone, send) refl
    ]

-- While bunny.net answers every attempt with one and the same 5xx, whatever its text, the request's
-- context goes on, and `http.Client.Do` returns the response that its transport returns,
-- `HandleGetZone` answers 500 for an id that parses: the retry transport closes the body of the last
-- answer too, and the client cannot read it.
pub handle_get_zone_down :
    {W : Type 0} (transport : Transport W) (wait : ℕ → W → Option TransportError × W)
    (lib : Library W) (c : Client) (ctx : Context) (status_code : ℕ) (text id_text : String)
    (id : ℤ) (w : W)
    → IsDown transport wait status_code text
    → Passes (round_trip transport wait) lib
    → (id_text == "") ≡ false
    → parse_int id_text ≡ some id
    → (handle_get_zone (new_client lib c) ctx id_text w).0 ≡ write_error 500 "internal server error"
unfolding handle_get_zone new_client
handle_get_zone_down transport wait lib c ctx status_code text id_text id w down passes given
      parsed =
    rw
      (
        given,
        parsed,
        get_zone_down transport wait lib c status_code text id w down passes,
        handle_get_zone,
      )
      refl
