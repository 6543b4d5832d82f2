-- ===== src/Bunny/Retry/Bounds.antt =====
-- How often RetryTransport.RoundTrip of internal/bunny/logging_transport.go sends, and how long it waits.
use bunny_api_proxy.Base.{
  ℕ, zero, suc, ◌+◌, ◌*◌, ◌≤◌, ◌≡◌, refl, true, false, Option, none, List, [], ◌∷◌, inl, inr,
  Bool-cases, Option-cases, ◌==ℕ◌, arith,
}
use bunny_api_proxy.Bunny.Http.{Request, TransportError, Exchange, Transport}
use bunny_api_proxy.Bunny.Retry.{
  should_retry, close_before_retry, max_retries, second, retry_loop, round_trip,
}
use bunny_api_proxy.Bunny.Retry.Attempts.{
  Event, attempted, waited, recorded, recorded_wait, attempts, waiting, run,
}

-- The time for the waits that are left.
abbrev budget : ℕ → ℕ → ℕ
budget zero b = 0
budget (suc n) b = b + budget n (b * 2)

pub record IsBounded (most time : ℕ) (log log' : List Event) : Type 0 where
  pub some_attempt : suc (attempts log) ≤ attempts log'
  pub few_attempts : attempts log' ≤ attempts log + most
  pub short : waiting log' ≤ waiting log + time

IsBounded-longer :
    (n b : ℕ) (log log' : List Event) (given left : Request) (x : Exchange)
    → IsBounded (suc n) (budget n (b * 2)) (waited b ∷ attempted given left x ∷ log) log'
    → IsBounded (suc (suc n)) (budget (suc n) b) log log'
IsBounded-longer n b log log' given left x h = record {
  some_attempt = omega (arith, h.some_attempt);
  few_attempts = omega (arith, h.few_attempts);
  short = omega (arith, h.short);
}

module _ {W : Type 0} (transport : Transport W) (wait : ℕ → W → Option TransportError × W) where
  loop-IsBounded :
      (n a b : ℕ) (req : Request) (last : Exchange) (w : W) (log : List Event)
      → a + n ≡ max_retries
      → IsBounded (suc n) (budget n b) log (run transport wait (suc n) req last a b (w, log)).2.1
  unfolding retry_loop
  loop-IsBounded zero a b req last w log ha =
      let last_one : (a ==ℕ max_retries) ≡ true = ground (arith, ha) in
      elim (Bool-cases (should_retry (transport req w).1.method (transport req w).0)) [
        | inl s ↦
            rw (s, last_one, retry_loop)
              (record {
                some_attempt = omega arith;
                few_attempts = omega arith;
                short = omega arith;
              })
        | inr s ↦
            rw (s, retry_loop)
              (record {
                some_attempt = omega arith;
                few_attempts = omega arith;
                short = omega arith;
              })
      ]
  loop-IsBounded (suc n) a b req last w log ha =
      let not_last : (a ==ℕ max_retries) ≡ false = ground (arith, ha) in
      elim (Bool-cases (should_retry (transport req w).1.method (transport req w).0)) [
        | inl s ↦ elim (Option-cases (wait b (transport req w).2).0) [
          | inl c ↦
              rw (s, not_last, c, retry_loop)
                (IsBounded-longer n b log _ req (transport req w).1 (transport req w).0 (
                  loop-IsBounded n (suc a) (b * 2) (transport req w).1
                    (close_before_retry (transport req w).1.method (transport req w).0) _ _
                    (omega (arith, ha))))
          | inr (e, c) ↦
              rw (s, not_last, c, retry_loop)
                (record {
                  some_attempt = omega arith;
                  few_attempts = omega arith;
                  short = omega arith;
                })
        ]
        | inr s ↦
            rw (s, retry_loop)
              (record {
                some_attempt = omega arith;
                few_attempts = omega arith;
                short = omega arith;
              })
      ]

-- Whatever is answered, a request is sent at least once and at most four times, and the waits between
-- the attempts take seven seconds at most.
pub round_trip-IsBounded :
    {W : Type 0} (transport : Transport W) (wait : ℕ → W → Option TransportError × W)
    (req : Request) (w : W)
    → IsBounded 4
        (7 * second)
        []
        (round_trip (recorded transport) (recorded_wait wait) req (w, [])).2.1
unfolding round_trip
round_trip-IsBounded transport wait req w =
    loop-IsBounded transport wait max_retries 0 second req (record { resp = none; error = none }) w
      [] refl
