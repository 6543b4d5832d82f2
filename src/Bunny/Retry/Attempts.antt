-- ===== src/Bunny/Retry/Attempts.antt =====
-- A run of RetryTransport.RoundTrip (internal/bunny/logging_transport.go) with its attempts and waits.
use bunny_api_proxy.Base.{ℕ, suc, ◌+◌, ◌≡◌, true, Option, List, [], ◌∷◌}
use bunny_api_proxy.Bunny.Http.{Request, TransportError, Exchange, Transport}
use bunny_api_proxy.Bunny.Retry.{should_retry, retry_loop}

-- An attempt with the request as the transport gets it and as it leaves it, and the answer; a wait.
pub data Event : Type 0 where
  attempted : (given left : Request) → Exchange → Event
  waited : (backoff : ℕ) → Event

-- Events are put in front, the newest first.
abbrev pub recorded : {W : Type 0} → Transport W → Transport (W × List Event)
recorded transport req (w, log) =
    let (x, req', w') = transport req w in (x, req', (w', attempted req req' x ∷ log))

abbrev pub recorded_wait :
    {W : Type 0}
    → (ℕ → W → Option TransportError × W)
    → ℕ
    → W × List Event
    → Option TransportError × (W × List Event)
recorded_wait wait d (w, log) = let (c, w') = wait d w in (c, (w', waited d ∷ log))

abbrev pub attempts : List Event → ℕ
attempts [] = 0
attempts (attempted given left x ∷ log) = suc (attempts log)
attempts (waited d ∷ log) = attempts log

abbrev pub waiting : List Event → ℕ
waiting [] = 0
waiting (attempted given left x ∷ log) = waiting log
waiting (waited d ∷ log) = d + waiting log

-- An attempt whose answer calls for another.
abbrev pub Retried : Event → Type 0
Retried (attempted given left x) = should_retry left.method x ≡ true
Retried (waited d) = Unit

abbrev pub run :
    {W : Type 0}
    → Transport W
    → (ℕ → W → Option TransportError × W)
    → ℕ
    → Request
    → Exchange
    → ℕ
    → ℕ
    → W × List Event
    → Exchange × Request × (W × List Event)
run transport wait = retry_loop (recorded transport) (recorded_wait wait)
