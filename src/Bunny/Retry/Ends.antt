-- ===== src/Bunny/Retry/Ends.antt =====
-- How RetryTransport.RoundTrip of internal/bunny/logging_transport.go ends.
use bunny_api_proxy.Base.{
  String, ◌==◌, eq_iff, ℕ, zero, suc, ◌+◌, ◌*◌, ◌≤◌, ◌<◌, ◌≡◌, ◌↔◌, ◌⊎◌, Member, refl, sym, subst,
  All-mono, any-true, any_of_Member, ap, true, false, Option, none, some, List, [], ◌∷◌, inl, inr,
  Bool-cases, Option-cases, All, ◌==ℕ◌, arith,
}
use bunny_api_proxy.Bunny.Http.{Request, HttpResponse, TransportError, Exchange, Transport, close}
use bunny_api_proxy.Bunny.Retry.{
  has_text, is_timeout_error, is_idempotent_method, should_retry_with, should_retry, close_response,
  close_before_retry, max_retries, second, retry_loop, round_trip,
}
use bunny_api_proxy.Bunny.Retry.Attempts.{
  Event, attempted, waited, recorded, recorded_wait, attempts, Retried, run,
}

-- An answer that is not tried again stays open.
close_before_retry_not :
    (method : String) (x : Exchange)
    → should_retry method x ≡ false
    → close_before_retry method x ≡ x
unfolding close_before_retry
close_before_retry_not method x s = rw s refl

-- The methods that the comment of RetryTransport lists, and the texts of timeouts.
abbrev pub idempotent_methods : List String
idempotent_methods = "GET" ∷ "HEAD" ∷ "OPTIONS" ∷ "DELETE" ∷ "PUT" ∷ []

abbrev pub IsTimeout : TransportError → Type 0
IsTimeout e =
    (e.is_deadline_exceeded ≡ true)
    ⊎ (e.is_timeout ≡ true)
    ⊎ (has_text e.message "Client.Timeout exceeded" ≡ true)
    ⊎ (has_text e.message "context deadline exceeded" ≡ true)
    ⊎ (has_text e.message "i/o timeout" ≡ true)

-- A timeout, or a status from 500 to 599 for one of these methods.
abbrev pub IsTransient : String → Option TransportError → Option HttpResponse → Type 0
IsTransient method (some e) resp = IsTimeout e
IsTransient method none (some r) =
    (500 ≤ r.status_code) × (r.status_code < 600) × Member method idempotent_methods
IsTransient method none none = ⊥

abbrev pub NeedsRetry : String → Exchange → Type 0
NeedsRetry method x = IsTransient method x.error x.resp

-- The answer with its body closed, if it has one and no error stands beside it.
abbrev pub closed_answer : Option TransportError → Option HttpResponse → Exchange
closed_answer (some e) resp = record { resp = resp; error = some e }
closed_answer none none = record { resp = none; error = none }
closed_answer none (some r) = record {
  resp = some (record { status_code = r.status_code; body = close r.body });
  error = none;
}

abbrev pub with_error : TransportError → Exchange → Exchange
with_error e x = record { resp = x.resp; error = some e }

is_timeout_error_iff : (e : TransportError) → (is_timeout_error e ≡ true) ↔ IsTimeout e
unfolding is_timeout_error
is_timeout_error_iff e = (ground arith, ground arith)

is_idempotent_method_iff :
    (method : String) → (is_idempotent_method method ≡ true) ↔ Member method idempotent_methods
is_idempotent_method_iff method = (
  λ h.
      let (name, m, e) = any-true (λ n. method == n) idempotent_methods (ground (arith, h)) in
      subst (λ n. Member n idempotent_methods) (sym ((eq_iff method name).0 e)) m,
  λ m.
      let found =
        any_of_Member (λ n. method == n) idempotent_methods method m
          ((eq_iff method method).1 refl) in
      ground (arith, found),
)

should_retry_with_iff :
    (method : String) (error : Option TransportError) (resp : Option HttpResponse)
    → (should_retry_with method error resp ≡ true) ↔ IsTransient method error resp
should_retry_with_iff method (some e) resp = is_timeout_error_iff e
should_retry_with_iff method none none = (λ h. cc, λ h. absurd h)
should_retry_with_iff method none (some r) =
    let (to, from) = is_idempotent_method_iff method in
    (
      λ h. (ground (arith, h), ground (arith, h), to (ground (arith, h))),
      λ h. let i = from h.2 in ground (arith, h.0, h.1, i),
    )

should_retry-NeedsRetry :
    (method : String) (x : Exchange) → should_retry method x ≡ true → NeedsRetry method x
should_retry-NeedsRetry method x s = (should_retry_with_iff method x.error x.resp).0 s

should_retry-refuses :
    (method : String) (x : Exchange) → should_retry method x ≡ false → NeedsRetry method x → ⊥
should_retry-refuses method x s n =
    let yes = (should_retry_with_iff method x.error x.resp).1 n in cc

close_response-closed_answer :
    (error : Option TransportError) (resp : Option HttpResponse)
    → Path Exchange
        (record { resp = close_response error resp; error = error })
        (closed_answer error resp)
close_response-closed_answer (some e) resp = refl
close_response-closed_answer none none = refl
close_response-closed_answer none (some r) = refl

close_before_retry-closed_answer :
    (method : String) (x : Exchange)
    → should_retry method x ≡ true
    → close_before_retry method x ≡ closed_answer x.error x.resp
unfolding close_before_retry
close_before_retry-closed_answer method x s = rw s (close_response-closed_answer x.error x.resp)

-- An attempt whose answer calls for another.
abbrev pub CalledFor : Event → Type 0
CalledFor (attempted given left x) = NeedsRetry left.method x
CalledFor (waited d) = Unit

Retried-CalledFor : (v : Event) → Retried v → CalledFor v
Retried-CalledFor (attempted given left x) h = should_retry-NeedsRetry left.method x h
Retried-CalledFor (waited d) h = tt

all-CalledFor : (log : List Event) → All Retried log → All CalledFor log
all-CalledFor log = All-mono _ _ log Retried-CalledFor

module _ {W : Type 0} (transport : Transport W) (wait : ℕ → W → Option TransportError × W) where
  -- How a run ends: the newest attempt is accepted, it is the last one of four, or the context ends
  -- during the newest wait.
  pub data Ended (out : Exchange) (left : Request) (log : List Event) : Type 0 where
    accepted :
        (given : Request) (older : List Event)
        → log ≡ attempted given left out ∷ older
        → (NeedsRetry left.method out → ⊥)
        → All CalledFor older
        → Ended out left log
    exhausted :
        (given : Request) (x : Exchange) (older : List Event)
        → log ≡ attempted given left x ∷ older
        → All CalledFor log
        → attempts log ≡ 4
        → out ≡ closed_answer x.error x.resp
        → Ended out left log
    cancelled :
        (w : W) (d : ℕ) (e : TransportError) (given : Request) (x : Exchange) (older : List Event)
        → log ≡ waited d ∷ attempted given left x ∷ older
        → All CalledFor log
        → (wait d w).0 ≡ some e
        → out ≡ with_error e (closed_answer x.error x.resp)
        → Ended out left log

  loop-Ended :
      (n a b : ℕ) (req : Request) (last : Exchange) (w : W) (log : List Event)
      → a + n ≡ max_retries
      → attempts log ≡ a
      → All Retried log
      → let out = run transport wait (suc n) req last a b (w, log) in Ended out.0 out.1 out.2.1
  unfolding retry_loop
  loop-Ended zero a b req last w log ha hl h =
      let last_one : (a ==ℕ max_retries) ≡ true = ground (arith, ha) in
      elim (Bool-cases (should_retry (transport req w).1.method (transport req w).0)) [
        | inl s ↦
            rw (s, last_one, retry_loop)
              (exhausted req (transport req w).0 log refl
                (
                  should_retry-NeedsRetry (transport req w).1.method (transport req w).0 s,
                  all-CalledFor log h,
                )
                (omega (arith, ha, hl))
                (close_before_retry-closed_answer (transport req w).1.method (transport req w).0 s))
        | inr s ↦
            rw
              (
                s,
                retry_loop,
                close_before_retry_not (transport req w).1.method (transport req w).0 s,
              )
              (accepted req log refl
                (should_retry-refuses (transport req w).1.method (transport req w).0 s)
                (all-CalledFor log h))
      ]
  loop-Ended (suc n) a b req last w log ha hl h =
      let not_last : (a ==ℕ max_retries) ≡ false = ground (arith, ha) in
      elim (Bool-cases (should_retry (transport req w).1.method (transport req w).0)) [
        | inl s ↦ elim (Option-cases (wait b (transport req w).2).0) [
          | inl c ↦
              rw (s, not_last, c, retry_loop)
                (loop-Ended n (suc a) (b * 2) (transport req w).1
                  (close_before_retry (transport req w).1.method (transport req w).0) _ _
                  (omega (arith, ha)) (ap suc hl) (tt, (s, h)))
          | inr (e, c) ↦
              rw (s, not_last, c, retry_loop)
                (cancelled (transport req w).2 b e req (transport req w).0 log refl
                  (
                    tt,
                    (
                      should_retry-NeedsRetry (transport req w).1.method (transport req w).0 s,
                      all-CalledFor log h,
                    ),
                  )
                  c
                  (ap (with_error e) (
                    close_before_retry-closed_answer (transport req w).1.method (transport req w).0
                      s)))
        ]
        | inr s ↦
            rw
              (
                s,
                retry_loop,
                close_before_retry_not (transport req w).1.method (transport req w).0 s,
              )
              (accepted req log refl
                (should_retry-refuses (transport req w).1.method (transport req w).0 s)
                (all-CalledFor log h))
      ]

-- Where the attempts of a request end: with an answer that calls for no other attempt, and that is
-- passed on as it is; after the fourth attempt, whose answer is passed on with the body closed, if it
-- is a response; or when the context ends during a wait, with the context's error and the last answer,
-- closed as well. All attempts before were answered with a timeout, or with a status from 500 to 599
-- for GET, HEAD, OPTIONS, DELETE or PUT, and no other answer calls for an attempt.
pub round_trip-Ended :
    {W : Type 0} (transport : Transport W) (wait : ℕ → W → Option TransportError × W)
    (req : Request) (w : W)
    → let out = round_trip (recorded transport) (recorded_wait wait) req (w, []) in
      Ended transport wait out.0 out.1 out.2.1
unfolding round_trip
round_trip-Ended transport wait req w =
    loop-Ended transport wait max_retries 0 second req (record { resp = none; error = none }) w []
      refl refl tt

-- While the context of the request goes on, the caller gets an answer that calls for no other attempt,
-- unless all four attempts have been answered with a timeout or, for an idempotent method, a 5xx.
pub round_trip-uncancelled :
    {W : Type 0} (transport : Transport W) (wait : ℕ → W → Option TransportError × W)
    (req : Request) (w : W)
    → ((d : ℕ) (v : W) → (wait d v).0 ≡ none)
    → let out = round_trip (recorded transport) (recorded_wait wait) req (w, []) in
      (NeedsRetry out.1.method out.0 → ⊥) ⊎ ((attempts out.2.1 ≡ 4) × All CalledFor out.2.1)
round_trip-uncancelled transport wait req w on = elim (round_trip-Ended transport wait req w) [
  | accepted given older e s h ↦ inl s
  | exhausted given x older e h four out ↦ inr (four, h)
  | cancelled v d err given x older e h c out ↦ absurd (cc (on d v, c))
]
