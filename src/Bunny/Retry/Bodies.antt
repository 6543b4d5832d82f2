-- ===== src/Bunny/Retry/Bodies.antt =====
-- What happens to the bodies when RetryTransport of internal/bunny/logging_transport.go tries again.
use bunny_api_proxy.Base.{
  ℕ, zero, suc, ◌*◌, String, ◌≡◌, refl, ap, ◌∙◌, Option, none, some, List, [], ◌∷◌, ◌++◌, inl, inr,
  Bool-cases, Option-cases, All, All-append, not, ◌||◌, sym, ◌==ℕ◌,
}
use mathlib.Core.List.{append_assoc}
use bunny_api_proxy.Bunny.Http.{Request, TransportError, Exchange, Transport}
use bunny_api_proxy.Bunny.Retry.{
  should_retry, close_before_retry, max_retries, second, retry_loop, round_trip,
}
use bunny_api_proxy.Bunny.Retry.Attempts.{Event, attempted, waited, recorded, recorded_wait, run}

abbrev pub drained : Option String → Option String
drained none = none
drained (some text) = some ""

-- A transport that reads the whole body of each request.
abbrev pub Drains : {W : Type 0} → Transport W → Type 0
Drains {W = W} transport =
    (req : Request) (w : W) → (transport req w).1 ≡ record req { body = drained req.body }

-- The request is sent without the text of its body.
abbrev pub IsEmptied : Event → Type 0
IsEmptied (attempted given left x) = given.body ≡ some ""
IsEmptied (waited d) = Unit

-- The events since `log`, in which the body is empty.
abbrev pub EmptiedSince : (log log' : List Event) → Type 0
EmptiedSince log log' = (later : List Event) × (log' ≡ later ++ log) × All IsEmptied later

module _ {W : Type 0} (transport : Transport W) (wait : ℕ → W → Option TransportError × W) where
  first-EmptiedSince :
      (n a b : ℕ) (req : Request) (text : String) (last : Exchange) (w : W) (log : List Event)
      → Drains transport
      → req.body ≡ some text
      → ((r : Request) (x : Exchange) (v : W) (l : List Event)
          → r.body ≡ some ""
          → EmptiedSince l (run transport wait n r x (suc a) (b * 2) (v, l)).2.1)
      → EmptiedSince
          (attempted req (transport req w).1 (transport req w).0 ∷ log)
          (run transport wait (suc n) req last a b (w, log)).2.1
  unfolding retry_loop
  first-EmptiedSince n a b req text last w log drains h rest =
      let r = (transport req w).1 in
      let x = (transport req w).0 in
      let log' = attempted req r x ∷ log in
      elim (Bool-cases (not (should_retry r.method x) || a ==ℕ max_retries)) [
        | inl s ↦ rw (s, retry_loop) ([], refl, tt)
        | inr s ↦ elim (Option-cases (wait b (transport req w).2).0) [
          | inl c ↦
              let still : r.body ≡ some "" =
                ap (λ (q : Request). q.body) (drains req w) ∙ ap drained h in
              let (later, e, empty) =
                rest r (close_before_retry r.method x) (wait b (transport req w).2).1
                  (waited b ∷ log') still in
              rw (s, c, retry_loop)
                (
                  later ++ waited b ∷ [],
                  e ∙ sym (append_assoc later (waited b ∷ []) log'),
                  All-append IsEmptied later (waited b ∷ []) empty (tt, tt),
                )
          | inr (e, c) ↦ rw (s, c, retry_loop) (waited b ∷ [], refl, (tt, tt))
        ]
      ]

  loop-EmptiedSince :
      (n a b : ℕ) (req : Request) (last : Exchange) (w : W) (log : List Event)
      → Drains transport
      → req.body ≡ some ""
      → EmptiedSince log (run transport wait n req last a b (w, log)).2.1
  unfolding retry_loop
  loop-EmptiedSince zero a b req last w log drains h = ([], refl, tt)
  loop-EmptiedSince (suc n) a b req last w log drains h =
      let now = attempted req (transport req w).1 (transport req w).0 in
      let (later, e, empty) =
        first-EmptiedSince n a b req "" last w log drains h
          λ r x v l. loop-EmptiedSince n (suc a) (b * 2) r x v l drains in
      (
        later ++ now ∷ [],
        e ∙ sym (append_assoc later (now ∷ []) log),
        All-append IsEmptied later (now ∷ []) empty (h, tt),
      )

-- A transport that reads the body of the request whole sends it with its first attempt only: if there
-- are other attempts, the request has an empty body in each of them.
pub round_trip-IsEmptied :
    {W : Type 0} (transport : Transport W) (wait : ℕ → W → Option TransportError × W)
    (req : Request) (text : String) (w : W)
    → Drains transport
    → req.body ≡ some text
    → EmptiedSince
        (attempted req (transport req w).1 (transport req w).0 ∷ [])
        (round_trip (recorded transport) (recorded_wait wait) req (w, [])).2.1
unfolding round_trip
round_trip-IsEmptied transport wait req text w drains h =
    first-EmptiedSince transport wait max_retries 0 second req text
      (record { resp = none; error = none }) w [] drains h
      λ r x v l. loop-EmptiedSince transport wait max_retries 1 (second * 2) r x v l drains
