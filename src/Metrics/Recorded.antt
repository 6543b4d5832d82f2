-- ===== src/Metrics/Recorded.antt =====
-- What internal/metrics/middleware.go counts beside what the client is sent.
use bunny_api_proxy.Base.{
  arith, ℕ, ◌≤◌, String, ◌≡◌, refl, ap, true, false, none, some, List, [], ◌∷◌, ◌⊎◌, inl, inr, All,
}
use bunny_api_proxy.Go.Writer.{ResponseWriter, Call, header, body, SendsFirst, IsFinal, or_200}
use bunny_api_proxy.Metrics.{
  normalize_path, Metrics, increased, record_request, record_request_duration, StatusRecorder,
  recorder, label_of, write_header, write, serve, status_label, middleware,
}

module _ {W : Type 0} (ops : ResponseWriter W) (sends : SendsFirst ops) where
  abbrev Agrees : StatusRecorder W → Type 0
  Agrees r =
      ((r.written ≡ true) × (ops.sent r.response_writer ≡ some r.status_code))
      ⊎ ((r.written ≡ false) × (ops.sent r.response_writer ≡ none) × (r.status_code ≡ 200))

  write_header-Agrees :
      (status : ℕ) (r : StatusRecorder W)
      → 200 ≤ status
      → Agrees r
      → Agrees (write_header ops status r)
  unfolding write_header
  write_header-Agrees status r h (inl (w, s)) = rw (w, write_header) (inl (refl, s))
  write_header-Agrees status r h (inr (w, s, c)) =
      rw (w, write_header) (inl (refl, sends.first_header status r.response_writer h s))

  write-Agrees : (b : String) (r : StatusRecorder W) → Agrees r → Agrees (write ops b r)
  unfolding write
  write-Agrees b r (inl (w, s)) =
      rw (w, write) (inl (refl, sends.later_body b r.status_code r.response_writer s))
  write-Agrees b r (inr (w, s, c)) =
      rw (w, write) (inl (refl, sends.first_body b r.response_writer s))

  serve-Agrees :
      (calls : List Call) (r : StatusRecorder W)
      → All IsFinal calls
      → Agrees r
      → Agrees (serve ops calls r)
  unfolding serve
  serve-Agrees [] r h a = a
  serve-Agrees (header status ∷ calls) r (f, h) a =
      serve-Agrees calls (write_header ops status r) h (write_header-Agrees status r f a)
  serve-Agrees (body b ∷ calls) r (f, h) a =
      serve-Agrees calls (write ops b r) h (write-Agrees b r a)

  Agrees-status :
      (r : StatusRecorder W) → Agrees r → r.status_code ≡ or_200 (ops.sent r.response_writer)
  Agrees-status r (inl (w, s)) = rw s refl
  Agrees-status r (inr (w, s, c)) = rw s c

  -- A request whose handler writes final statuses and does not panic is counted once, under the status
  -- that the client is sent: the first of several, or 200 where none is given.
  pub middleware-counts_sent :
      (status_text : ℕ → String) (method path : String) (calls : List Call) (w : W) (m : Metrics)
      → ops.sent w ≡ none
      → All IsFinal calls
      → let (r, m') = middleware ops status_text method path calls false w m in
        let label =
          label_of method
            (normalize_path path)
            (status_label ops status_text (or_200 (ops.sent r.response_writer))) in
        (m'.requests_total ≡ increased label m.requests_total)
        × (m'.request_duration ≡ increased label m.request_duration)
  unfolding middleware record_request record_request_duration
  middleware-counts_sent status_text method path calls w m fresh final =
      let e =
        Agrees-status (serve ops calls (recorder w))
          (serve-Agrees calls (recorder w) final (inr (refl, fresh, refl))) in
      (
        ap
            (λ s.
              increased (label_of method (normalize_path path) (status_label ops status_text s))
                m.requests_total)
            e,
        ap
            (λ s.
              increased (label_of method (normalize_path path) (status_label ops status_text s))
                m.request_duration)
            e,
      )

  -- A handler that panics before it writes is answered 500, and counted under the text of 200: the
  -- metrics are recorded before the panic is looked at.
  pub middleware-counts_panic :
      (status_text : ℕ → String) (method path : String) (w : W) (m : Metrics)
      → ops.sent w ≡ none
      → let (r, m') = middleware ops status_text method path [] true w m in
        (ops.sent r.response_writer ≡ some 500)
        × (m'.requests_total
            ≡ increased
                (label_of method (normalize_path path) (status_label ops status_text 200))
                m.requests_total)
  unfolding middleware serve write_header record_request record_request_duration
  middleware-counts_panic status_text method path w m fresh =
      (sends.first_header 500 w (omega arith) fresh, refl)
