-- ===== src/Bunny/Logging/Laws.antt =====
-- What LoggingTransport of internal/bunny/logging_transport.go passes on, and what it writes of a key.
use Prim.Native.String.{◌++◌, len, slice}
use text.Mathlib.TextLemmas.{append_assoc}
use text.Mathlib.TextPositions.{len-append, slice-append_left, slice-append_right}
use bunny_api_proxy.Base.{
  ℕ, ◌+◌, ◌-◌, ◌≤◌, String, ◌≡◌, refl, sym, ap, ◌∙◌, Bool, true, false, Option, none, some, List,
  ◌∷◌, ltb, arith, ◌⊎◌, inl, inr, Bool-cases, Option-cases,
}
use bunny_api_proxy.Bunny.Http.{
  Body, on_wire, in_memory, failing, closed, read_all, drain, failed, Request, HttpResponse,
  TransportError, Exchange, Transport,
}
use bunny_api_proxy.Bunny.Logging.{
  redact_sensitive_data, Entry, request_entry, log_answer, buffered, passed_on, logging_round_trip,
}

-- What a caller has that reads the whole body: the status and the text, or an error.
abbrev pub read_response : Option HttpResponse → Option (ℕ × String)
read_response none = none
read_response (some r) = elim (read_all r.body) [
  | none ↦ none
  | some text ↦ some (r.status_code, text)
]

abbrev pub received_with : Option TransportError → Option HttpResponse → Option (ℕ × String)
received_with (some e) resp = none
received_with none resp = read_response resp

abbrev pub received : Exchange → Option (ℕ × String)
received x = received_with x.error x.resp

-- What is documented of `io.ReadAll`: the bytes that it returns without an error are those that were to be
-- read.
abbrev pub ReadsWhole : (String → Option String × String) → Type 0
ReadsWhole read_body = (text bytes : String) → (read_body text).0 ≡ some bytes → bytes ≡ text

module _ (equal_fold : String → String → Bool) (read_body : String → Option String × String)
    (body_error : TransportError) where
  received-buffered :
      (method : String) (status_code : ℕ) (body : Body) (log : List Entry)
      → let r : HttpResponse = record { status_code = status_code; body = body } in
        received
          (buffered equal_fold read_body body_error true method
            (record r { body = drain body })
            (read_all body)
            log).0
        ≡ read_response (some r)
  received-buffered method status_code (on_wire text) log = refl
  received-buffered method status_code (in_memory text) log = refl
  received-buffered method status_code failing log = refl
  received-buffered method status_code closed log = refl

  received-log_answer :
      (is_debug : Bool) (method : String) (error : Option TransportError)
      (resp : Option HttpResponse) (log : List Entry)
      → received (log_answer equal_fold read_body body_error is_debug method error resp log).0
        ≡ received_with error resp
  received-log_answer is_debug method (some e) resp log = refl
  received-log_answer is_debug method none none log = refl
  received-log_answer true method none (some r) log =
      received-buffered method r.status_code r.body log
  received-log_answer false method none (some r) log = refl

module _ {W : Type 0} (equal_fold : String → String → Bool)
    (read_body : String → Option String × String) (body_error : TransportError) (is_debug : Bool)
    (inner : Transport W) where
  abbrev logged : Transport (W × List Entry)
  logged = logging_round_trip equal_fold read_body body_error is_debug inner

  abbrev passed : Transport (W × List Entry)
  passed = passed_on equal_fold read_body body_error is_debug inner

  -- On the debug level a body that fails is not sent.
  pub record IsUnreadable (body : Option String) : Type 0 where
    pub debug : is_debug ≡ true
    pub text : String
    pub has_body : body ≡ some text
    pub fails : (read_body text).0 ≡ none

  -- A request with the body `body` is passed on as it is, or it is refused since the body fails.
  abbrev Treated : Option String → Type 0
  Treated body =
      ((q : Request) (s : W × List Entry) → q.body ≡ body → logged q s ≡ passed q s)
      ⊎ (IsUnreadable body
          × ((q : Request) (s : W × List Entry)
              → q.body ≡ body
              → ((logged q s).0 ≡ failed body_error) × ((logged q s).2 ≡ s)))

  read-Treated : (text : String) → ReadsWhole read_body → is_debug ≡ true → Treated (some text)
  unfolding logging_round_trip
  read-Treated text whole d = elim (Option-cases (read_body text).0) [
    | inl fails ↦ inr (
      record { debug = d; text = text; has_body = refl; fails = fails },
      λ q s e. rw (d, e, fails, logging_round_trip) (refl, refl),
    )
    | inr (bytes, read) ↦ inl λ q s e.
        rw (d, e, read, logging_round_trip)
          (ap
            (λ b.
              passed_on equal_fold read_body body_error true inner (record q { body = some b }) s)
            (whole text bytes read))
  ]

  all-Treated : (body : Option String) → ReadsWhole read_body → Treated body
  unfolding logging_round_trip
  all-Treated body whole = elim (Bool-cases is_debug) [
    | inl d ↦ debugged body d
    | inr off ↦ inl λ q s e. rw (off, logging_round_trip) refl
  ]
    where
      debugged : (body : Option String) → is_debug ≡ true → Treated body
      debugged none d = inl λ q s e. rw (d, e, logging_round_trip) refl
      debugged (some text) d = read-Treated text whole d

  -- What a caller gets for a request, beside the transport below.
  pub data PassesOn (req : Request) (w : W) (log : List Entry)
      (out : Exchange × Request × (W × List Entry)) : Type 0 where
    transparent :
        received out.0 ≡ received (inner req w).0
        → out.1 ≡ (inner req w).1
        → out.2.0 ≡ (inner req w).2
        → PassesOn req w log out
    unreadable :
        IsUnreadable req.body
        → out.0 ≡ failed body_error
        → out.2 ≡ (w, log)
        → PassesOn req w log out

-- Whatever the log level, the transport below gets the request as it is, with its whole body, and a
-- caller that reads the body of the answer receives the same status and text, or an error in the same
-- cases, as from that transport. There is one exception: on the debug level a request whose body
-- cannot be read is answered with the error, nothing is sent and nothing is logged.
pub logging_round_trip-received :
    {W : Type 0} (equal_fold : String → String → Bool) (read_body : String → Option String × String)
    (body_error : TransportError) (is_debug : Bool) (inner : Transport W) (req : Request) (w : W)
    (log : List Entry)
    → ReadsWhole read_body
    → PassesOn equal_fold read_body body_error is_debug inner req w log
        (logging_round_trip equal_fold read_body body_error is_debug inner req (w, log))
logging_round_trip-received equal_fold read_body body_error is_debug inner req w log whole =
    elim (all-Treated equal_fold read_body body_error is_debug inner req.body whole) [
      | inl same ↦
          let e = same req (w, log) refl in
          transparent
            (ap (λ x. received x.0) e
              ∙ received-log_answer equal_fold read_body body_error is_debug _ _ _ _)
            (ap (λ x. x.1) e) (ap (λ x. x.2.0) e)
      | inr (fails, refused) ↦
          unreadable fails (refused req (w, log) refl).0 (refused req (w, log) refl).1
    ]

last_part : (s t key : String) → key ≡ s ++ t → len t ≡ 4 → slice key (len key - 4) (len key) ≡ t
last_part s t key e l =
    let total : len key ≡ len s + len t = ap len e ∙ len-append s t in
    let start : len key - 4 ≡ len s = omega (arith, total, l) in
    ap (λ k. slice k (len key - 4) (len key)) e
    ∙ ap (λ k. slice (s ++ t) k (len key)) start
    ∙ ap (λ k. slice (s ++ t) (len s) k) total
    ∙ slice-append_right s t

redact_sensitive_data-append :
    (first middle last : String)
    → len first ≡ 4
    → len last ≡ 4
    → 4 ≤ len middle
    → redact_sensitive_data (first ++ middle ++ last) ≡ first ++ "..." ++ last
unfolding redact_sensitive_data
redact_sensitive_data-append first middle last f l m =
    let key = first ++ middle ++ last in
    let total : len key ≡ len first + (len middle + len last) =
      len-append first (middle ++ last) ∙ ap (λ k. len first + k) (len-append middle last) in
    let long : ltb (len key) 12 ≡ false = ground (arith, total, f, l, m) in
    let front : slice key 0 4 ≡ first =
      ap (λ k. slice key 0 k) (sym f) ∙ slice-append_left first (middle ++ last) in
    rw
      (
        long,
        front,
        last_part (first ++ middle) last key (sym (append_assoc first middle last)) l,
        redact_sensitive_data,
      )
      refl

abbrev keyed : Request → (key : String) → List (String × String) → Request
keyed req key headers = record req { headers = ("AccessKey", key) ∷ headers }

request_entry-keyed :
    (equal_fold : String → String → Bool) (read_body : String → Option String × String)
    (body_error : TransportError) (is_debug : Bool) (req : Request)
    (headers : List (String × String)) (key key' : String) (log : List Entry)
    → ((t : String) → equal_fold t t ≡ true)
    → redact_sensitive_data key ≡ redact_sensitive_data key'
    → request_entry equal_fold read_body body_error is_debug (keyed req key headers) log
      ≡ request_entry equal_fold read_body body_error is_debug (keyed req key' headers) log
request_entry-keyed equal_fold read_body body_error true req headers key key' log folds e =
    rw (folds "AccessKey", e) refl
request_entry-keyed equal_fold read_body body_error false req headers key key' log folds e = refl

-- The entries for two keys that are shown alike.
passed_on-keyed :
    {W : Type 0} (equal_fold : String → String → Bool) (read_body : String → Option String × String)
    (body_error : TransportError) (is_debug : Bool) (inner : Transport W) (req : Request)
    (headers : List (String × String)) (key key' : String) (w : W) (log : List Entry)
    → ((t : String) → equal_fold t t ≡ true)
    → redact_sensitive_data key ≡ redact_sensitive_data key'
    → (inner (keyed req key headers) w).0 ≡ (inner (keyed req key' headers) w).0
    → (inner (keyed req key headers) w).1.method ≡ (inner (keyed req key' headers) w).1.method
    → (passed_on equal_fold read_body body_error is_debug inner
        (keyed req key headers)
        (w, log)).2.1
      ≡ (passed_on equal_fold read_body body_error is_debug inner
          (keyed req key' headers)
          (w, log)).2.1
passed_on-keyed equal_fold read_body body_error is_debug inner req headers key key' w log folds
      shown answer method =
    rw
      (
        answer,
        method,
        request_entry-keyed equal_fold read_body body_error is_debug req headers key key' log folds
            shown,
      )
      refl

-- Two keys of at least twelve bytes with the same first and the same last four bytes, sent in the
-- AccessKey header of the same request, leave the same entries in the log, if the answers are the same,
-- strings.EqualFold holds of equal texts, and io.ReadAll returns what there is to read.
pub logging_round_trip-key_hidden :
    {W : Type 0} (equal_fold : String → String → Bool) (read_body : String → Option String × String)
    (body_error : TransportError) (is_debug : Bool) (inner : Transport W) (req : Request)
    (headers : List (String × String)) (first middle middle' last : String) (w : W)
    (log : List Entry)
    → ((t : String) → equal_fold t t ≡ true)
    → ReadsWhole read_body
    → len first ≡ 4
    → len last ≡ 4
    → 4 ≤ len middle
    → 4 ≤ len middle'
    → let one = keyed req (first ++ middle ++ last) headers in
      let other = keyed req (first ++ middle' ++ last) headers in
      (inner one w).0 ≡ (inner other w).0
      → (inner one w).1.method ≡ (inner other w).1.method
      → (logging_round_trip equal_fold read_body body_error is_debug inner one (w, log)).2.1
        ≡ (logging_round_trip equal_fold read_body body_error is_debug inner other (w, log)).2.1
logging_round_trip-key_hidden equal_fold read_body body_error is_debug inner req headers first
      middle middle' last w log folds whole f l m m' answer method =
    let one = keyed req (first ++ middle ++ last) headers in
    let other = keyed req (first ++ middle' ++ last) headers in
    let redacted =
      redact_sensitive_data-append first middle last f l m
      ∙ sym (redact_sensitive_data-append first middle' last f l m') in
    elim (all-Treated equal_fold read_body body_error is_debug inner req.body whole) [
      | inl same ↦
          ap (λ x. x.2.1) (same one (w, log) refl)
          ∙ passed_on-keyed equal_fold read_body body_error is_debug inner req headers
              (first ++ middle ++ last) (first ++ middle' ++ last) w log folds redacted answer
              method
          ∙ sym (ap (λ x. x.2.1) (same other (w, log) refl))
      | inr (fails, refused) ↦
          ap (λ x. x.1) (refused one (w, log) refl).1
          ∙ sym (ap (λ x. x.1) (refused other (w, log) refl).1)
    ]
