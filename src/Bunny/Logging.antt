-- ===== src/Bunny/Logging.antt =====
-- LoggingTransport of internal/bunny/logging_transport.go. Of a log entry it leaves out the request id,
-- the prefix, the duration and the response's headers.
pub mod Laws
use Prim.Native.String.{◌++◌, len, slice}
use bunny_api_proxy.Base.{
  ℕ, ◌+◌, ◌-◌, String, ◌==◌, ◌≡◌, refl, Bool, true, false, ◌||◌, Option, none, some, List, [], ◌∷◌,
  map, ltb, if◌then◌else◌,
}
use bunny_api_proxy.Bunny.Http.{
  Body, in_memory, read_all, drain, Request, HttpResponse, TransportError, Exchange, Transport,
  failed, answered_by,
}

-- A text's length and its parts count bytes; a key is taken to be ASCII.
unfoldable pub redact_sensitive_data : String → String
redact_sensitive_data key =
    if ltb (len key) 12 then "****" else slice key 0 4 ++ "..." ++ slice key (len key - 4) (len key)

pub data Entry : Type 0 where
  api_request :
      (method url : String) → (headers : List (String × String)) → (body : Option String) → Entry
  call_failed : (method : String) → TransportError → Entry
  api_call : (method : String) → (status : ℕ) → Entry
  api_response : (status_code : ℕ) → (body : String) → Entry

-- `equal_fold` is strings.EqualFold. `read_body` is `io.ReadAll` on the unread part of a request's body:
-- the bytes read, `none` being an error, and what is then left to read. `body_error` is the error of a
-- body that cannot be read.
module _ (equal_fold : String → String → Bool) (read_body : String → Option String × String)
    (body_error : TransportError) (is_debug : Bool) where
  abbrev pub shown_header : String × String → String × String
  shown_header (k, v) = (
    k,
    if equal_fold k "AccessKey" || equal_fold k "Authorization" then redact_sensitive_data v else v,
  )

  abbrev pub request_entry : Request → List Entry → List Entry
  request_entry req log =
      if is_debug
      then api_request req.method req.url (map shown_header req.headers) req.body ∷ log
      else log

  abbrev pub buffered : String → HttpResponse → Option String → List Entry → Exchange × List Entry
  buffered method r none log = (failed body_error, log)
  buffered method r (some text) log = (
    answered_by (record r { body = in_memory text }),
    api_response r.status_code text ∷ api_call method r.status_code ∷ log,
  )

  -- The answer of the transport below, then the entries for it. A transport without answer and error does
  -- not exist.
  abbrev pub log_answer :
      String → Option TransportError → Option HttpResponse → List Entry → Exchange × List Entry
  log_answer method (some e) resp log = (failed e, call_failed method e ∷ log)
  log_answer method none (some r) log =
      if is_debug
      then buffered method (record r { body = drain r.body }) (read_all r.body) log
      else (answered_by r, api_call method r.status_code ∷ log)
  log_answer method none none log = (record { resp = none; error = none }, log)

  -- The transport below gets the request; the newest entry is the first.
  abbrev pub passed_on : {W : Type 0} → Transport W → Transport (W × List Entry)
  passed_on inner req (w, log) =
      let (x, req', w') = inner req w in
      let (out, log') = log_answer req'.method x.error x.resp (request_entry req log) in
      (out, req', (w', log'))

  -- The bytes that were read are put back into the request, which else has only what is left.
  abbrev pub with_read :
      {W : Type 0} → Transport W → (left : String) → Option String → Transport (W × List Entry)
  with_read inner left none req s = (failed body_error, record req { body = some left }, s)
  with_read inner left (some bytes) req s = passed_on inner (record req { body = some bytes }) s

  abbrev pub with_body : {W : Type 0} → Transport W → Option String → Transport (W × List Entry)
  with_body inner none req s = passed_on inner req s
  with_body inner (some text) req s =
      let (bytes, left) = read_body text in with_read inner left bytes req s

  -- RoundTrip
  unfoldable pub logging_round_trip : {W : Type 0} → Transport W → Transport (W × List Entry)
  logging_round_trip inner req s =
      if is_debug then with_body inner req.body req s else passed_on inner req s
