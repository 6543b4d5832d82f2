-- ===== src/Logging/Http.antt =====
-- internal/middleware/logging.go and FormatBinaryData of internal/logging/masking.go. The body that a
-- handler reads is one of internal/bunny's model of net/http; durations are left out of the log.
pub mod Transparent
use Prim.Native.String.{◌++◌, len}
use bunny_api_proxy.Base.{
  ℕ, pos, String, ◌==◌, Bool, not, Option, none, some, List, [], ◌∷◌, ◌==ℕ◌, if◌then◌else◌,
}
use bunny_api_proxy.Go.FormatInt.{format_int}
use bunny_api_proxy.Bunny.Http.{Body, on_wire, in_memory, failing, closed, read_all, drain}
use bunny_api_proxy.Logging.Masking.{Json, mask_header, mask_json_body}
use bunny_api_proxy.Go.Writer.{ResponseWriter, Call, header, body}

-- `http.Header`: names with their texts.
abbrev pub Headers : Type 0
Headers = List (String × List String)

-- What the code uses of Go's library: strings.ToLower, encoding/json and utf8.Valid.
pub record Library : Type 0 where
  pub to_lower : String → String
  pub decode : String → Option Json
  pub encode : Json → Option String
  pub is_utf8 : String → Bool

pub data Entry : Type 0 where
  unread_body : Entry
  request_entry :
      (request_id method path query : String)
      → (headers : List (String × String)) → (body : String) → Entry
  response_entry :
      (request_id method path : String)
      → (status_code : ℕ) → (headers : List (String × String)) → (body : String) → Entry

pub record Request : Type 0 where
  pub request_id : String
  pub method : String
  pub path : String
  pub query : String
  pub headers : Headers
  -- `none` is a nil body
  pub content : Option Body

-- FormatBinaryData
unfoldable pub format_binary_data : String → String
format_binary_data content = "[BINARY: " ++ (format_int (pos (len content)) ++ " bytes]")

module _ (lib : Library) where
  -- A header without a text is left out.
  unfoldable pub mask_headers : Headers → List (String × String)
  mask_headers [] = []
  mask_headers ((k, []) ∷ headers) = mask_headers headers
  mask_headers ((k, v ∷ vs) ∷ headers) = (k, mask_header lib.to_lower k v) ∷ mask_headers headers

  unfoldable pub mask_body : String → Option (List String) → String
  unfolding format_binary_data
  mask_body content allowlist =
      if len content ==ℕ 0
      then ""
      else if not (lib.is_utf8 content)
      then format_binary_data content
      else mask_json_body lib.decode lib.encode content allowlist

  abbrev pub entry_for : Request → String → Option (List String) → Entry
  entry_for r content allowlist =
      request_entry r.request_id r.method r.path r.query (mask_headers r.headers)
        (mask_body content allowlist)

  -- `r` is the request with its body drained, into which the text that was read is put back.
  abbrev pub log_read : Request → Option (List String) → Option String → List Entry × Request
  log_read r allowlist none = (unread_body ∷ [], r)
  log_read r allowlist (some text) =
      (entry_for r text allowlist ∷ [], record r { content = some (in_memory text) })

  abbrev pub log_content : Request → Option (List String) → Option Body → List Entry × Request
  log_content r allowlist none = (entry_for r "" allowlist ∷ [], r)
  log_content r allowlist (some content) =
      log_read (record r { content = some (drain content) }) allowlist (read_all content)

  -- logRequest: the body is read, and put back.
  unfoldable pub log_request : Request → Option (List String) → List Entry × Request
  unfolding mask_body
  log_request r allowlist = log_content r allowlist r.content

pub record ResponseRecorder (W : Type 0) : Type 0 where
  pub response_writer : W
  pub status_code : ℕ
  pub captured : String

module _ {W : Type 0} (ops : ResponseWriter W) where
  -- responseRecorder.WriteHeader and Write
  unfoldable pub record_header : ℕ → ResponseRecorder W → ResponseRecorder W
  record_header status r = record {
    response_writer = ops.write_header status r.response_writer;
    status_code = status;
    captured = r.captured;
  }

  unfoldable pub record_body : String → ResponseRecorder W → ResponseRecorder W
  record_body b r = record {
    response_writer = ops.write b r.response_writer;
    status_code = r.status_code;
    captured = r.captured ++ b;
  }

  unfoldable pub recording : List Call → ResponseRecorder W → ResponseRecorder W
  unfolding record_header record_body
  recording [] r = r
  recording (header status ∷ calls) r = recording calls (record_header status r)
  recording (body b ∷ calls) r = recording calls (record_body b r)

  -- A handler that writes to the server's own writer.
  unfoldable pub writing : List Call → W → W
  writing [] w = w
  writing (header status ∷ calls) w = writing calls (ops.write_header status w)
  writing (body b ∷ calls) w = writing calls (ops.write b w)

  abbrev pub recorder : W → ResponseRecorder W
  recorder w = record { response_writer = w; status_code = 200; captured = "" }

  module _ (lib : Library) (response_headers : W → Headers) where
    -- logResponse
    unfoldable pub log_response : Request → ResponseRecorder W → Option (List String) → Entry
    log_response r rec allowlist =
        response_entry r.request_id r.method r.path rec.status_code
          (mask_headers lib (response_headers rec.response_writer))
          (mask_body lib rec.captured allowlist)

    -- HTTPLogging. `next` is what the next handler writes for a request; the logger is asked for its
    -- level before and after.
    unfoldable pub http_logging :
        (before_debug after_debug : Bool)
        → Option (List String)
        → (next : Request → List Call) → Request
        → W
        → List Entry × W
    unfolding log_request recording writing log_response
    http_logging before_debug after_debug allowlist next r w =
        if not before_debug
        then ([], writing (next r) w)
        else let (entries, r') = log_request lib r allowlist in
          let rec = recording (next r') (recorder w) in
          (
            if after_debug then log_response r' rec allowlist ∷ entries else entries,
            rec.response_writer,
          )
