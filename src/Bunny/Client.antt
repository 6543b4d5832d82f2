-- ===== src/Bunny/Client.antt =====
-- The client of internal/bunny/client.go. What it uses of net/http, net/url and encoding/json is the
-- record `Library`.
pub mod Operations
pub mod Calls
pub mod Requests
pub mod Errors
pub mod ReadBack
use Prim.Native.String.{◌++◌}
use bunny_api_proxy.Base.{
  ℕ, ℤ, String, ◌==◌, Bool, not, Option, none, some, List, [], ◌∷◌, ◌==ℕ◌, if◌then◌else◌,
  is_not_pos,
}
use bunny_api_proxy.Go.FormatInt.{format_int}
use bunny_api_proxy.Bunny.Http.{Request, HttpResponse, read_all, TransportError}
use bunny_api_proxy.Proxy.Types.{
  Record, Zone, ListZonesResponse, ListZonesOptions, Document, ClientError, not_found, unauthorized,
  api_error, other_error, Answer, ok, err, Upstream, BunnyClient,
}

-- The structs that the proxy passes on unread.
pub data DocumentType : Type 0 where
  availability import_result dnssec statistics scan_result : DocumentType

-- What `http.Client.Do` returns: a response or an error.
pub data Done : Type 0 where
  responded : HttpResponse → Done
  broke_off : TransportError → Done

-- `json.Unmarshal` gives `none` on an error; of an APIError it gives the message.
pub record Library (W : Type 0) : Type 0 where
  pub http_do : Request → W → Done × W
  pub parses_url : String → Bool
  pub encode_values : List (String × String) → String
  pub encode_domain : String → String
  pub encode_name : String → String
  pub decode_zones : String → Option ListZonesResponse
  pub decode_zone : String → Option Zone
  pub decode_record : String → Option Record
  pub decode_document : DocumentType → String → Option Document
  pub decode_message : String → Option String

pub record Client : Type 0 where
  pub base_url : String
  pub api_key : String

abbrev pub decoded : {A : Type 0} → Option A → Answer A
decoded none = err other_error
decoded (some a) = ok a

-- `query.Set` for a parameter that is given
abbrev pub set_query : Bool → (key value : String) → List (String × String) → List (String × String)
set_query given key value query = if given then (key, value) ∷ query else query

abbrev pub json_header : List (String × String)
json_header = ("Content-Type", "application/json") ∷ []

abbrev pub content_header : String → List (String × String)
content_header content_type =
    if not (content_type == "") then ("Content-Type", content_type) ∷ [] else []

module _ {W : Type 0} (lib : Library W) where
  abbrev pub message_error : ℕ → Option String → ClientError
  message_error status_code none = other_error
  message_error status_code (some message) =
      if not (message == "") then api_error status_code message else other_error

  -- parseError. Its fallback errors differ in their texts only, which nothing reads.
  unfoldable pub parse_error : ℕ → String → ClientError
  parse_error status_code body =
      if status_code ==ℕ 401
      then unauthorized
      else message_error status_code (lib.decode_message body)

  abbrev pub not_found_or : {A : Type 0} → ℕ → String → Answer A
  not_found_or status_code body =
      if status_code ==ℕ 404 then err not_found else err (parse_error status_code body)

  abbrev pub read_body : {A : Type 0} → ℕ → Option String → (ℕ → String → Answer A) → Answer A
  read_body status_code none k = err other_error
  read_body status_code (some body) k = k status_code body

  abbrev pub read_response : {A : Type 0} → Done → (ℕ → String → Answer A) → Answer A
  read_response (broke_off e) k = err other_error
  read_response (responded r) k = read_body r.status_code (read_all r.body) k

  -- Query parameters behind an endpoint, when there are any.
  abbrev pub with_query : String → List (String × String) → String
  with_query endpoint [] = endpoint
  with_query endpoint (p ∷ query) = endpoint ++ "?" ++ lib.encode_values (p ∷ query)

  module _ (c : Client) where
    -- http.NewRequestWithContext, `Header.Set`, `httpClient.Do`, io.ReadAll, and what an operation makes
    -- of the status and the body.
    unfoldable pub send :
        {A : Type 0} (method endpoint : String) (headers : List (String × String))
        (body : Option String) (k : ℕ → String → Answer A)
        → Upstream W A
    send method endpoint headers body k w =
        let (done, w') =
          lib.http_do
            (record {
              method = method;
              url = endpoint;
              headers = ("AccessKey", c.api_key) ∷ headers;
              body = body;
            })
            w in
        if lib.parses_url endpoint then (read_response done k, w') else (err other_error, w)

    abbrev pub zones_url : String
    zones_url = c.base_url ++ "/dnszone"

    abbrev pub zone_url : ℤ → String
    zone_url id = c.base_url ++ "/dnszone/" ++ format_int id

    abbrev pub below_url : ℤ → String → String
    below_url id tail = c.base_url ++ "/dnszone/" ++ format_int id ++ tail

    abbrev pub record_url : ℤ → ℤ → String
    record_url zone_id id =
        c.base_url ++ "/dnszone/" ++ format_int zone_id ++ "/records/" ++ format_int id

    -- The answers of the operations that return a zone, a record, a document, or nothing.
    abbrev pub zone_or : (found : ℕ) → ℕ → String → Answer Zone
    zone_or found status_code body =
        if status_code ==ℕ found
        then decoded (lib.decode_zone body)
        else not_found_or status_code body

    abbrev pub document_or : DocumentType → ℕ → String → Answer Document
    document_or type status_code body =
        if status_code ==ℕ 200
        then decoded (lib.decode_document type body)
        else not_found_or status_code body

    abbrev pub done_or : (done : ℕ) → ℕ → String → Answer (Unit {0})
    done_or done status_code body =
        if status_code ==ℕ done then ok tt else not_found_or status_code body

    abbrev pub decoded_record : Option Record → Answer (Option Record)
    decoded_record none = err other_error
    decoded_record (some r) = ok (some r)
