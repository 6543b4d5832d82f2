-- ===== src/Bunny/Client/Errors.antt =====
-- The errors that the client of internal/bunny/client.go makes of the answers of bunny.net.
use bunny_api_proxy.Base.{
  Bool-cases, inl, inr, ◌==◌, ℕ, ◌==ℕ◌, ◌&&◌, ◌||◌, arith, String, ◌≡◌, refl, ap, Bool, true, false,
  Option, none, some, List, [], ◌∷◌, if◌then◌else◌,
}
use bunny_api_proxy.Bunny.Http.{Request, read_all}
use bunny_api_proxy.Proxy.Types.{
  ClientError, not_found, other_error, unauthorized, api_error, Answer,
}
use bunny_api_proxy.Go.Pattern.{is_some}
use bunny_api_proxy.Bunny.Client.{
  availability, import_result, dnssec, statistics, scan_result, responded, broke_off, parse_error,
  message_error, read_body, read_response, Library, Client, Done, send, json_header, content_header,
}
use bunny_api_proxy.Bunny.Client.Operations.{
  list_zones, create_zone, get_zone, delete_zone, update_zone, check_zone_availability,
  import_records, export_records, enable_dnssec, disable_dnssec, issue_certificate,
  get_zone_statistics, trigger_dns_scan, get_dns_scan_result, add_record, update_record,
  delete_record,
}
use bunny_api_proxy.Bunny.Client.Calls.{
  Call, erring, error_of, perform, to_list_zones, to_create_zone, to_get_zone, to_delete_zone,
  to_update_zone, to_check_zone_availability, to_import_records, to_export_records,
  to_enable_dnssec, to_disable_dnssec, to_issue_certificate, to_get_zone_statistics,
  to_trigger_dns_scan, to_get_dns_scan_result, to_add_record, to_update_record, to_delete_record,
}

abbrev pub is_success : Call → ℕ → Bool
is_success (to_create_zone domain) s = s ==ℕ 201
is_success (to_add_record id req) s = s ==ℕ 201
is_success (to_delete_zone id) s = s ==ℕ 204
is_success (to_delete_record id record_id) s = s ==ℕ 204
is_success (to_update_record id record_id req) s = s ==ℕ 200 || s ==ℕ 204
is_success _ s = s ==ℕ 200

-- The operations that look for a 404.
abbrev pub knows_not_found : Call → Bool
knows_not_found (to_list_zones opts) = false
knows_not_found (to_create_zone domain) = false
knows_not_found (to_check_zone_availability name) = false
knows_not_found _ = true

-- The body of a success is decoded.
abbrev pub is_readable : {W : Type 0} → Library W → Call → ℕ → String → Bool
is_readable lib (to_list_zones opts) s body = is_some (lib.decode_zones body)
is_readable lib (to_create_zone domain) s body = is_some (lib.decode_zone body)
is_readable lib (to_get_zone id) s body = is_some (lib.decode_zone body)
is_readable lib (to_update_zone id req) s body = is_some (lib.decode_zone body)
is_readable lib (to_check_zone_availability name) s body =
    is_some (lib.decode_document availability body)
is_readable lib (to_import_records id b t) s body = is_some (lib.decode_document import_result body)
is_readable lib (to_enable_dnssec id) s body = is_some (lib.decode_document dnssec body)
is_readable lib (to_disable_dnssec id) s body = is_some (lib.decode_document dnssec body)
is_readable lib (to_get_zone_statistics id f t) s body =
    is_some (lib.decode_document statistics body)
is_readable lib (to_trigger_dns_scan domain) s body = is_some (lib.decode_document scan_result body)
is_readable lib (to_get_dns_scan_result id) s body = is_some (lib.decode_document scan_result body)
is_readable lib (to_add_record id req) s body = is_some (lib.decode_record body)
is_readable lib (to_update_record id record_id req) s body =
    if s ==ℕ 200 then is_some (lib.decode_record body) else true
is_readable lib (to_delete_zone id) s body = true
is_readable lib (to_delete_record id record_id) s body = true
is_readable lib (to_export_records id) s body = true
is_readable lib (to_issue_certificate id domain) s body = true

-- The error of a status without a meaning of its own.
abbrev pub described_error : ℕ → Option String → ClientError
described_error s none = other_error
described_error s (some message) = if message == "" then other_error else api_error s message

unfoldable pub failure : {W : Type 0} → Library W → ℕ → String → ClientError
failure lib s body = if s ==ℕ 401 then unauthorized else described_error s (lib.decode_message body)

parse_error-failure :
    {W : Type 0} (lib : Library W) (s : ℕ) (body : String)
    → parse_error lib s body ≡ failure lib s body
unfolding parse_error failure
parse_error-failure lib s body =
    ap (λ e. if s ==ℕ 401 then unauthorized else e) (described (lib.decode_message body))
  where
    described : (m : Option String) → message_error lib s m ≡ described_error s m
    described none = refl
    described (some message) = elim (Bool-cases (message == "")) [
      | inl e ↦ rw e refl
      | inr e ↦ rw e refl
    ]

module _ {W : Type 0} (lib : Library W) (call : Call) where
  abbrev pub status_error : ℕ → String → Option ClientError
  status_error s body =
      if is_success call s
      then if is_readable lib call s body then none else some other_error
      else if s ==ℕ 404 && knows_not_found call
      then some not_found
      else some (failure lib s body)

  abbrev body_error : ℕ → Option String → Option ClientError
  body_error s none = some other_error
  body_error s (some body) = status_error s body

  abbrev pub expected_error : Done → Option ClientError
  expected_error (broke_off e) = some other_error
  expected_error (responded r) = body_error r.status_code (read_all r.body)

send-error :
    {W A : Type 0} (lib : Library W) (c : Client) (call : Call) (method endpoint : String)
    (headers : List (String × String)) (body : Option String) (k : ℕ → String → Answer A) (w w' : W)
    (done : Done)
    → ((u : String) → lib.parses_url u ≡ true)
    → ((r : Request) → lib.http_do r w ≡ (done, w'))
    → ((s : ℕ) (text : String) → error_of (k s text) ≡ status_error lib call s text)
    → erring (send lib c method endpoint headers body k) w ≡ (expected_error lib call done, w')
unfolding send
send-error lib c call method endpoint headers body k w w' done parses answer same =
    let e = answer (record {
      method = method;
      url = endpoint;
      headers = ("AccessKey", c.api_key) ∷ headers;
      body = body;
    }) in
    rw (parses endpoint, ap (λ x. x.0) e, ap (λ x. x.1) e, send) (ap (λ o. (o, w')) (read done))
  where
    read_text :
        (s : ℕ) (t : Option String) → error_of (read_body lib s t k) ≡ body_error lib call s t
    read_text s none = refl
    read_text s (some text) = same s text

    read : (done : Done) → error_of (read_response lib done k) ≡ expected_error lib call done
    read (broke_off e) = refl
    read (responded r) = read_text r.status_code (read_all r.body)

-- Where every URL parses and the HTTP client answers any request with one response or error, the call
-- fails with: any error for a broken exchange, an unreadable body, or a success that does not decode;
-- not found for a 404, but not from the operations for which it has no meaning; unauthorized for a 401;
-- the status and the message for another status with an error message; any error for one without.
-- Otherwise it does not fail.
pub perform-expected_error :
    {W : Type 0} (lib : Library W) (c : Client) (call : Call) (w w' : W) (done : Done)
    → ((u : String) → lib.parses_url u ≡ true)
    → ((r : Request) → lib.http_do r w ≡ (done, w'))
    → perform lib c call w ≡ (expected_error lib call done, w')
unfolding perform list_zones create_zone get_zone delete_zone update_zone check_zone_availability
    import_records export_records enable_dnssec disable_dnssec issue_certificate get_zone_statistics
    trigger_dns_scan get_dns_scan_result add_record update_record delete_record
perform-expected_error lib c (to_list_zones opts) w w' done p a =
    send-error lib c (to_list_zones opts) "GET" _ [] none _ w w' done p a
      λ s t. ground (arith, parse_error-failure lib s t)
perform-expected_error lib c (to_create_zone domain) w w' done p a =
    send-error lib c (to_create_zone domain) "POST" _ json_header (some (lib.encode_domain domain))
      _ w w' done p a λ s t. ground (arith, parse_error-failure lib s t)
perform-expected_error lib c (to_get_zone id) w w' done p a =
    send-error lib c (to_get_zone id) "GET" _ [] none _ w w' done p a
      λ s t. ground (arith, parse_error-failure lib s t)
perform-expected_error lib c (to_delete_zone id) w w' done p a =
    send-error lib c (to_delete_zone id) "DELETE" _ [] none _ w w' done p a
      λ s t. ground (arith, parse_error-failure lib s t)
perform-expected_error lib c (to_update_zone id req) w w' done p a =
    send-error lib c (to_update_zone id req) "POST" _ json_header (some req) _ w w' done p a
      λ s t. ground (arith, parse_error-failure lib s t)
perform-expected_error lib c (to_check_zone_availability name) w w' done p a =
    send-error lib c (to_check_zone_availability name) "POST" _ json_header
      (some (lib.encode_name name)) _ w w' done p a
      λ s t. ground (arith, parse_error-failure lib s t)
perform-expected_error lib c (to_import_records id body content_type) w w' done p a =
    send-error lib c (to_import_records id body content_type) "POST" _ (content_header content_type)
      (some body) _ w w' done p a λ s t. ground (arith, parse_error-failure lib s t)
perform-expected_error lib c (to_export_records id) w w' done p a =
    send-error lib c (to_export_records id) "GET" _ [] none _ w w' done p a
      λ s t. ground (arith, parse_error-failure lib s t)
perform-expected_error lib c (to_enable_dnssec id) w w' done p a =
    send-error lib c (to_enable_dnssec id) "POST" _ [] none _ w w' done p a
      λ s t. ground (arith, parse_error-failure lib s t)
perform-expected_error lib c (to_disable_dnssec id) w w' done p a =
    send-error lib c (to_disable_dnssec id) "DELETE" _ [] none _ w w' done p a
      λ s t. ground (arith, parse_error-failure lib s t)
perform-expected_error lib c (to_issue_certificate id domain) w w' done p a =
    send-error lib c (to_issue_certificate id domain) "POST" _ json_header
      (some (lib.encode_domain domain)) _ w w' done p a
      λ s t. ground (arith, parse_error-failure lib s t)
perform-expected_error lib c (to_get_zone_statistics id date_from date_to) w w' done p a =
    send-error lib c (to_get_zone_statistics id date_from date_to) "GET" _ [] none _ w w' done p a
      λ s t. ground (arith, parse_error-failure lib s t)
perform-expected_error lib c (to_trigger_dns_scan domain) w w' done p a =
    send-error lib c (to_trigger_dns_scan domain) "POST" _ json_header
      (some (lib.encode_domain domain)) _ w w' done p a
      λ s t. ground (arith, parse_error-failure lib s t)
perform-expected_error lib c (to_get_dns_scan_result id) w w' done p a =
    send-error lib c (to_get_dns_scan_result id) "GET" _ [] none _ w w' done p a
      λ s t. ground (arith, parse_error-failure lib s t)
perform-expected_error lib c (to_add_record id req) w w' done p a =
    send-error lib c (to_add_record id req) "PUT" _ json_header (some req) _ w w' done p a
      λ s t. ground (arith, parse_error-failure lib s t)
perform-expected_error lib c (to_update_record id record_id req) w w' done p a =
    send-error lib c (to_update_record id record_id req) "POST" _ json_header (some req) _ w w' done
      p a λ s t. ground (arith, parse_error-failure lib s t)
perform-expected_error lib c (to_delete_record id record_id) w w' done p a =
    send-error lib c (to_delete_record id record_id) "DELETE" _ [] none _ w w' done p a
      λ s t. ground (arith, parse_error-failure lib s t)
