-- ===== src/Bunny/Client/Requests.antt =====
-- The requests that the client of internal/bunny/client.go sends.
use Prim.Native.String.{◌++◌}
use text.Mathlib.TextLemmas.{append-nil, append_assoc}
use bunny_api_proxy.Base.{
  ℕ, ℤ, String, ◌≡◌, refl, sym, ap, ◌∙◌, if-elim, not, ◌==◌, Option, none, some, List, [], ◌∷◌, inl,
  inr, All, ◌⊎◌, Bool-cases,
}
use bunny_api_proxy.Go.FormatInt.{format_int}
use bunny_api_proxy.Bunny.Http.{Request}
use bunny_api_proxy.Proxy.Types.{Answer}
use bunny_api_proxy.Bunny.Client.{Library, Client, send, with_query, json_header, content_header}
use bunny_api_proxy.Bunny.Client.Operations.{
  list_zones, create_zone, get_zone, delete_zone, update_zone, check_zone_availability,
  import_records, export_records, enable_dnssec, disable_dnssec, issue_certificate,
  get_zone_statistics, trigger_dns_scan, get_dns_scan_result, add_record, update_record,
  delete_record,
}
use bunny_api_proxy.Bunny.Client.Calls.{
  Call, erring, perform, zone_of, method_of, path_of, to_list_zones, to_create_zone, to_get_zone,
  to_delete_zone, to_update_zone, to_check_zone_availability, to_import_records, to_export_records,
  to_enable_dnssec, to_disable_dnssec, to_issue_certificate, to_get_zone_statistics,
  to_trigger_dns_scan, to_get_dns_scan_result, to_add_record, to_update_record, to_delete_record,
}

-- Requests are put in front, the newest first.
abbrev pub recorded : {W : Type 0} → Library W → Library (W × List Request)
recorded lib = record {
  http_do = λ req (w, sent). let (done, w') = lib.http_do req w in (done, (w', req ∷ sent));
  parses_url = lib.parses_url;
  encode_values = lib.encode_values;
  encode_domain = lib.encode_domain;
  encode_name = lib.encode_name;
  decode_zones = lib.decode_zones;
  decode_zone = lib.decode_zone;
  decode_record = lib.decode_record;
  decode_document = lib.decode_document;
  decode_message = lib.decode_message;
}

-- A text that does not go on with the number before it.
abbrev pub EndsNumber : String → Type 0
EndsNumber tail = (tail ≡ "") ⊎ ((rest : String) × (tail ≡ "/" ++ rest))

abbrev pub IsForZone : String → Option ℤ → String → Type 0
IsForZone base_url none url = (tail : String) × (url ≡ base_url ++ "/dnszone" ++ tail)
IsForZone base_url (some id) url =
    (tail : String) × (url ≡ base_url ++ "/dnszone/" ++ format_int id ++ tail) × EndsNumber tail

abbrev pub IsQuery : String → Type 0
IsQuery text = (text ≡ "") ⊎ ((rest : String) × (text ≡ "?" ++ rest))

-- The path, behind which a query may follow.
abbrev pub IsAt : String → String → String → Type 0
IsAt base_url path url = (query : String) × (url ≡ base_url ++ path ++ query) × IsQuery query

-- The master key is the first header, and the only one but for the type of the content.
pub record IsSentFor (c : Client) (call : Call) (r : Request) : Type 0 where
  pub headers : List (String × String)
  pub keyed : r.headers ≡ ("AccessKey", c.api_key) ∷ headers
  pub only_key : All (λ h. h.0 ≡ "Content-Type") headers
  pub for_zone : IsForZone c.base_url (zone_of call) r.url
  pub by_method : r.method ≡ method_of call
  pub at_path : IsAt c.base_url (path_of call) r.url

-- At most one request.
abbrev pub SendsOnce : Client → Call → List Request → Type 0
SendsOnce c call sent = (sent ≡ []) ⊎ ((r : Request) × (sent ≡ r ∷ []) × IsSentFor c call r)

send-SendsOnce :
    {W A : Type 0} (lib : Library W) (c : Client) (call : Call) (method endpoint : String)
    (headers : List (String × String)) (body : Option String) (k : ℕ → String → Answer A) (w : W)
    → All (λ h. h.0 ≡ "Content-Type") headers
    → IsForZone c.base_url (zone_of call) endpoint
    → method ≡ method_of call
    → IsAt c.base_url (path_of call) endpoint
    → SendsOnce c call (erring (send (recorded lib) c method endpoint headers body k) (w, [])).1.1
unfolding send
send-SendsOnce lib c call method endpoint headers body k w only for by_method at_path =
    elim (Bool-cases (lib.parses_url endpoint)) [
      | inl e ↦
          rw (e, send)
            (inr (
              record {
                method = method;
                url = endpoint;
                headers = ("AccessKey", c.api_key) ∷ headers;
                body = body;
              },
              refl,
              record {
                headers = headers;
                keyed = refl;
                only_key = only;
                for_zone = for;
                by_method = by_method;
                at_path = at_path;
              },
            ))
      | inr e ↦ rw (e, send) (inl refl)
    ]

-- A query behind an endpoint leaves the endpoint in front.
with_query-tail :
    {W : Type 0} (lib : Library W) (endpoint : String) (query : List (String × String))
    → (tail : String) × (with_query lib endpoint query ≡ endpoint ++ tail) × IsQuery tail
with_query-tail lib endpoint [] = ("", sym (append-nil endpoint), inl refl)
with_query-tail lib endpoint (p ∷ query) =
    ("?" ++ lib.encode_values (p ∷ query), refl, inr (lib.encode_values (p ∷ query), refl))

module _ (base_url : String) where
  IsForZone-all :
      {W : Type 0} (lib : Library W) (query : List (String × String))
      → IsForZone base_url none (with_query lib (base_url ++ "/dnszone") query)
  IsForZone-all lib query =
      let (tail, e, _) = with_query-tail lib (base_url ++ "/dnszone") query in
      (tail, e ∙ append_assoc base_url "/dnszone" tail)

  IsAt-plain : (path : String) → IsAt base_url path (base_url ++ path)
  IsAt-plain path = ("", ap (λ t. base_url ++ t) (sym (append-nil path)), inl refl)

  IsAt-query :
      {W : Type 0} (lib : Library W) (path : String) (query : List (String × String))
      → IsAt base_url path (with_query lib (base_url ++ path) query)
  IsAt-query lib path query =
      let (tail, e, q) = with_query-tail lib (base_url ++ path) query in
      (tail, e ∙ append_assoc base_url path tail, q)

  IsForZone-alone :
      (id : ℤ) → IsForZone base_url (some id) (base_url ++ "/dnszone/" ++ format_int id)
  IsForZone-alone id =
      ("", ap (λ t. base_url ++ "/dnszone/" ++ t) (sym (append-nil (format_int id))), inl refl)

  IsForZone-below :
      (id : ℤ) (tail rest : String)
      → tail ≡ "/" ++ rest
      → IsForZone base_url (some id) (base_url ++ "/dnszone/" ++ format_int id ++ tail)
  IsForZone-below id tail rest e = (tail, refl, inr (rest, e))

  IsForZone-query :
      {W : Type 0} (lib : Library W) (id : ℤ) (query : List (String × String))
      → IsForZone base_url
          (some id)
          (with_query lib (base_url ++ "/dnszone/" ++ format_int id ++ "/statistics") query)
  IsForZone-query lib id query =
      let endpoint = base_url ++ "/dnszone/" ++ format_int id ++ "/statistics" in
      let (tail, e, _) = with_query-tail lib endpoint query in
      (
        "/statistics" ++ tail,
        e
            ∙ append_assoc base_url ("/dnszone/" ++ format_int id ++ "/statistics") tail
            ∙ ap (λ t. base_url ++ t)
                (append_assoc "/dnszone/" (format_int id ++ "/statistics") tail
                  ∙ ap (λ t. "/dnszone/" ++ t) (append_assoc (format_int id) "/statistics" tail)),
        inr ("statistics" ++ tail, append_assoc "/" "statistics" tail),
      )

-- The type of an import is sent where it is given.
content_header-only :
    (content_type : String) → All (λ h. h.0 ≡ "Content-Type") (content_header content_type)
content_header-only content_type =
    if-elim (λ l. All (λ h. h.0 ≡ "Content-Type") l) (not (content_type == ""))
      (("Content-Type", content_type) ∷ []) [] (λ e. (refl, tt)) (λ e. tt)

-- A call sends one request at most. The request has the API key in its AccessKey header and no other
-- header but Content-Type, it goes by the call's method to the call's path below the base URL,
-- behind which there may be a query, and for a call for a zone the number in the path is the id of that
-- zone.
pub perform-SendsOnce :
    {W : Type 0} (lib : Library W) (c : Client) (call : Call) (w : W)
    → SendsOnce c call (perform (recorded lib) c call (w, [])).1.1
unfolding perform list_zones create_zone get_zone delete_zone update_zone check_zone_availability
    import_records export_records enable_dnssec disable_dnssec issue_certificate get_zone_statistics
    trigger_dns_scan get_dns_scan_result add_record update_record delete_record
perform-SendsOnce lib c (to_list_zones opts) w =
    send-SendsOnce lib c (to_list_zones opts) "GET" _ [] none _ w tt
      (IsForZone-all c.base_url (recorded lib) _) refl (IsAt-query c.base_url (recorded lib) _ _)
perform-SendsOnce lib c (to_create_zone domain) w =
    send-SendsOnce lib c (to_create_zone domain) "POST" _ json_header
      (some (lib.encode_domain domain)) _ w (refl, tt) ("", refl) refl (IsAt-plain c.base_url _)
perform-SendsOnce lib c (to_get_zone id) w =
    send-SendsOnce lib c (to_get_zone id) "GET" _ [] none _ w tt (IsForZone-alone c.base_url id)
      refl (IsAt-plain c.base_url _)
perform-SendsOnce lib c (to_delete_zone id) w =
    send-SendsOnce lib c (to_delete_zone id) "DELETE" _ [] none _ w tt
      (IsForZone-alone c.base_url id) refl (IsAt-plain c.base_url _)
perform-SendsOnce lib c (to_update_zone id req) w =
    send-SendsOnce lib c (to_update_zone id req) "POST" _ json_header (some req) _ w (refl, tt)
      (IsForZone-alone c.base_url id) refl (IsAt-plain c.base_url _)
perform-SendsOnce lib c (to_check_zone_availability name) w =
    send-SendsOnce lib c (to_check_zone_availability name) "POST" _ json_header
      (some (lib.encode_name name)) _ w (refl, tt) ("/checkavailability", refl) refl
      (IsAt-plain c.base_url _)
perform-SendsOnce lib c (to_import_records id body content_type) w =
    send-SendsOnce lib c (to_import_records id body content_type) "POST" _
      (content_header content_type) (some body) _ w (content_header-only content_type)
      (IsForZone-below c.base_url id "/import" "import" refl) refl (IsAt-plain c.base_url _)
perform-SendsOnce lib c (to_export_records id) w =
    send-SendsOnce lib c (to_export_records id) "GET" _ [] none _ w tt
      (IsForZone-below c.base_url id "/export" "export" refl) refl (IsAt-plain c.base_url _)
perform-SendsOnce lib c (to_enable_dnssec id) w =
    send-SendsOnce lib c (to_enable_dnssec id) "POST" _ [] none _ w tt
      (IsForZone-below c.base_url id "/dnssec" "dnssec" refl) refl (IsAt-plain c.base_url _)
perform-SendsOnce lib c (to_disable_dnssec id) w =
    send-SendsOnce lib c (to_disable_dnssec id) "DELETE" _ [] none _ w tt
      (IsForZone-below c.base_url id "/dnssec" "dnssec" refl) refl (IsAt-plain c.base_url _)
perform-SendsOnce lib c (to_issue_certificate id domain) w =
    send-SendsOnce lib c (to_issue_certificate id domain) "POST" _ json_header
      (some (lib.encode_domain domain)) _ w (refl, tt)
      (IsForZone-below c.base_url id "/certificate/issue" "certificate/issue" refl) refl
      (IsAt-plain c.base_url _)
perform-SendsOnce lib c (to_get_zone_statistics id date_from date_to) w =
    send-SendsOnce lib c (to_get_zone_statistics id date_from date_to) "GET" _ [] none _ w tt
      (IsForZone-query c.base_url (recorded lib) id _) refl
      (IsAt-query c.base_url (recorded lib) _ _)
perform-SendsOnce lib c (to_trigger_dns_scan domain) w =
    send-SendsOnce lib c (to_trigger_dns_scan domain) "POST" _ json_header
      (some (lib.encode_domain domain)) _ w (refl, tt) ("/records/scan", refl) refl
      (IsAt-plain c.base_url _)
perform-SendsOnce lib c (to_get_dns_scan_result id) w =
    send-SendsOnce lib c (to_get_dns_scan_result id) "GET" _ [] none _ w tt
      (IsForZone-below c.base_url id "/records/scan" "records/scan" refl) refl
      (IsAt-plain c.base_url _)
perform-SendsOnce lib c (to_add_record id req) w =
    send-SendsOnce lib c (to_add_record id req) "PUT" _ json_header (some req) _ w (refl, tt)
      (IsForZone-below c.base_url id "/records" "records" refl) refl (IsAt-plain c.base_url _)
perform-SendsOnce lib c (to_update_record id record_id req) w =
    send-SendsOnce lib c (to_update_record id record_id req) "POST" _ json_header (some req) _ w
      (refl, tt)
      (IsForZone-below c.base_url id ("/records/" ++ format_int record_id)
        ("records/" ++ format_int record_id) (append_assoc "/" "records/" (format_int record_id)))
      refl (IsAt-plain c.base_url _)
perform-SendsOnce lib c (to_delete_record id record_id) w =
    send-SendsOnce lib c (to_delete_record id record_id) "DELETE" _ [] none _ w tt
      (IsForZone-below c.base_url id ("/records/" ++ format_int record_id)
        ("records/" ++ format_int record_id) (append_assoc "/" "records/" (format_int record_id)))
      refl (IsAt-plain c.base_url _)
