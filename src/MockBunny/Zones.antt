-- ===== src/MockBunny/Zones.antt =====
-- The handlers on zones of the simulated bunny.net (internal/testutil/mockbunny/handlers.go, server.go and
-- admin.go). `now` is the time of a request.
use Prim.Native.String
use bunny_api_proxy.Base.{
  ℕ, suc, ◌+◌, ◌-◌, ◌*◌, ℤ, pos, negsuc, leb_ℤ, String, ◌==◌, Bool, true, false, not, ◌&&◌, ◌||◌,
  Option, none, some, List, [], ◌∷◌, ◌++◌, ◌%◌, ◌^◌, take, drop, any, select, length, leb, ltb,
  if◌then◌else◌, is_not_pos,
}
use bunny_api_proxy.Base.Sort.{order_by}
use bunny_api_proxy.Go.ParseInt.{parse_int}
use bunny_api_proxy.Bunny.Retry.{has_text}
use bunny_api_proxy.MockBunny.Types.{
  Zone, State, Response, respond, new_state, api_error, zone_list, one_zone, availability, dnssec,
  certificate, statistics, server_state, no_body, panicked, zone_not_found, bad_body, has_id,
  change_zone, with_zone_id, with_zone, with_body,
}

-- The number of a query parameter, if it is one and passes the test.
abbrev pub checked : (ℤ → Bool) → (default : ℕ) → Option ℤ → ℕ
checked ok default none = default
checked ok default (some (negsuc n)) = default
checked ok default (some (pos n)) = if ok (pos n) then n else default

abbrev pub number_or : (ℤ → Bool) → (default : ℕ) → String → ℕ
number_or ok default text =
    if not (text == "") then checked ok default (parse_int text) else default

abbrev pub by_id : Zone → Zone → Bool
by_id a b = leb_ℤ a.id b.id

abbrev pub matches_search : String → Zone → Bool
matches_search search z = search == "" || has_text z.domain search

-- An `int` of 64 bits.
abbrev pub wrap64 : ℕ → ℤ
wrap64 n = let m = n % 2 ^ 64 in if ltb m (2 ^ 63) then pos m else negsuc (2 ^ 64 - 1 - m)

abbrev pub is_less : ℤ → ℕ → Bool
is_less (pos n) m = ltb n m
is_less (negsuc n) m = true

-- `zones[start:end]` with the limits that the handler sets; a negative start panics.
abbrev pub answer_page : (page per_page : ℕ) → List Zone → (start : ℤ) → Response
answer_page page per_page zones (negsuc n) = respond 0 panicked
answer_page page per_page zones (pos start) =
    let total = length zones in
    let end = start + per_page in
    if leb total start
    then respond 200 (zone_list [] page total (is_less (wrap64 end) total))
    else let end' = if ltb total end then total else end in
      respond 200 (zone_list (take (end' - start) (drop start zones)) page total (ltb end' total))

abbrev pub is_page_size : ℤ → Bool
is_page_size n = leb_ℤ (pos 5) n && leb_ℤ n (pos 1000)

unfoldable pub handle_list_zones : (page per_page search : String) → State → Response × State
handle_list_zones page_text per_page_text search s =
    let page = number_or (λ n. not (is_not_pos n)) 1 page_text in
    let per_page = number_or is_page_size 1000 per_page_text in
    let zones = order_by by_id (select (matches_search search) s.zones) in
    (answer_page page per_page zones (wrap64 ((page - 1) * per_page)), s)

unfoldable pub handle_get_zone : String → State → Response × State
handle_get_zone id_text =
    with_zone_id id_text
      λ id. with_zone id zone_not_found (λ zone s. (respond 200 (one_zone zone), s))

abbrev pub new_zone : ℤ → String → (now : ℕ) → Zone
new_zone id domain now = record {
  id = id;
  domain = domain;
  records = [];
  date_modified = now;
  date_created = now;
  nameservers_detected = true;
  custom_nameservers_enabled = false;
  nameserver1 = "kiki.bunny.net";
  nameserver2 = "coco.bunny.net";
  soa_email = "hostmaster@bunny.net";
  nameservers_next_check = now + 300;
  logging_enabled = false;
  logging_ip_anonymization = true;
  log_anonymization_type = pos 0;
  dns_sec_enabled = false;
  certificate_key_type = pos 0;
}

-- AddZone of server.go, and the end of handleCreateZone
unfoldable pub add_zone : String → (now : ℕ) → State → Zone × State
add_zone domain now s =
    let zone = new_zone (pos s.next_zone_id) domain now in
    (zone, record s { zones = s.zones ++ zone ∷ []; next_zone_id = suc s.next_zone_id })

abbrev pub has_domain : String → Zone → Bool
has_domain domain z = z.domain == domain

abbrev pub created : Zone × State → Response × State
created (zone, s) = (respond 201 (one_zone zone), s)

unfoldable pub handle_create_zone : Option String → (now : ℕ) → State → Response × State
handle_create_zone body now = with_body body bad_body λ domain s.
    if domain == ""
    then (respond 400 (api_error "validation_error" "Domain" "Domain is required"), s)
    else if any (has_domain domain) s.zones
    then (respond 409 (api_error "conflict" "" "Zone already exists"), s)
    else created (add_zone domain now s)

unfoldable pub handle_delete_zone : String → State → Response × State
handle_delete_zone id_text = with_zone_id id_text λ id.
    with_zone id zone_not_found
      λ zone s. (respond 204 no_body, record s { zones = select (λ z. not (has_id id z)) s.zones })

-- The fields of the body that are given.
pub record ZoneSettings : Type 0 where
  pub custom_nameservers_enabled : Option Bool
  pub nameserver1 : Option String
  pub nameserver2 : Option String
  pub soa_email : Option String
  pub logging_enabled : Option Bool
  pub log_anonymization_type : Option ℤ
  pub certificate_key_type : Option ℤ
  pub logging_ip_anonymization : Option Bool

abbrev pub given_or : {A : Type 0} → Option A → A → A
given_or none old = old
given_or (some new) old = new

abbrev pub apply_settings : ZoneSettings → (now : ℕ) → Zone → Zone
apply_settings req now zone = record zone {
  custom_nameservers_enabled =
      given_or req.custom_nameservers_enabled zone.custom_nameservers_enabled;
  nameserver1 = given_or req.nameserver1 zone.nameserver1;
  nameserver2 = given_or req.nameserver2 zone.nameserver2;
  soa_email = given_or req.soa_email zone.soa_email;
  logging_enabled = given_or req.logging_enabled zone.logging_enabled;
  log_anonymization_type = given_or req.log_anonymization_type zone.log_anonymization_type;
  certificate_key_type = given_or req.certificate_key_type zone.certificate_key_type;
  logging_ip_anonymization = given_or req.logging_ip_anonymization zone.logging_ip_anonymization;
  date_modified = now;
}

unfoldable pub handle_update_zone :
    String → Option ZoneSettings → (now : ℕ) → State → Response × State
handle_update_zone id_text body now = with_zone_id id_text λ id. with_body body bad_body λ req.
    with_zone id zone_not_found λ zone s. (
      respond 200 (one_zone (apply_settings req now zone)),
      record s { zones = change_zone id (apply_settings req now) s.zones },
    )

abbrev pub well_known_unavailable_domains : List String
well_known_unavailable_domains =
    "amazon.com" ∷ "google.com" ∷ "siemens.com" ∷ "shell.com" ∷ "nestle.com" ∷ "sap.com"
    ∷ "lvmh.com" ∷ "unilever.com" ∷ "microsoft.com" ∷ "apple.com" ∷ []

unfoldable pub handle_check_availability : Option String → State → Response × State
handle_check_availability body = with_body body bad_body λ name s.
    if name == ""
    then (respond 400 (api_error "validation_error" "Name" "Name is required"), s)
    else if any (λ d. d == name) well_known_unavailable_domains
    then (respond 200 (availability false), s)
    else (respond 200 (availability (not (any (has_domain name) s.zones))), s)

abbrev pub set_dnssec : Bool → Zone → Zone
set_dnssec enabled zone = record zone { dns_sec_enabled = enabled }

unfoldable pub handle_enable_dnssec : String → State → Response × State
handle_enable_dnssec id_text = with_zone_id id_text λ id. with_zone id zone_not_found λ zone s. (
  respond 200 (dnssec true (String.◌++◌ zone.domain ". 3600 IN DS 12345 13 2 AABBCCDD")),
  record s { zones = change_zone id (set_dnssec true) s.zones },
)

unfoldable pub handle_disable_dnssec : String → State → Response × State
handle_disable_dnssec id_text = with_zone_id id_text λ id. with_zone id zone_not_found λ zone s.
    (respond 200 (dnssec false ""), record s { zones = change_zone id (set_dnssec false) s.zones })

unfoldable pub handle_issue_certificate : String → Option String → State → Response × State
handle_issue_certificate id_text body = with_zone_id id_text λ id.
    with_body body bad_body
      λ domain. with_zone id zone_not_found (λ zone s. (respond 200 (certificate domain), s))

unfoldable pub handle_get_statistics : String → State → Response × State
handle_get_statistics id_text =
    with_zone_id id_text λ id. with_zone id zone_not_found (λ zone s. (respond 200 statistics, s))

-- handleAdminCreateZone of admin.go, which does not look for the domain
unfoldable pub handle_admin_create_zone : Option String → (now : ℕ) → State → Response × State
handle_admin_create_zone body now =
    with_body body (respond 400 (api_error "INVALID_JSON" "" "Invalid request body")) λ domain s.
      if domain == ""
      then (respond 400 (api_error "MISSING_DOMAIN" "domain" "Domain is required"), s)
      else created (add_zone domain now s)

unfoldable pub handle_admin_reset : State → Response × State
handle_admin_reset s = (respond 204 no_body, new_state)

unfoldable pub handle_admin_state : State → Response × State
handle_admin_state s = (respond 200 (server_state s.zones s.next_zone_id s.next_record_id), s)
