-- ===== src/Auth/Parse.antt =====
-- internal/auth/actions.go: the action, the zone and the record type of an HTTP request.
pub mod Endpoint
pub mod Sound
use bunny_api_proxy.Base.{
  ℤ, pos, ◌==ℤ◌, String, Bool, true, false, not, ◌&&◌, Option, none, some, List, [], ◌∷◌,
  if◌then◌else◌,
}
use bunny_api_proxy.Go.ParseInt.{parse_int}
use bunny_api_proxy.Go.Pattern.{lit, digits, Pattern, match, matches}
use bunny_api_proxy.Auth.Types.{
  Action, list_zones, get_zone, list_records, add_record, update_record, delete_record, create_zone,
  update_zone, check_availability, import_records, export_records, enable_dnssec, disable_dnssec,
  issue_certificate, get_statistics, trigger_dns_scan, get_dns_scan_result, Request, Method, get,
  post, delete, Body, HttpRequest,
}

abbrev pub list_zones_pattern : Pattern
list_zones_pattern = lit "/dnszone" ∷ []

abbrev pub get_zone_pattern : Pattern
get_zone_pattern = lit "/dnszone/" ∷ digits ∷ []

abbrev pub update_zone_pattern : Pattern
update_zone_pattern = lit "/dnszone/" ∷ digits ∷ []

abbrev pub records_pattern : Pattern
records_pattern = lit "/dnszone/" ∷ digits ∷ lit "/records" ∷ []

abbrev pub update_record_pattern : Pattern
update_record_pattern = lit "/dnszone/" ∷ digits ∷ lit "/records/" ∷ digits ∷ []

abbrev pub delete_record_pattern : Pattern
delete_record_pattern = lit "/dnszone/" ∷ digits ∷ lit "/records/" ∷ digits ∷ []

abbrev pub check_availability_pattern : Pattern
check_availability_pattern = lit "/dnszone/checkavailability" ∷ []

abbrev pub import_records_pattern : Pattern
import_records_pattern = lit "/dnszone/" ∷ digits ∷ lit "/import" ∷ []

abbrev pub export_records_pattern : Pattern
export_records_pattern = lit "/dnszone/" ∷ digits ∷ lit "/export" ∷ []

abbrev pub dnssec_pattern : Pattern
dnssec_pattern = lit "/dnszone/" ∷ digits ∷ lit "/dnssec" ∷ []

abbrev pub issue_certificate_pattern : Pattern
issue_certificate_pattern = lit "/dnszone/" ∷ digits ∷ lit "/certificate/issue" ∷ []

abbrev pub statistics_pattern : Pattern
statistics_pattern = lit "/dnszone/" ∷ digits ∷ lit "/statistics" ∷ []

abbrev pub scan_trigger_pattern : Pattern
scan_trigger_pattern = lit "/dnszone/records/scan" ∷ []

abbrev pub scan_result_pattern : Pattern
scan_result_pattern = lit "/dnszone/" ∷ digits ∷ lit "/records/scan" ∷ []

pub data ParseError : Type 0 where
  invalid_zone_id invalid_record_id unread_body unparsed_body unrecognized_endpoint : ParseError

pub data Parsed : Type 0 where
  refused : ParseError → Parsed
  parsed : Request → Parsed

-- An unknown type is the empty text.
unfoldable pub map_record_type_to_string : ℤ → String
map_record_type_to_string t =
    if t ==ℤ pos 0
    then "A"
    else if t ==ℤ pos 1
    then "AAAA"
    else if t ==ℤ pos 2
    then "CNAME"
    else if t ==ℤ pos 3
    then "TXT"
    else if t ==ℤ pos 4
    then "MX"
    else if t ==ℤ pos 5
    then "SPF"
    else if t ==ℤ pos 6
    then "Flatten"
    else if t ==ℤ pos 7
    then "PullZone"
    else if t ==ℤ pos 8
    then "SRV"
    else if t ==ℤ pos 9
    then "CAA"
    else if t ==ℤ pos 10
    then "PTR"
    else if t ==ℤ pos 11
    then "Script"
    else if t ==ℤ pos 12
    then "NS"
    else ""

-- matches[1] and matches[2]
abbrev pub first : List String → String
first [] = ""
first (s ∷ ss) = s

abbrev pub second : List String → String
second [] = ""
second (s ∷ ss) = first ss

abbrev pub is_get : Method → Bool
is_get get = true
is_get _ = false

abbrev pub is_post : Method → Bool
is_post post = true
is_post _ = false

abbrev pub is_delete : Method → Bool
is_delete delete = true
is_delete _ = false

-- The request of a path that matched, from its zone id and then the rest of its branch.
abbrev pub with_zone : List String → (ℤ → Parsed) → Parsed
with_zone captures rest = elim (parse_int (first captures)) [
  | none ↦ refused invalid_zone_id
  | some zone_id ↦ rest zone_id
]

abbrev pub with_record : List String → Parsed → Parsed
with_record captures rest = elim (parse_int (second captures)) [
  | none ↦ refused invalid_record_id
  | some record_id ↦ rest
]

abbrev pub simple : Action → ℤ → Parsed
simple action zone_id = parsed (record { action = action; zone_id = zone_id; record_type = "" })

-- The body is read, and its field `Type` is mapped to the name of the type.
abbrev pub typed : Action → Body → ℤ → Parsed
typed action body zone_id =
    if not body.is_readable then refused unread_body else elim body.type_field [
      | none ↦ refused unparsed_body
      | some t ↦
          parsed (record {
            action = action;
            zone_id = zone_id;
            record_type = map_record_type_to_string t;
          })
    ]

-- One `if` of `ParseRequest`: where its method and its pattern apply, it returns.
abbrev pub branch : Bool → Pattern → String → (List String → Parsed) → Parsed → Parsed
branch applies pattern path found rest =
    if applies
    then elim (match pattern path) [ none ↦ rest | some captures ↦ found captures ]
    else rest

abbrev pub zone_branch : Bool → Pattern → String → Action → Parsed → Parsed
zone_branch applies pattern path action rest =
    branch applies pattern path (λ captures. with_zone captures (simple action)) rest

-- The branches from `POST /dnszone/{id}/records` on.
unfoldable pub parse_records : HttpRequest → Parsed
parse_records r =
    branch (is_post r.method) records_pattern r.path
      (λ captures. with_zone captures (typed add_record r.body))
      (branch (is_post r.method) update_record_pattern r.path
        (λ captures.
          with_zone captures (λ zone_id. with_record captures (typed update_record r.body zone_id)))
        (branch (is_delete r.method) delete_record_pattern r.path
          (λ captures.
            with_zone captures (λ zone_id. with_record captures (simple delete_record zone_id)))
          (refused unrecognized_endpoint)))

-- The branches from `POST /dnszone/{id}/dnssec` to `GET /dnszone/{id}/statistics`.
unfoldable pub parse_settings : HttpRequest → Parsed
unfolding parse_records
parse_settings r = zone_branch (is_post r.method) dnssec_pattern r.path enable_dnssec (
    zone_branch (is_delete r.method) dnssec_pattern r.path disable_dnssec (
      zone_branch (is_post r.method) issue_certificate_pattern r.path issue_certificate (
        zone_branch (is_post r.method && not (matches records_pattern r.path)) update_zone_pattern
          r.path update_zone
          (zone_branch (is_get r.method) export_records_pattern r.path export_records (
            zone_branch (is_get r.method) statistics_pattern r.path get_statistics
              (parse_records r))))))

unfoldable pub parse_request : HttpRequest → Parsed
unfolding parse_settings
parse_request r =
    branch (is_get r.method) list_zones_pattern r.path (λ _. simple list_zones (pos 0))
      (zone_branch (is_get r.method) get_zone_pattern r.path get_zone (
        zone_branch (is_get r.method) scan_result_pattern r.path get_dns_scan_result (
          zone_branch (is_get r.method) records_pattern r.path list_records (
            zone_branch (is_post r.method) import_records_pattern r.path import_records (
              branch (is_post r.method) check_availability_pattern r.path
                (λ _. simple check_availability (pos 0))
                (branch (is_post r.method) scan_trigger_pattern r.path
                  (λ _. simple trigger_dns_scan (pos 0))
                  (branch (is_post r.method) list_zones_pattern r.path
                    (λ _. simple create_zone (pos 0)) (parse_settings r))))))))
