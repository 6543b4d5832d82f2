-- ===== src/Auth/Parse/Endpoint.antt =====
-- The documented endpoint of each action, as a table that `ParseRequest` is measured against.
use bunny_api_proxy.Base.{Bool, true, false, [], ◌∷◌}
use bunny_api_proxy.Go.Pattern.{lit, digits, Pattern}
use bunny_api_proxy.Auth.Types.{
  Action, list_zones, get_zone, list_records, add_record, update_record, delete_record, create_zone,
  update_zone, check_availability, import_records, export_records, enable_dnssec, disable_dnssec,
  issue_certificate, get_statistics, trigger_dns_scan, get_dns_scan_result, Method, get, post,
  delete,
}

abbrev pub method_of : Action → Method
method_of list_zones = get
method_of get_zone = get
method_of list_records = get
method_of export_records = get
method_of get_statistics = get
method_of get_dns_scan_result = get
method_of delete_record = delete
method_of disable_dnssec = delete
method_of _ = post

-- What follows `/dnszone/{id}`.
abbrev pub below_zone : Pattern → Pattern
below_zone tail = lit "/dnszone/" ∷ digits ∷ tail

abbrev pub route_of : Action → Pattern
route_of list_zones = lit "/dnszone" ∷ []
route_of create_zone = lit "/dnszone" ∷ []
route_of check_availability = lit "/dnszone/checkavailability" ∷ []
route_of trigger_dns_scan = lit "/dnszone/records/scan" ∷ []
route_of get_zone = below_zone []
route_of update_zone = below_zone []
route_of list_records = below_zone (lit "/records" ∷ [])
route_of add_record = below_zone (lit "/records" ∷ [])
route_of update_record = below_zone (lit "/records/" ∷ digits ∷ [])
route_of delete_record = below_zone (lit "/records/" ∷ digits ∷ [])
route_of import_records = below_zone (lit "/import" ∷ [])
route_of export_records = below_zone (lit "/export" ∷ [])
route_of enable_dnssec = below_zone (lit "/dnssec" ∷ [])
route_of disable_dnssec = below_zone (lit "/dnssec" ∷ [])
route_of issue_certificate = below_zone (lit "/certificate/issue" ∷ [])
route_of get_statistics = below_zone (lit "/statistics" ∷ [])
route_of get_dns_scan_result = below_zone (lit "/records/scan" ∷ [])

abbrev pub has_zone : Action → Bool
has_zone list_zones = false
has_zone create_zone = false
has_zone check_availability = false
has_zone trigger_dns_scan = false
has_zone _ = true
