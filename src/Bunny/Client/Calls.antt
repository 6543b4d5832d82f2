-- ===== src/Bunny/Client/Calls.antt =====
-- The calls of the client of internal/bunny/client.go as one type.
use Prim.Native.String.{◌++◌}
use bunny_api_proxy.Go.FormatInt.{format_int}
use bunny_api_proxy.Base.{ℤ, String, Option, none, some}
use bunny_api_proxy.Proxy.Types.{ListZonesOptions, Document, ClientError, Answer, ok, err, Upstream}
use bunny_api_proxy.Bunny.Client.{Library, Client}
use bunny_api_proxy.Bunny.Client.Operations.{
  list_zones, create_zone, get_zone, delete_zone, update_zone, check_zone_availability,
  import_records, export_records, enable_dnssec, disable_dnssec, issue_certificate,
  get_zone_statistics, trigger_dns_scan, get_dns_scan_result, add_record, update_record,
  delete_record,
}

pub data Call : Type 0 where
  to_list_zones : (opts : ListZonesOptions) → Call
  to_create_zone : (domain : String) → Call
  to_get_zone : (id : ℤ) → Call
  to_delete_zone : (id : ℤ) → Call
  to_update_zone : (id : ℤ) → (req : Document) → Call
  to_check_zone_availability : (name : String) → Call
  to_import_records : (id : ℤ) → (body content_type : String) → Call
  to_export_records : (id : ℤ) → Call
  to_enable_dnssec : (id : ℤ) → Call
  to_disable_dnssec : (id : ℤ) → Call
  to_issue_certificate : (id : ℤ) → (domain : String) → Call
  to_get_zone_statistics : (id : ℤ) → (date_from date_to : String) → Call
  to_trigger_dns_scan : (domain : String) → Call
  to_get_dns_scan_result : (id : ℤ) → Call
  to_add_record : (id : ℤ) → (req : Document) → Call
  to_update_record : (id record_id : ℤ) → (req : Document) → Call
  to_delete_record : (id record_id : ℤ) → Call

abbrev pub error_of : {A : Type 0} → Answer A → Option ClientError
error_of (ok a) = none
error_of (err e) = some e

-- An operation with its error only.
abbrev pub erring : {A W : Type 0} → Upstream W A → W → Option ClientError × W
erring op w = let (r, w') = op w in (error_of r, w')

unfoldable pub perform : {W : Type 0} → Library W → Client → Call → W → Option ClientError × W
perform lib c (to_list_zones opts) = erring (list_zones lib c opts)
perform lib c (to_create_zone domain) = erring (create_zone lib c domain)
perform lib c (to_get_zone id) = erring (get_zone lib c id)
perform lib c (to_delete_zone id) = erring (delete_zone lib c id)
perform lib c (to_update_zone id req) = erring (update_zone lib c id req)
perform lib c (to_check_zone_availability name) = erring (check_zone_availability lib c name)
perform lib c (to_import_records id body content_type) =
    erring (import_records lib c id body content_type)
perform lib c (to_export_records id) = erring (export_records lib c id)
perform lib c (to_enable_dnssec id) = erring (enable_dnssec lib c id)
perform lib c (to_disable_dnssec id) = erring (disable_dnssec lib c id)
perform lib c (to_issue_certificate id domain) = erring (issue_certificate lib c id domain)
perform lib c (to_get_zone_statistics id date_from date_to) =
    erring (get_zone_statistics lib c id date_from date_to)
perform lib c (to_trigger_dns_scan domain) = erring (trigger_dns_scan lib c domain)
perform lib c (to_get_dns_scan_result id) = erring (get_dns_scan_result lib c id)
perform lib c (to_add_record id req) = erring (add_record lib c id req)
perform lib c (to_update_record id record_id req) = erring (update_record lib c id record_id req)
perform lib c (to_delete_record id record_id) = erring (delete_record lib c id record_id)

-- The zone that a call is about; `none` is a call for no zone that exists.
abbrev pub zone_of : Call → Option ℤ
zone_of (to_list_zones opts) = none
zone_of (to_create_zone domain) = none
zone_of (to_check_zone_availability name) = none
zone_of (to_trigger_dns_scan domain) = none
zone_of (to_get_zone id) = some id
zone_of (to_delete_zone id) = some id
zone_of (to_update_zone id req) = some id
zone_of (to_import_records id body content_type) = some id
zone_of (to_export_records id) = some id
zone_of (to_enable_dnssec id) = some id
zone_of (to_disable_dnssec id) = some id
zone_of (to_issue_certificate id domain) = some id
zone_of (to_get_zone_statistics id date_from date_to) = some id
zone_of (to_get_dns_scan_result id) = some id
zone_of (to_add_record id req) = some id
zone_of (to_update_record id record_id req) = some id
zone_of (to_delete_record id record_id) = some id

-- The method and the path that the API of bunny.net has for a call.
abbrev pub method_of : Call → String
method_of (to_list_zones opts) = "GET"
method_of (to_create_zone domain) = "POST"
method_of (to_check_zone_availability name) = "POST"
method_of (to_trigger_dns_scan domain) = "POST"
method_of (to_get_zone id) = "GET"
method_of (to_delete_zone id) = "DELETE"
method_of (to_update_zone id req) = "POST"
method_of (to_import_records id body content_type) = "POST"
method_of (to_export_records id) = "GET"
method_of (to_enable_dnssec id) = "POST"
method_of (to_disable_dnssec id) = "DELETE"
method_of (to_issue_certificate id domain) = "POST"
method_of (to_get_zone_statistics id date_from date_to) = "GET"
method_of (to_get_dns_scan_result id) = "GET"
method_of (to_add_record id req) = "PUT"
method_of (to_update_record id record_id req) = "POST"
method_of (to_delete_record id record_id) = "DELETE"

abbrev pub path_of : Call → String
path_of (to_list_zones opts) = "/dnszone"
path_of (to_create_zone domain) = "/dnszone"
path_of (to_check_zone_availability name) = "/dnszone/checkavailability"
path_of (to_trigger_dns_scan domain) = "/dnszone/records/scan"
path_of (to_get_zone id) = "/dnszone/" ++ format_int id
path_of (to_delete_zone id) = "/dnszone/" ++ format_int id
path_of (to_update_zone id req) = "/dnszone/" ++ format_int id
path_of (to_import_records id body content_type) = "/dnszone/" ++ format_int id ++ "/import"
path_of (to_export_records id) = "/dnszone/" ++ format_int id ++ "/export"
path_of (to_enable_dnssec id) = "/dnszone/" ++ format_int id ++ "/dnssec"
path_of (to_disable_dnssec id) = "/dnszone/" ++ format_int id ++ "/dnssec"
path_of (to_issue_certificate id domain) = "/dnszone/" ++ format_int id ++ "/certificate/issue"
path_of (to_get_zone_statistics id date_from date_to) =
    "/dnszone/" ++ format_int id ++ "/statistics"
path_of (to_get_dns_scan_result id) = "/dnszone/" ++ format_int id ++ "/records/scan"
path_of (to_add_record id req) = "/dnszone/" ++ format_int id ++ "/records"
path_of (to_update_record id record_id req) =
    "/dnszone/" ++ format_int id ++ "/records/" ++ format_int record_id
path_of (to_delete_record id record_id) =
    "/dnszone/" ++ format_int id ++ "/records/" ++ format_int record_id
