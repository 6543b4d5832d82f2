-- ===== src/MockBunny/Server.antt =====
-- The routes of the simulated bunny.net with their middlewares (internal/testutil/mockbunny/server.go), as
-- a step on its state. The dispatch on the path is chi's.
use bunny_api_proxy.Base.{ℕ, String, ◌==◌, not, Option, List, [], ◌∷◌, if◌then◌else◌}
use bunny_api_proxy.MockBunny.Types.{State, Response, respond, injected}
use bunny_api_proxy.MockBunny.Zones.{
  ZoneSettings, handle_list_zones, handle_create_zone, handle_check_availability, handle_get_zone,
  handle_delete_zone, handle_enable_dnssec, handle_disable_dnssec, handle_issue_certificate,
  handle_get_statistics, handle_update_zone, handle_admin_create_zone, handle_admin_reset,
  handle_admin_state,
}
use bunny_api_proxy.MockBunny.Records.{
  RecordInput, handle_add_record, handle_update_record, handle_delete_record,
  handle_admin_create_record,
}
use bunny_api_proxy.MockBunny.Import.{handle_import_records, handle_export_records}
use bunny_api_proxy.MockBunny.Scan.{handle_trigger_scan, handle_get_scan_result}
use bunny_api_proxy.MockBunny.Injection.{failure_injection_middleware}

-- The routes of the DNS API, with what the handlers read of the request.
pub data ApiCall : Type 0 where
  list_zones : (page per_page search : String) → ApiCall
  create_zone : Option String → ApiCall
  check_availability : Option String → ApiCall
  get_zone delete_zone : (id : String) → ApiCall
  import_records : (id : String) → (body : Option String) → ApiCall
  export_records enable_dnssec disable_dnssec : (id : String) → ApiCall
  issue_certificate : (id : String) → Option String → ApiCall
  get_statistics : (id : String) → ApiCall
  trigger_scan : Option String → ApiCall
  get_scan_result : (id : String) → ApiCall
  update_zone : (id : String) → Option ZoneSettings → ApiCall
  add_record : (zone_id : String) → Option RecordInput → ApiCall
  update_record : (zone_id id : String) → Option RecordInput → ApiCall
  delete_record : (zone_id id : String) → ApiCall

pub data AdminCall : Type 0 where
  admin_create_zone : Option String → AdminCall
  admin_create_record : (zone_id : String) → Option RecordInput → AdminCall
  admin_reset admin_state : AdminCall

pub data Call : Type 0 where
  to_api : (access_key : String) → ApiCall → Call
  to_admin : AdminCall → Call

abbrev pub unauthorized : Response
unauthorized = respond 401 (
    injected
      "{\"ErrorKey\":\"unauthorized\",\"Message\":\"The request authorization header is not valid.\\r\"}")

abbrev pub auth_middleware :
    (api_key access_key : String) → (State → Response × State) → State → Response × State
auth_middleware api_key access_key next s =
    if access_key == ""
    then (unauthorized, s)
    else if not (access_key == api_key)
    then (unauthorized, s)
    else next s

module _ (to_upper : String → String) (now : ℕ) where
  unfoldable pub serve_api : ApiCall → State → Response × State
  serve_api (list_zones page per_page search) = handle_list_zones page per_page search
  serve_api (create_zone body) = handle_create_zone body now
  serve_api (check_availability body) = handle_check_availability body
  serve_api (get_zone id) = handle_get_zone id
  serve_api (delete_zone id) = handle_delete_zone id
  serve_api (import_records id body) = handle_import_records to_upper id body now
  serve_api (export_records id) = handle_export_records id
  serve_api (enable_dnssec id) = handle_enable_dnssec id
  serve_api (disable_dnssec id) = handle_disable_dnssec id
  serve_api (issue_certificate id body) = handle_issue_certificate id body
  serve_api (get_statistics id) = handle_get_statistics id
  serve_api (trigger_scan body) = handle_trigger_scan body
  serve_api (get_scan_result id) = handle_get_scan_result id
  serve_api (update_zone id body) = handle_update_zone id body now
  serve_api (add_record zone_id body) = handle_add_record zone_id body now
  serve_api (update_record zone_id id body) = handle_update_record zone_id id body now
  serve_api (delete_record zone_id id) = handle_delete_record zone_id id now

  unfoldable pub serve_admin : AdminCall → State → Response × State
  serve_admin (admin_create_zone body) = handle_admin_create_zone body now
  serve_admin (admin_create_record zone_id body) = handle_admin_create_record zone_id body
  serve_admin admin_reset = handle_admin_reset
  serve_admin admin_state = handle_admin_state

  -- An empty `api_key` is none.
  unfoldable pub serve : (api_key path : String) → Call → State → Response × State
  serve api_key path (to_admin call) = failure_injection_middleware path (serve_admin call)
  serve api_key path (to_api access_key call) = failure_injection_middleware path (
      if not (api_key == "")
      then auth_middleware api_key access_key (serve_api call)
      else serve_api call)

-- A request with its time and its path.
pub record Request : Type 0 where
  pub now : ℕ
  pub path : String
  pub call : Call

-- The state after some requests, served one after the other.
unfoldable pub run :
    (to_upper : String → String) → (api_key : String) → List Request → State → State
run to_upper api_key [] s = s
run to_upper api_key (r ∷ requests) s =
    run to_upper api_key requests (serve to_upper r.now api_key r.path r.call s).1
