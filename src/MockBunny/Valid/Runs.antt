-- ===== src/MockBunny/Valid/Runs.antt =====
-- Runs of the simulated bunny.net (internal/testutil/mockbunny) and its invariant.
use text.Mathlib.Text.{starts_with}
use bunny_api_proxy.Base.{ℕ, String, ◌==◌, not, Option, none, some, List, [], ◌∷◌, if-elim}
use bunny_api_proxy.MockBunny.Types.{State, FailureInjection, Response}
use bunny_api_proxy.MockBunny.Injection.{
  failure_injection_middleware, inject, after_latency, answer_or, with_injection,
}
use bunny_api_proxy.MockBunny.Zones.{handle_admin_reset, handle_admin_state}
use bunny_api_proxy.MockBunny.Server.{
  ApiCall, AdminCall, Call, Request, list_zones, create_zone, check_availability, get_zone,
  delete_zone, import_records, export_records, enable_dnssec, disable_dnssec, issue_certificate,
  get_statistics, trigger_scan, get_scan_result, update_zone, add_record, update_record,
  delete_record, admin_create_zone, admin_create_record, admin_reset, admin_state, to_api, to_admin,
  auth_middleware, serve_api, serve_admin, serve, run,
}
use bunny_api_proxy.MockBunny.Valid.{IsSound, new_state-IsSound}
use bunny_api_proxy.MockBunny.Valid.Records.{
  handle_add_record-Keeps, handle_update_record-Keeps, handle_delete_record-Keeps,
  handle_admin_create_record-Keeps,
}
use bunny_api_proxy.MockBunny.Valid.Keeps.{
  Step, Keeps, handle_list_zones-Keeps, handle_create_zone-Keeps, handle_delete_zone-Keeps,
  handle_import_records-Keeps, handle_update_zone-Keeps, handle_dnssec-Keeps,
  handle_trigger_scan-Keeps, handle_get_scan_result-Keeps, handle_admin_create_zone-Keeps,
  check_availability-Keeps, look-Keeps,
}

serve_api-Keeps :
    (to_upper : String → String) (now : ℕ) (call : ApiCall) → Keeps (serve_api to_upper now call)
unfolding serve_api
serve_api-Keeps to_upper now (list_zones page per_page search) =
    handle_list_zones-Keeps page per_page search
serve_api-Keeps to_upper now (create_zone body) = handle_create_zone-Keeps body now
serve_api-Keeps to_upper now (check_availability body) = check_availability-Keeps body
serve_api-Keeps to_upper now (get_zone id) = (look-Keeps id none).0
serve_api-Keeps to_upper now (delete_zone id) = handle_delete_zone-Keeps id
serve_api-Keeps to_upper now (import_records id body) =
    handle_import_records-Keeps to_upper id body now
serve_api-Keeps to_upper now (export_records id) = (look-Keeps id none).1
serve_api-Keeps to_upper now (enable_dnssec id) = (handle_dnssec-Keeps id).0
serve_api-Keeps to_upper now (disable_dnssec id) = (handle_dnssec-Keeps id).1
serve_api-Keeps to_upper now (issue_certificate id body) = (look-Keeps id body).3
serve_api-Keeps to_upper now (get_statistics id) = (look-Keeps id none).2
serve_api-Keeps to_upper now (trigger_scan body) = handle_trigger_scan-Keeps body
serve_api-Keeps to_upper now (get_scan_result id) = handle_get_scan_result-Keeps id
serve_api-Keeps to_upper now (update_zone id body) = handle_update_zone-Keeps id body now
serve_api-Keeps to_upper now (add_record zone_id body) = handle_add_record-Keeps zone_id body now
serve_api-Keeps to_upper now (update_record zone_id id body) =
    handle_update_record-Keeps zone_id id body now
serve_api-Keeps to_upper now (delete_record zone_id id) = handle_delete_record-Keeps zone_id id now

serve_admin-Keeps :
    (to_upper : String → String) (now : ℕ) (call : AdminCall)
    → Keeps (serve_admin to_upper now call)
unfolding serve_admin handle_admin_reset handle_admin_state
serve_admin-Keeps to_upper now (admin_create_zone body) = handle_admin_create_zone-Keeps body now
serve_admin-Keeps to_upper now (admin_create_record zone_id body) =
    handle_admin_create_record-Keeps zone_id body
serve_admin-Keeps to_upper now admin_reset = λ s v. new_state-IsSound
serve_admin-Keeps to_upper now admin_state = λ s v. v

with_injection-IsSound :
    (fi : FailureInjection) (s : State) → IsSound s → IsSound (with_injection s fi)
with_injection-IsSound fi s v = record { ids = v.ids; issued = v.issued; records = v.records }

failure_injection_middleware-Keeps :
    (path : String) (next : Step) → Keeps next → Keeps (failure_injection_middleware path next)
unfolding failure_injection_middleware
failure_injection_middleware-Keeps path next h s v =
    if-elim (λ (r : Response × State). IsSound r.1) (starts_with path "/admin") (next s) _
      (λ e. h s v)
      (λ e.
        answered (inject (after_latency s.failure_injection)).0 _ (with_injection-IsSound _ s v))
  where
    answered :
        (answer : Option Response) (s : State) → IsSound s → IsSound (answer_or answer next s).1
    answered none s v = h s v
    answered (some r) s v = v

auth_middleware-Keeps :
    (api_key access_key : String) (next : Step)
    → Keeps next
    → Keeps (auth_middleware api_key access_key next)
auth_middleware-Keeps api_key access_key next h s v =
    if-elim (λ (r : Response × State). IsSound r.1) (access_key == "") _ _ (λ e. v)
      λ e.
        if-elim (λ (r : Response × State). IsSound r.1) (not (access_key == api_key)) _ (next s)
          (λ e. v) (λ e. h s v)

serve-Keeps :
    (to_upper : String → String) (now : ℕ) (api_key path : String) (call : Call)
    → Keeps (serve to_upper now api_key path call)
unfolding serve
serve-Keeps to_upper now api_key path (to_admin call) =
    failure_injection_middleware-Keeps path _ (serve_admin-Keeps to_upper now call)
serve-Keeps to_upper now api_key path (to_api access_key call) =
    failure_injection_middleware-Keeps path _ (
      if-elim Keeps (not (api_key == "")) _ _
        (λ e. auth_middleware-Keeps api_key access_key _ (serve_api-Keeps to_upper now call))
        (λ e. serve_api-Keeps to_upper now call))

-- Whatever requests the simulated bunny.net serves one after the other, its state stays well-formed: the
-- ids of zones are unique, those of the records of a zone are too, and all of them have been issued by
-- their counters.
pub run-IsSound :
    (to_upper : String → String) (api_key : String) (requests : List Request) (s : State)
    → IsSound s
    → IsSound (run to_upper api_key requests s)
unfolding run
run-IsSound to_upper api_key [] s v = v
run-IsSound to_upper api_key (r ∷ requests) s v =
    run-IsSound to_upper api_key requests _ (serve-Keeps to_upper r.now api_key r.path r.call s v)
