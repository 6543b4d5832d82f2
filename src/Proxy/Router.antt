-- ===== src/Proxy/Router.antt =====
-- internal/proxy/router.go, behind the authentication of cmd/bunny-api-proxy/main.go. chi is a
-- parameter: from a method and a path it finds a route and the URL parameters, or answers itself.
pub mod Calls
pub mod Paths
pub mod Agrees
pub mod Authorized
use Prim.Native.String.{◌++◌}
use bunny_api_proxy.Base.{ℕ, String, Bool, true, false, Option, List, [], ◌∷◌, if◌then◌else◌}
use bunny_api_proxy.Storage.Db.{Db}
use bunny_api_proxy.Auth.Types.{Method, get, post, delete, HttpRequest}
use bunny_api_proxy.Auth.Context.{Context, background}
use bunny_api_proxy.Auth.Bootstrap.{BootstrapService}
use bunny_api_proxy.Auth.Middleware.{Denial, Step, deny, next, proxy_auth_chain}
use bunny_api_proxy.Proxy.Types.{Document, BunnyClient, Response}
use bunny_api_proxy.Proxy.Handlers.{
  handle_list_zones, handle_create_zone, handle_get_zone, handle_delete_zone, handle_update_zone,
  handle_check_availability, handle_import_records, handle_export_records, handle_enable_dnssec,
  handle_disable_dnssec, handle_issue_certificate, handle_get_statistics, handle_trigger_scan,
  handle_get_scan_result, handle_list_records, handle_add_record, handle_update_record,
  handle_delete_record, require_admin,
}

-- The handler that a route is wired to.
pub data Endpoint : Type 0 where
  list_zones create_zone check_availability import_records export_records enable_dnssec : Endpoint
  disable_dnssec issue_certificate get_statistics trigger_scan update_zone get_zone : Endpoint
  delete_zone get_scan_result list_records add_record update_record delete_record : Endpoint

pub data Segment : Type 0 where
  literal : String → Segment
  -- `{zoneID}` and `{recordID}`
  zone_param record_param : Segment

pub record Route : Type 0 where
  pub method : Method
  pub pattern : List Segment
  -- `r.With(requireAdmin)`
  pub is_admin : Bool

abbrev pub route : Method → List Segment → Bool → Route
route method pattern is_admin = record { method = method; pattern = pattern; is_admin = is_admin }

abbrev pub zone_path : List Segment → List Segment
zone_path tail = literal "/dnszone/" ∷ zone_param ∷ tail

abbrev pub record_path : List Segment
record_path = zone_path (literal "/records/" ∷ record_param ∷ [])

-- NewRouter
abbrev pub route_for : Endpoint → Route
route_for list_zones = route get (literal "/dnszone" ∷ []) false
route_for create_zone = route post (literal "/dnszone" ∷ []) false
route_for check_availability = route post (literal "/dnszone/checkavailability" ∷ []) true
route_for import_records = route post (zone_path (literal "/import" ∷ [])) true
route_for export_records = route get (zone_path (literal "/export" ∷ [])) true
route_for enable_dnssec = route post (zone_path (literal "/dnssec" ∷ [])) true
route_for disable_dnssec = route delete (zone_path (literal "/dnssec" ∷ [])) true
route_for issue_certificate = route post (zone_path (literal "/certificate/issue" ∷ [])) true
route_for get_statistics = route get (zone_path (literal "/statistics" ∷ [])) true
route_for trigger_scan = route post (literal "/dnszone/records/scan" ∷ []) true
route_for update_zone = route post (zone_path []) true
route_for get_zone = route get (zone_path []) false
route_for delete_zone = route delete (zone_path []) false
route_for get_scan_result = route get (zone_path (literal "/records/scan" ∷ [])) true
route_for list_records = route get (zone_path (literal "/records" ∷ [])) false
route_for add_record = route post (zone_path (literal "/records" ∷ [])) false
route_for update_record = route post record_path false
route_for delete_record = route delete record_path false

-- `chi.URLParam` of the two names; empty where the route has none.
pub record Params : Type 0 where
  pub zone_id : String
  pub record_id : String

-- The path that a route's pattern stands for.
abbrev pub fill : List Segment → Params → String
fill [] p = ""
fill (literal t ∷ ss) p = t ++ fill ss p
fill (zone_param ∷ ss) p = p.zone_id ++ fill ss p
fill (record_param ∷ ss) p = p.record_id ++ fill ss p

pub data Routed : Type 0 where
  found : Endpoint → Params → Routed
  -- chi's own answer, to a path or a method without a route
  unrouted : Response → Routed

-- What the handlers read of the query, the headers and the body; `none` is a body that does not
-- decode.
pub record Input : Type 0 where
  pub page : String
  pub per_page : String
  pub search : String
  pub date_from : String
  pub date_to : String
  pub body_domain : Option String
  pub body_name : Option String
  pub body_document : Option Document
  pub body_text : String
  pub content_type : String

module _ {W : Type 0} (client : BunnyClient W) (ctx : Context) (i : Input) (p : Params) where
  unfoldable pub handle : Endpoint → W → Response × W
  handle list_zones = handle_list_zones client ctx i.page i.per_page i.search
  handle create_zone = handle_create_zone client ctx i.body_domain
  handle check_availability = handle_check_availability client ctx i.body_name
  handle import_records = handle_import_records client ctx p.zone_id i.body_text i.content_type
  handle export_records = handle_export_records client ctx p.zone_id
  handle enable_dnssec = handle_enable_dnssec client ctx p.zone_id
  handle disable_dnssec = handle_disable_dnssec client ctx p.zone_id
  handle issue_certificate = handle_issue_certificate client ctx p.zone_id i.body_domain
  handle get_statistics = handle_get_statistics client ctx p.zone_id i.date_from i.date_to
  handle trigger_scan = handle_trigger_scan client ctx i.body_domain
  handle update_zone = handle_update_zone client ctx p.zone_id i.body_document
  handle get_zone = handle_get_zone client ctx p.zone_id
  handle delete_zone = handle_delete_zone client ctx p.zone_id
  handle get_scan_result = handle_get_scan_result client ctx p.zone_id
  handle list_records = handle_list_records client ctx p.zone_id
  handle add_record = handle_add_record client ctx p.zone_id i.body_document
  handle update_record = handle_update_record client ctx p.zone_id p.record_id i.body_document
  handle delete_record = handle_delete_record client ctx p.zone_id p.record_id

  unfoldable pub serve_route : Endpoint → W → Response × W
  unfolding handle
  serve_route e w = if (route_for e).is_admin then require_admin ctx (handle e) w else handle e w

-- The answer to a request: an error of the middlewares, or a response.
pub data Served : Type 0 where
  denied : (status : ℕ) → Denial → Served
  answered : Response → Served

module _ {W : Type 0} (client : BunnyClient W) (dispatch : Method → String → Routed) where
  abbrev pub dispatched : Context → Input → Routed → W → Served × W
  dispatched ctx i (found e p) w =
      let (response, w') = serve_route client ctx i p e w in (answered response, w')
  dispatched ctx i (unrouted response) w = (answered response, w)

  abbrev pub after_auth : HttpRequest → (route_path : String) → Input → Step → W → Served × W
  after_auth r route_path i (deny status body) w = (denied status body, w)
  after_auth r route_path i (next ctx) w = dispatched ctx i (dispatch r.method route_path) w

  -- chi runs the middlewares of a router before it looks for the route.
  unfoldable pub serve :
      (String → String)
      → BootstrapService
      → HttpRequest
      → (route_path : String) → Input
      → Db
      → W
      → Served × Db × W
  serve hash b r route_path i db w =
      let (step, db') = proxy_auth_chain hash b r background db in
      let (served, w') = after_auth r route_path i step w in (served, db', w')
