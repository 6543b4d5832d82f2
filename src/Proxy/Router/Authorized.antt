-- ===== src/Proxy/Router/Authorized.antt =====
-- The whole way of a request through the proxy: cmd/bunny-api-proxy/main.go's chain of middlewares,
-- the router and the handlers of internal/proxy, and the client of internal/bunny.
use bunny_api_proxy.Base.{
  String, ◌≡◌, ◌≢◌, refl, ap, ◌∙◌, true, false, Option, some, List, [], ◌∷◌, inl, inr, ◌⊎◌, arith,
  Bool-cases, Member,
}
use bunny_api_proxy.Storage.Types.{Token}
use bunny_api_proxy.Storage.Db.{Db}
use bunny_api_proxy.Auth.Types.{Action, is_list_zones, is_admin_only, Method, HttpRequest, Request}
use bunny_api_proxy.Auth.Check.Laws.{Permitted}
use bunny_api_proxy.Auth.Parse.{first, parse_request, parsed}
use bunny_api_proxy.Auth.Parse.Endpoint.{has_zone}
use bunny_api_proxy.Auth.Parse.Sound.{ZoneIs, parse_request_sound}
use bunny_api_proxy.Auth.Context.{Context, background, is_admin_from_context}
use bunny_api_proxy.Auth.Bootstrap.{BootstrapService}
use bunny_api_proxy.Auth.Middleware.{Step, deny, next, extract_access_key, proxy_auth_chain}
use bunny_api_proxy.Auth.Middleware.Laws.{stored_permissions, Admitted, authenticate_sound}
use bunny_api_proxy.Auth.Middleware.Chain.{
  IsAuthorized, HasRow, Permitted-HasRow, chain-next, proxy_auth_chain-IsAuthorized,
}
use bunny_api_proxy.Bunny.Http
use bunny_api_proxy.Bunny.Client.{Library, Client}
use bunny_api_proxy.Bunny.Client.Operations.{new_client}
use bunny_api_proxy.Bunny.Client.Calls.{Call, perform, zone_of}
use bunny_api_proxy.Bunny.Client.Requests.{recorded, IsSentFor, SendsOnce, perform-SendsOnce}
use bunny_api_proxy.Bunny.Client.ReadBack.{NamesZone, perform-NamesZone}
use bunny_api_proxy.Proxy.Router.{
  Endpoint, Params, Routed, found, unrouted, Input, route_for, fill, dispatched, after_auth,
  serve_route, serve,
}
use bunny_api_proxy.Proxy.Router.Calls.{IsRead, ReadsRecord, serves, serve_route-CallsFor}
use bunny_api_proxy.Proxy.Router.Paths.{KeepsPlain, IsRoutePath}
use bunny_api_proxy.Proxy.Router.Agrees.{granted_action, route_for-agrees}

-- chi finds a route that is registered for the method, and whose pattern is the path once the
-- parameters are put in.
abbrev pub FindsRoutes : (Method → String → Routed) → Type 0
FindsRoutes dispatch =
    (m : Method) (path : String) (e : Endpoint) (p : Params)
    → dispatch m path ≡ found e p
    → (m ≡ (route_for e).method) × (path ≡ fill (route_for e).pattern p)

-- The request's key is that of a stored token without admin rights, and what the path and the body
-- ask for is permitted to it.
pub record IsScoped (hash : String → String) (db : Db) (r : HttpRequest) : Type 0 where
  pub token : Token
  pub request : Request
  pub stored : Member token db.tokens
  pub key : token.key_hash ≡ hash (extract_access_key r)
  pub scoped : token.is_admin ≡ false
  pub parse : parse_request r ≡ parsed request
  pub permitted : Permitted (stored_permissions token db) request

-- Why requests are sent upstream: none is; or one at most, by the method and to the path of the route
-- of the request, and the key is the master key or that of an admin token; or one at most, which lists
-- the zones, and this is what the scoped token asks for; or the one request is for the route of the
-- action that the token is permitted, by its method and to its path below the zone that a row of the
-- table of permissions grants to the token.
pub data IsJustified (hash : String → String) (b : BootstrapService) (db : Db) (r : HttpRequest)
    (route_path : String) (c : Client) (sent : List Http.Request) : Type 0 where
  nothing : sent ≡ [] → IsJustified hash b db r route_path c sent
  as_admin :
      (ctx : Context)
      → Admitted hash b (extract_access_key r) db ctx
      → is_admin_from_context ctx ≡ true
      → (e : Endpoint) (p : Params) (call : Call) → r.method ≡ (route_for e).method
      → route_path ≡ fill (route_for e).pattern p
      → IsRead (route_for e).pattern p (zone_of call)
      → ReadsRecord call p
      → serves call e ≡ true
      → SendsOnce c call sent
      → IsJustified hash b db r route_path c sent
  as_listing :
      (s : IsScoped hash db r) (call : Call)
      → s.request.action ≡ Action.list_zones
      → serves call Endpoint.list_zones ≡ true
      → SendsOnce c call sent
      → IsJustified hash b db r route_path c sent
  as_granted :
      (s : IsScoped hash db r) (e : Endpoint) (p : Params) (call : Call) (one : Http.Request)
      → HasRow db s.token s.request
      → granted_action e ≡ some s.request.action
      → route_path ≡ fill (route_for e).pattern p
      → ReadsRecord call p
      → serves call e ≡ true
      → sent ≡ one ∷ []
      → IsSentFor c call one
      → NamesZone c.base_url s.request.zone_id one.url
      → IsJustified hash b db r route_path c sent

-- Beside the listing, an action that is not reserved for admins has a zone.
has_zone_scoped :
    (a : Action) → is_admin_only a ≡ false → is_list_zones a ≡ false → has_zone a ≡ true
has_zone_scoped Action.list_zones h k = ground arith
has_zone_scoped Action.get_zone h k = refl
has_zone_scoped Action.list_records h k = refl
has_zone_scoped Action.add_record h k = refl
has_zone_scoped Action.update_record h k = refl
has_zone_scoped Action.delete_record h k = refl
has_zone_scoped Action.create_zone h k = ground arith
has_zone_scoped Action.update_zone h k = ground arith
has_zone_scoped Action.check_availability h k = ground arith
has_zone_scoped Action.import_records h k = ground arith
has_zone_scoped Action.export_records h k = ground arith
has_zone_scoped Action.enable_dnssec h k = ground arith
has_zone_scoped Action.disable_dnssec h k = ground arith
has_zone_scoped Action.issue_certificate h k = ground arith
has_zone_scoped Action.get_statistics h k = ground arith
has_zone_scoped Action.trigger_dns_scan h k = ground arith
has_zone_scoped Action.get_dns_scan_result h k = ground arith

is_list_zones-ne : (a : Action) → is_list_zones a ≡ false → a ≢ Action.list_zones
is_list_zones-ne a h e = ground (arith, rw e at h)

is_list_zones-eq : (a : Action) → is_list_zones a ≡ true → a ≡ Action.list_zones
is_list_zones-eq Action.list_zones h = refl
is_list_zones-eq Action.get_zone h = ground arith
is_list_zones-eq Action.list_records h = ground arith
is_list_zones-eq Action.add_record h = ground arith
is_list_zones-eq Action.update_record h = ground arith
is_list_zones-eq Action.delete_record h = ground arith
is_list_zones-eq Action.create_zone h = ground arith
is_list_zones-eq Action.update_zone h = ground arith
is_list_zones-eq Action.check_availability h = ground arith
is_list_zones-eq Action.import_records h = ground arith
is_list_zones-eq Action.export_records h = ground arith
is_list_zones-eq Action.enable_dnssec h = ground arith
is_list_zones-eq Action.disable_dnssec h = ground arith
is_list_zones-eq Action.issue_certificate h = ground arith
is_list_zones-eq Action.get_statistics h = ground arith
is_list_zones-eq Action.trigger_dns_scan h = ground arith
is_list_zones-eq Action.get_dns_scan_result h = ground arith

granted-list_zones :
    (e : Endpoint) → granted_action e ≡ some Action.list_zones → e ≡ Endpoint.list_zones
granted-list_zones Endpoint.list_zones h = refl
granted-list_zones Endpoint.create_zone h = cc
granted-list_zones Endpoint.check_availability h = cc
granted-list_zones Endpoint.import_records h = cc
granted-list_zones Endpoint.export_records h = cc
granted-list_zones Endpoint.enable_dnssec h = cc
granted-list_zones Endpoint.disable_dnssec h = cc
granted-list_zones Endpoint.issue_certificate h = cc
granted-list_zones Endpoint.get_statistics h = cc
granted-list_zones Endpoint.trigger_scan h = cc
granted-list_zones Endpoint.update_zone h = cc
granted-list_zones Endpoint.get_zone h = cc
granted-list_zones Endpoint.delete_zone h = cc
granted-list_zones Endpoint.get_scan_result h = cc
granted-list_zones Endpoint.list_records h = cc
granted-list_zones Endpoint.add_record h = cc
granted-list_zones Endpoint.update_record h = cc
granted-list_zones Endpoint.delete_record h = cc

module _ {W : Type 0} (lib : Library W) (c : Client) (hash : String → String) (b : BootstrapService)
    (r : HttpRequest) (route_path : String) (i : Input) (db : Db) (w : W) where
  -- A call without admin rights.
  call-IsJustified :
      (unescape : String → Option String) (ctx : Context) (e : Endpoint) (p : Params) (call : Call)
      → KeepsPlain unescape
      → IsRoutePath unescape r.path route_path
      → IsAuthorized hash db r ctx
      → (route_for e).is_admin ≡ false
      → r.method ≡ (route_for e).method
      → route_path ≡ fill (route_for e).pattern p
      → IsRead (route_for e).pattern p (zone_of call)
      → ReadsRecord call p
      → serves call e ≡ true
      → IsJustified hash b db r route_path c (perform (recorded lib) c call (w, [])).1.1
  call-IsJustified unescape ctx e p call keeps is_route a free m path read record_read served =
      let d = parse_request_sound r a.request a.parse in
      let (granted, zone) =
        route_for-agrees unescape keeps r a.request d p (zone_of call) route_path is_route e
          a.not_admin_only free m path read in
      elim (Bool-cases (is_list_zones a.request.action)) [
        | inl l ↦
            let same : e ≡ Endpoint.list_zones =
              granted-list_zones e (granted ∙ ap some (is_list_zones-eq a.request.action l)) in
            as_listing scoped call (is_list_zones-eq a.request.action l) (rw same at served)
              (perform-SendsOnce lib c call w)
        | inr n ↦
            let z : has_zone a.request.action ≡ true =
              has_zone_scoped a.request.action a.not_admin_only n in
            let named : ZoneIs true d.captures a.request.zone_id = rw z at d.zone in
            elim (perform-NamesZone lib c call (first d.captures) a.request.zone_id w named
              (zone z)) [
                | inl none_sent ↦ nothing none_sent
                | inr (one, sent, names, of_call) ↦
                    as_granted scoped e p call one
                      (Permitted-HasRow a.token a.request db (is_list_zones-ne a.request.action n)
                        a.permitted)
                      granted path record_read served sent of_call names
              ]
      ]
    where
      scoped : IsScoped hash db r
      scoped = record {
        token = a.token;
        request = a.request;
        stored = a.stored;
        key = a.key;
        scoped = a.scoped;
        parse = a.parse;
        permitted = a.permitted;
      }

  routed-IsJustified :
      (unescape : String → Option String) (ctx : Context) (e : Endpoint) (p : Params)
      → KeepsPlain unescape
      → IsRoutePath unescape r.path route_path
      → (proxy_auth_chain hash b r background db).0 ≡ next ctx
      → r.method ≡ (route_for e).method
      → route_path ≡ fill (route_for e).pattern p
      → IsJustified hash b db r route_path c
          (serve_route (new_client (recorded lib) c) ctx i p e (w, [])).1.1
  routed-IsJustified unescape ctx e p keeps is_route chain m path =
      elim (serve_route-CallsFor (recorded lib) c ctx i p e (w, [])) [
        | inl same ↦ nothing (ap (λ x. x.1) same)
        | inr (free, inl same) ↦ nothing (ap (λ x. x.1) same)
        | inr (free, inr (call, served, read, record_read, same)) ↦
            elim (Bool-cases (is_admin_from_context ctx)) [
              | inl admin ↦ rw same (
                  as_admin ctx
                    (authenticate_sound hash b r db ctx (chain-next hash b r db ctx chain).0) admin
                    e p call m path read record_read served (perform-SendsOnce lib c call w))
              | inr scoped ↦ rw same (
                  call-IsJustified unescape ctx e p call keeps is_route
                    (proxy_auth_chain-IsAuthorized hash b r db ctx chain scoped)
                    (unreserved e ctx scoped free) m path read record_read served)
            ]
      ]
    where
      unreserved :
          (e : Endpoint) (ctx : Context)
          → is_admin_from_context ctx ≡ false
          → ((route_for e).is_admin ≡ false) ⊎ (is_admin_from_context ctx ≡ true)
          → (route_for e).is_admin ≡ false
      unreserved e ctx s (inl h) = h
      unreserved e ctx s (inr h) = cc

  -- Whatever is sent to bunny.net while a request is served is justified: nothing is sent; or, for a
  -- key with admin rights, at most the one request of the route that the request has, by the method and
  -- to the path of that operation; or, for a scoped token that asks for the zones, at most the GET of
  -- their list; or one request by the method and to the path of the action that the path and the body
  -- ask for and that the token's permissions allow, its URL names the zone that a row of the table of
  -- permissions grants to the token, and the record, where there is one, is that of the path. It holds for every router that finds registered routes, on
  -- `Path` or on a `RawPath` that decodes to it.
  pub serve-IsJustified :
      (unescape : String → Option String) (dispatch : Method → String → Routed)
      → KeepsPlain unescape
      → FindsRoutes dispatch
      → IsRoutePath unescape r.path route_path
      → IsJustified hash b db r route_path c
          (serve (new_client (recorded lib) c) dispatch hash b r route_path i db (w, [])).2.1
  unfolding serve
  serve-IsJustified unescape dispatch keeps finds is_route =
      stepped (proxy_auth_chain hash b r background db).0 refl
    where
      dispatched_to :
          (ctx : Context) (routed : Routed)
          → dispatch r.method route_path ≡ routed
          → (proxy_auth_chain hash b r background db).0 ≡ next ctx
          → IsJustified hash b db r route_path c
              (dispatched (new_client (recorded lib) c) dispatch ctx i routed (w, [])).1.1
      dispatched_to ctx (unrouted response) d chain = nothing refl
      dispatched_to ctx (found e p) d chain =
          let (m, path) = finds r.method route_path e p d in
          routed-IsJustified unescape ctx e p keeps is_route chain m path

      stepped :
          (step : Step)
          → (proxy_auth_chain hash b r background db).0 ≡ step
          → IsJustified hash b db r route_path c
              (after_auth (new_client (recorded lib) c) dispatch r route_path i step (w, [])).1.1
      stepped (deny status body) e = nothing refl
      stepped (next ctx) e = dispatched_to ctx (dispatch r.method route_path) refl e
