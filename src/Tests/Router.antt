-- ===== src/Tests/Router.antt =====
-- A request that is served from its key to the request upstream: a scoped token adds a TXT record.
use Prim.Native.Char.{Char}
use bunny_api_proxy.Base.{
  String, ◌==◌, eq_iff, ◌≡◌, refl, sym, ap, ◌∙◌, true, false, ◌&&◌, Option, none, some, [], inl,
  inr, if-elim, arith, if◌then◌else◌, Bool-cases, pos,
}
use bunny_api_proxy.Go.ParseInt.{parse_int, digits_value, digits_from}
use bunny_api_proxy.Go.Pattern.{match, strip_prefix, span_digits}
use bunny_api_proxy.Auth.Types.{Method, post}
use bunny_api_proxy.Auth.Parse.{
  is_post, parsed, parse_request, parse_records, parse_settings, map_record_type_to_string,
}
use bunny_api_proxy.Auth.Parse.Endpoint.{has_zone}
use bunny_api_proxy.Auth.Parse.Sound.{parse_request_sound}
use bunny_api_proxy.Bunny.Client.Operations.{new_client}
use bunny_api_proxy.Bunny.Client.Requests.{recorded}
use bunny_api_proxy.Proxy.Types.{Response, respond, plain_text}
use bunny_api_proxy.Proxy.Router.{
  Endpoint, Params, Routed, found, unrouted, Input, route_for, fill, serve,
}
use bunny_api_proxy.Proxy.Router.Paths.{is_percent, is_plain, KeepsPlain}
use bunny_api_proxy.Proxy.Router.Agrees.{granted_action, route_for-agrees}
use bunny_api_proxy.Proxy.Router.Authorized.{FindsRoutes, IsJustified, serve-IsJustified}
use bunny_api_proxy.Tests.Data.{prefix_hash, service, two_tokens, add_txt, txt_request}
use bunny_api_proxy.Tests.Bunny.{bunny, missing_library}

abbrev five_params : Params
five_params = record { zone_id = "5"; record_id = "" }

abbrev not_routed : Response
not_routed = respond 404 (plain_text "404 page not found")

-- A router that knows one path.
abbrev one_route : Method → String → Routed
one_route m path =
    if is_post m && (path == "/dnszone/5/records")
    then found Endpoint.add_record five_params
    else unrouted not_routed

is_post-eq : (m : Method) → is_post m ≡ true → m ≡ post
is_post-eq post h = refl
is_post-eq _ h = cc

one_route-FindsRoutes : FindsRoutes one_route
one_route-FindsRoutes m path e p =
    if-elim
      (λ x. x ≡ found e p → (m ≡ (route_for e).method) × (path ≡ fill (route_for e).pattern p))
      (is_post m && (path == "/dnszone/5/records")) (found Endpoint.add_record five_params)
      (unrouted not_routed) (λ g h. known (is_post-eq m (ground arith)) (is_path (ground arith)) h)
      (λ g h. absurd (other h))
  where
    is_path : (path == "/dnszone/5/records") ≡ true → path ≡ "/dnszone/5/records"
    is_path h = (eq_iff path "/dnszone/5/records").0 h

    other : unrouted not_routed ≡ found e p → ⊥
    other h = cc

    endpoint : found Endpoint.add_record five_params ≡ found e p → Endpoint.add_record ≡ e
    endpoint h = cc

    params : found Endpoint.add_record five_params ≡ found e p → five_params ≡ p
    params h = cc

    known :
        m ≡ post
        → path ≡ "/dnszone/5/records"
        → found Endpoint.add_record five_params ≡ found e p
        → (m ≡ (route_for e).method) × (path ≡ fill (route_for e).pattern p)
    known a b h = (
      a ∙ ap (λ x. (route_for x).method) (endpoint h),
      b
          ∙ ap (λ x. fill (route_for Endpoint.add_record).pattern x) (params h)
          ∙ ap (λ x. fill (route_for x).pattern p) (endpoint h),
    )

-- Decoding that refuses every escape.
abbrev decode_plain : String → Option String
decode_plain s = if is_plain s then some s else none

decode_plain-KeepsPlain : KeepsPlain decode_plain
decode_plain-KeepsPlain = record { nil = λ u h. sym (some-injective "" u h); cons = plain_cons }
  where
    some-injective : (x y : String) → Path (Option String) (some x) (some y) → x ≡ y
    some-injective x y h = cc

    plain_cons :
        (c : Char) (s u : String)
        → is_percent c ≡ false
        → decode_plain (String.◌∷◌ c s) ≡ some u
        → (v : String) × (u ≡ String.◌∷◌ c v) × (decode_plain s ≡ some v)
    plain_cons c s u h e = elim (Bool-cases (is_plain s)) [
      | inl p ↦ (s, sym (some-injective (String.◌∷◌ c s) u (rw (h, p) at e)), rw p refl)
      | inr p ↦ let no : Path (Option String) none (some u) = rw (h, p) at e in cc
    ]

abbrev txt_input : Input
txt_input = record {
  page = "";
  per_page = "";
  search = "";
  date_from = "";
  date_to = "";
  body_domain = some "";
  body_name = some "";
  body_document = some "{\"Type\":3}";
  body_text = "{\"Type\":3}";
  content_type = "application/json";
}

serve-IsJustified_example :
    IsJustified prefix_hash service two_tokens add_txt "/dnszone/5/records" bunny
      (serve
        (new_client (recorded missing_library) bunny)
        one_route
        prefix_hash
        service
        add_txt
        "/dnszone/5/records"
        txt_input
        two_tokens
        (0, [])).2.1
serve-IsJustified_example =
    serve-IsJustified missing_library bunny prefix_hash service add_txt "/dnszone/5/records"
      txt_input two_tokens 0 decode_plain one_route decode_plain-KeepsPlain one_route-FindsRoutes
      (inl refl)

add_txt-parsed : parse_request add_txt ≡ parsed txt_request
unfolding parse_request parse_records parse_settings match strip_prefix span_digits parse_int
    digits_value digits_from map_record_type_to_string
add_txt-parsed = refl

five-number : parse_int "5" ≡ some (pos 5)
unfolding parse_int digits_value digits_from
five-number = refl

route_for-agrees_example :
    (granted_action Endpoint.add_record ≡ some txt_request.action)
    × (has_zone txt_request.action ≡ true → some (pos 5) ≡ some txt_request.zone_id)
route_for-agrees_example =
    route_for-agrees decode_plain decode_plain-KeepsPlain add_txt txt_request
      (parse_request_sound add_txt txt_request add_txt-parsed) five_params (some (pos 5))
      "/dnszone/5/records" (inl refl) Endpoint.add_record refl refl refl refl
      ((pos 5, refl, five-number), tt)
