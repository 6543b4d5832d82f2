-- ===== src/Auth/Parse/Sound.antt =====
-- `ParseRequest` (internal/auth/actions.go) beside the table of endpoints.
use bunny_api_proxy.Base.{
  ℤ, pos, ◌≡◌, refl, subst, String, Bool, true, false, Option, none, some, List, arith, inl, inr,
  Option-cases,
}
use bunny_api_proxy.Go.ParseInt.{parse_int}
use bunny_api_proxy.Go.Pattern.{Pattern, match}
use bunny_api_proxy.Auth.Types.{
  Action, list_zones, get_zone, list_records, add_record, update_record, create_zone, update_zone,
  check_availability, import_records, export_records, enable_dnssec, disable_dnssec,
  issue_certificate, get_statistics, trigger_dns_scan, get_dns_scan_result, Request, Method, get,
  post, delete, HttpRequest,
}
use bunny_api_proxy.Auth.Check.{needs_type}
use bunny_api_proxy.Auth.Parse.{
  ParseError, unread_body, unparsed_body, Parsed, refused, parsed, map_record_type_to_string, first,
  second, is_get, is_post, is_delete, with_zone, with_record, simple, typed, branch, zone_branch,
  parse_records, parse_settings, parse_request,
}
use bunny_api_proxy.Auth.Parse.Endpoint.{method_of, route_of, has_zone}

abbrev pub ZoneIs : Bool → List String → ℤ → Type 0
ZoneIs true captures zone_id = parse_int (first captures) ≡ some zone_id
ZoneIs false captures zone_id = zone_id ≡ pos 0

abbrev pub TypeIs : Bool → Option ℤ → String → Type 0
TypeIs true field record_type =
    (t : ℤ) × (field ≡ some t) × (record_type ≡ map_record_type_to_string t)
TypeIs false field record_type = record_type ≡ ""

-- `r` is a request to the endpoint of `q`'s action, with `q`'s zone in the path, and, where the
-- action needs one, `q`'s record type in the body.
pub record IsDescribed (r : HttpRequest) (q : Request) : Type 0 where
  pub captures : List String
  pub method : r.method ≡ method_of q.action
  pub path : match (route_of q.action) r.path ≡ some captures
  pub zone : ZoneIs (has_zone q.action) captures q.zone_id
  pub typed : TypeIs (needs_type q.action) r.body.type_field q.record_type

abbrev pub Good : HttpRequest → Parsed → Type 0
Good r (refused e) = Unit
Good r (parsed q) = IsDescribed r q

branch-Good :
    (r : HttpRequest) (applies : Bool) (p : Pattern) (found : List String → Parsed) (rest : Parsed)
    → (applies ≡ true
        → (captures : List String) → match p r.path ≡ some captures
        → Good r (found captures))
    → Good r rest
    → Good r (branch applies p r.path found rest)
branch-Good r false p found rest h k = k
branch-Good r true p found rest h k = elim (Option-cases (match p r.path)) [
  | inl e ↦ rw (e, branch) k
  | inr (c, e) ↦ rw (e, branch) (h refl c e)
]

with_zone-Good :
    (r : HttpRequest) (captures : List String) (rest : ℤ → Parsed)
    → ((z : ℤ) → parse_int (first captures) ≡ some z → Good r (rest z))
    → Good r (with_zone captures rest)
with_zone-Good r captures rest h = elim (Option-cases (parse_int (first captures))) [
  | inl e ↦ rw (e, with_zone) tt
  | inr (z, e) ↦ rw (e, with_zone) (h z e)
]

with_record-Good :
    (r : HttpRequest) (captures : List String) (rest : Parsed)
    → Good r rest
    → Good r (with_record captures rest)
with_record-Good r captures rest h = elim (Option-cases (parse_int (second captures))) [
  | inl e ↦ rw (e, with_record) tt
  | inr (z, e) ↦ rw (e, with_record) h
]

typed-cases :
    (P : Parsed → Type 0) (a : Action) (z : ℤ) (readable : Bool) (field : Option ℤ)
    → ((e : ParseError) → P (refused e))
    → ((t : ℤ)
        → field ≡ some t
        → P (
            parsed (record { action = a; zone_id = z; record_type = map_record_type_to_string t })))
    → P (typed a (record { is_readable = readable; type_field = field }) z)
typed-cases P a z false field h k = h unread_body
typed-cases P a z true none h k = h unparsed_body
typed-cases P a z true (some t) h k = k t refl

typed-Good :
    (r : HttpRequest) (a : Action) (z : ℤ)
    → ((t : ℤ)
        → r.body.type_field ≡ some t
        → IsDescribed r
            (record { action = a; zone_id = z; record_type = map_record_type_to_string t }))
    → Good r (typed a r.body z)
typed-Good r a z h = typed-cases (Good r) a z r.body.is_readable r.body.type_field (λ e. tt) h

-- A branch of a zone-level action without a record type.
zone_branch-Good :
    (r : HttpRequest) (applies : Bool) (p : Pattern) (a : Action) (rest : Parsed)
    → (applies ≡ true → r.method ≡ method_of a)
    → p ≡ route_of a
    → has_zone a ≡ true
    → needs_type a ≡ false
    → Good r rest
    → Good r (zone_branch applies p r.path a rest)
zone_branch-Good r applies p a rest m route zoned untyped k =
    branch-Good r applies p _ rest
      (λ on captures e. with_zone-Good r captures (simple a) λ z parsed_zone. record {
        captures = captures;
        method = m on;
        path = rw (← route) e;
        zone = rw zoned parsed_zone;
        typed = rw untyped refl;
      })
      k

get-eq : (m : Method) → is_get m ≡ true → m ≡ get
get-eq get h = refl
get-eq _ h = cc

post-eq : (m : Method) → is_post m ≡ true → m ≡ post
post-eq post h = refl
post-eq _ h = cc

delete-eq : (m : Method) → is_delete m ≡ true → m ≡ delete
delete-eq delete h = refl
delete-eq _ h = cc

parse_records-Good : (r : HttpRequest) → Good r (parse_records r)
unfolding parse_records
parse_records-Good r =
    branch-Good r (is_post r.method) _ _ _
      (λ on captures e. with_zone-Good r captures _ λ z parsed_zone.
        typed-Good r add_record z λ t field. record {
          captures = captures;
          method = post-eq r.method on;
          path = e;
          zone = parsed_zone;
          typed = (t, field, refl);
        })
      (branch-Good r (is_post r.method) _ _ _
        (λ on captures e. with_zone-Good r captures _ λ z parsed_zone.
          with_record-Good r captures _ (
            typed-Good r update_record z λ t field. record {
              captures = captures;
              method = post-eq r.method on;
              path = e;
              zone = parsed_zone;
              typed = (t, field, refl);
            }))
        (branch-Good r (is_delete r.method) _ _ _
          (λ on captures e. with_zone-Good r captures _ λ z parsed_zone.
            with_record-Good r captures _ (record {
              captures = captures;
              method = delete-eq r.method on;
              path = e;
              zone = parsed_zone;
              typed = refl;
            }))
          tt))

parse_settings-Good : (r : HttpRequest) → Good r (parse_settings r)
unfolding parse_settings
parse_settings-Good r =
    let is_post_method = post-eq r.method in
    let is_get_method = get-eq r.method in
    zone_branch-Good r _ _ enable_dnssec _ is_post_method refl refl refl (
      zone_branch-Good r _ _ disable_dnssec _ (delete-eq r.method) refl refl refl (
        zone_branch-Good r _ _ issue_certificate _ is_post_method refl refl refl (
          zone_branch-Good r _ _ update_zone _ (λ on. post-eq r.method (ground arith)) refl refl
            refl
            (zone_branch-Good r _ _ export_records _ is_get_method refl refl refl (
              zone_branch-Good r _ _ get_statistics _ is_get_method refl refl refl
                (parse_records-Good r))))))

-- A branch of an action that has no zone.
fixed_branch-Good :
    (r : HttpRequest) (applies : Bool) (p : Pattern) (a : Action) (rest : Parsed)
    → (applies ≡ true → r.method ≡ method_of a)
    → p ≡ route_of a
    → has_zone a ≡ false
    → needs_type a ≡ false
    → Good r rest
    → Good r (branch applies p r.path (λ _. simple a (pos 0)) rest)
fixed_branch-Good r applies p a rest m route unzoned untyped k =
    branch-Good r applies p _ rest
      (λ on captures e. record {
        captures = captures;
        method = m on;
        path = rw (← route) e;
        zone = rw unzoned refl;
        typed = rw untyped refl;
      })
      k

parse_request-Good : (r : HttpRequest) → Good r (parse_request r)
unfolding parse_request
parse_request-Good r =
    let is_post_method = post-eq r.method in
    let is_get_method = get-eq r.method in
    fixed_branch-Good r _ _ list_zones _ is_get_method refl refl refl (
      zone_branch-Good r _ _ get_zone _ is_get_method refl refl refl (
        zone_branch-Good r _ _ get_dns_scan_result _ is_get_method refl refl refl (
          zone_branch-Good r _ _ list_records _ is_get_method refl refl refl (
            zone_branch-Good r _ _ import_records _ is_post_method refl refl refl (
              fixed_branch-Good r _ _ check_availability _ is_post_method refl refl refl (
                fixed_branch-Good r _ _ trigger_dns_scan _ is_post_method refl refl refl (
                  fixed_branch-Good r _ _ create_zone _ is_post_method refl refl refl
                    (parse_settings-Good r))))))))

-- Where `ParseRequest` returns a request, the method and the path are those of the documented
-- endpoint of its action, the zone is the id in the path (0 for an action without a zone), and the
-- record type is the name of the body's type (empty for an action without a type).
pub parse_request_sound :
    (r : HttpRequest) (q : Request) → parse_request r ≡ parsed q → IsDescribed r q
parse_request_sound r q e = subst (Good r) e (parse_request-Good r)
