-- ===== src/Auth/Middleware/Chain.antt =====
-- What a request to the proxy must hold to reach a handler, end to end: the chain of `Authenticate`
-- and `CheckPermissions` that cmd/bunny-api-proxy/main.go puts before every route.
use bunny_api_proxy.Base.{
  ℤ, ==ℤ_iff, String, ◌≡◌, ◌≢◌, refl, sym, ap, ◌∙◌, subst, true, false, some, List, [], ◌∷◌, inl,
  inr, arith, Bool-cases, Member-select, Member,
}
use bunny_api_proxy.Base.Sort.{Member-order_by}
use bunny_api_proxy.Storage.Types.{Token, Permission}
use bunny_api_proxy.Storage.Db.{Db}
use bunny_api_proxy.Storage.Permissions.{belongs_to, older, read_row, read_rows}
use bunny_api_proxy.Auth.Types.{list_zones, HttpRequest, Request, is_admin_only}
use bunny_api_proxy.Auth.Check.{check_permission}
use bunny_api_proxy.Auth.Check.Laws.{
  FirstFor, Permitted, listing, reading, acting, check_permission_iff,
}
use bunny_api_proxy.Auth.Parse.{Parsed, refused, parsed, parse_request}
use bunny_api_proxy.Auth.Context.{Context, background, is_admin_from_context}
use bunny_api_proxy.Auth.Bootstrap.{BootstrapService}
use bunny_api_proxy.Auth.Middleware.{
  Step, deny, next, extract_access_key, authenticate, check_permissions, then_check,
  proxy_auth_chain, key_info_of, or_empty,
}
use bunny_api_proxy.Auth.Middleware.Laws.{
  stored_permissions, token_context, Admitted, by_master, by_admin, by_scoped, authenticate_sound,
}

-- A stored, scoped token has the key of the request, and its stored permissions let through the
-- action, the zone and the record type that the request is parsed to.
pub record IsAuthorized (hash : String → String) (db : Db) (r : HttpRequest) (ctx : Context)
    : Type 0 where
  pub token : Token
  pub request : Request
  pub stored : Member token db.tokens
  pub key : token.key_hash ≡ hash (extract_access_key r)
  pub scoped : token.is_admin ≡ false
  pub context : ctx ≡ token_context token (some (stored_permissions token db))
  pub parse : parse_request r ≡ parsed request
  pub not_admin_only : is_admin_only request.action ≡ false
  pub permitted : Permitted (stored_permissions token db) request

-- What `CheckPermissions` has tested when it calls the next handler for a context without admin
-- rights.
check_permissions-next :
    (r : HttpRequest) (ctx ctx' : Context)
    → is_admin_from_context ctx ≡ false
    → check_permissions r ctx ≡ next ctx'
    → (ctx ≡ ctx')
      × (q : Request) × (parse_request r ≡ parsed q)
      × (is_admin_only q.action ≡ false)
      × (check_permission (key_info_of ctx.token (or_empty ctx.permissions)) q ≡ true)
unfolding check_permissions
check_permissions-next r ctx ctx' s e = go (parse_request r) refl
  where
    go :
        (p : Parsed)
        → parse_request r ≡ p
        → (ctx ≡ ctx')
          × (q : Request) × (parse_request r ≡ parsed q)
          × (is_admin_only q.action ≡ false)
          × (check_permission (key_info_of ctx.token (or_empty ctx.permissions)) q ≡ true)
    go (refused x) p = ground arith
    go (parsed q) p = (ground arith, q, p, ground arith, ground arith)

then_check-next :
    (r : HttpRequest) (s : Step) (db : Db) (ctx : Context)
    → (then_check r (s, db)).0 ≡ next ctx
    → (ctx₀ : Context) × (s ≡ next ctx₀) × (check_permissions r ctx₀ ≡ next ctx)
then_check-next r (deny status body) db ctx e = ground arith
then_check-next r (next ctx₀) db ctx e = (ctx₀, refl, e)

check_permissions-admin :
    (r : HttpRequest) (ctx ctx' : Context)
    → is_admin_from_context ctx ≡ true
    → check_permissions r ctx ≡ next ctx'
    → ctx ≡ ctx'
unfolding check_permissions
check_permissions-admin r ctx ctx' a e = ground arith

-- The chain calls the next handler with the context of `Authenticate`.
pub chain-next :
    (hash : String → String) (b : BootstrapService) (r : HttpRequest) (db : Db) (ctx : Context)
    → (proxy_auth_chain hash b r background db).0 ≡ next ctx
    → ((authenticate hash b r background db).0 ≡ next ctx) × (check_permissions r ctx ≡ next ctx)
unfolding proxy_auth_chain
chain-next hash b r db ctx e =
    let a = authenticate hash b r background db in
    let (ctx₀, first, second) = then_check-next r a.0 a.1 ctx e in
    let same : ctx₀ ≡ ctx = elim (Bool-cases (is_admin_from_context ctx₀)) [
      | inl admin ↦ check_permissions-admin r ctx₀ ctx admin second
      | inr scoped ↦ (check_permissions-next r ctx₀ ctx scoped second).0
    ] in
    (rw (← same) first, subst (λ (c : Context). check_permissions r c ≡ next ctx) same second)

-- A request reaches a handler of the proxy without admin rights only if its key is that of a
-- stored, scoped token, `ParseRequest` recognises it as an action that is not reserved for admins,
-- and the token's permissions in the store let that action through; the handler gets the token and
-- those permissions in its context.
pub proxy_auth_chain-IsAuthorized :
    (hash : String → String) (b : BootstrapService) (r : HttpRequest) (db : Db) (ctx : Context)
    → (proxy_auth_chain hash b r background db).0 ≡ next ctx
    → is_admin_from_context ctx ≡ false
    → IsAuthorized hash db r ctx
proxy_auth_chain-IsAuthorized hash b r db ctx e not_admin =
    let (first, second) = chain-next hash b r db ctx e in
    authorized (authenticate_sound hash b r db ctx first)
      (check_permissions-next r ctx ctx not_admin second)
  where
    authorized :
        Admitted hash b (extract_access_key r) db ctx
        → (ctx ≡ ctx)
          × (q : Request) × (parse_request r ≡ parsed q)
          × (is_admin_only q.action ≡ false)
          × (check_permission (key_info_of ctx.token (or_empty ctx.permissions)) q ≡ true)
        → IsAuthorized hash db r ctx
    authorized (by_master h n c) w = absurd (ne_of_admin (ap is_admin_from_context c))
      where
        ne_of_admin : is_admin_from_context ctx ≡ true → ⊥
        ne_of_admin a = cc
    authorized (by_admin t m h a c) w = ground (arith, ap is_admin_from_context c)
    authorized (by_scoped t m h a c) (_, q, p, o, k) = record {
      token = t;
      request = q;
      stored = m;
      key = h;
      scoped = a;
      context = c;
      parse = p;
      not_admin_only = o;
      permitted = (check_permission_iff _ q).0 (
          subst
            (λ (x : Context).
              check_permission (key_info_of x.token (or_empty x.permissions)) q ≡ true)
            c k);
    }

FirstFor-zone :
    (z : ℤ) (p : Permission) (ps : List Permission)
    → FirstFor z p ps
    → Member p ps × (p.zone_id ≡ z)
FirstFor-zone z p [] h = absurd h
FirstFor-zone z p (q ∷ qs) (inl (e, k)) = (inl e, sym (ap (λ (x : Permission). x.zone_id) e) ∙ k)
FirstFor-zone z p (q ∷ qs) (inr (n, h)) = let r = FirstFor-zone z p qs h in (inr r.0, r.1)

pub Member-read_rows :
    (p : Permission) (ps : List Permission)
    → Member p (read_rows ps)
    → (row : Permission) × Member row ps × (read_row row ≡ p)
Member-read_rows p [] m = absurd m
Member-read_rows p (q ∷ qs) (inl e) = (q, inl refl, e)
Member-read_rows p (q ∷ qs) (inr m) = let r = Member-read_rows p qs m in (r.0, inr r.1, r.2)

-- A row of the table of permissions that grants the zone of a request to a token.
abbrev pub HasRow : Db → Token → Request → Type 0
HasRow db t q =
    (row : Permission) × Member row db.permissions
    × (row.token_id ≡ t.id)
    × (row.zone_id ≡ q.zone_id)

FirstFor-HasRow :
    (t : Token) (q : Request) (db : Db) (p : Permission)
    → FirstFor q.zone_id p (stored_permissions t db)
    → HasRow db t q
FirstFor-HasRow t q db p h =
    let (m, z) = FirstFor-zone q.zone_id p (stored_permissions t db) h in
    let (row, n, e) = Member-read_rows p _ m in
    let (k, o) =
      Member-select (belongs_to t.id) db.permissions row (Member-order_by older row _ n) in
    (row, k, (==ℤ_iff row.token_id t.id).0 o, ap (λ (x : Permission). x.zone_id) e ∙ z)

pub Permitted-HasRow :
    (t : Token) (q : Request) (db : Db)
    → q.action ≢ list_zones
    → Permitted (stored_permissions t db) q
    → HasRow db t q
Permitted-HasRow t q db not_list (listing l) = absurd (not_list l)
Permitted-HasRow t q db not_list (reading p f g) = FirstFor-HasRow t q db p f
Permitted-HasRow t q db not_list (acting p f m n) = FirstFor-HasRow t q db p f

-- A request without admin rights that reaches a handler, and is not the listing of the zones, is
-- for a zone that a row of the table of permissions grants to the token of its key.
pub proxy_auth_chain-HasRow :
    (hash : String → String) (b : BootstrapService) (r : HttpRequest) (db : Db) (ctx : Context)
    (q : Request)
    → (proxy_auth_chain hash b r background db).0 ≡ next ctx
    → is_admin_from_context ctx ≡ false
    → parse_request r ≡ parsed q
    → q.action ≢ list_zones
    → (t : Token) × Member t db.tokens × (t.key_hash ≡ hash (extract_access_key r)) × HasRow db t q
proxy_auth_chain-HasRow hash b r db ctx q e not_admin p not_list =
    let a = proxy_auth_chain-IsAuthorized hash b r db ctx e not_admin in
    let same : a.request ≡ q = parsed-injective (sym a.parse ∙ p) in
    (
      a.token,
      a.stored,
      a.key,
      Permitted-HasRow a.token q db not_list
          (subst (Permitted (stored_permissions a.token db)) same a.permitted),
    )
  where
    parsed-injective : {x y : Request} → parsed x ≡ parsed y → x ≡ y
    parsed-injective h = cc
