-- ===== src/Proxy/Granted.antt =====
-- What a request with a scoped token is shown of the account, from its key to the answer.
use bunny_api_proxy.Base.{
  ℤ, ==ℤ_iff, String, ◌≡◌, ◌↔◌, refl, ap, ◌∙◌, subst, false, some, List, [], ◌∷◌, inl, inr, All,
  All-Member, Member, Member-select, select_of_Member,
}
use bunny_api_proxy.Base.Sort.{Member-order_by, order_by-Member}
use bunny_api_proxy.Storage.Types.{Token, Permission}
use bunny_api_proxy.Storage.Db.{Db}
use bunny_api_proxy.Storage.Permissions.{belongs_to, older, read_row, read_rows, rejects}
use bunny_api_proxy.Storage.Valid.{IsValid}
use bunny_api_proxy.Auth.Types.{HttpRequest}
use bunny_api_proxy.Auth.Check.{zone_ids}
use bunny_api_proxy.Auth.Check.Laws.{IsChecked}
use bunny_api_proxy.Auth.Context.{Context, background, is_admin_from_context}
use bunny_api_proxy.Auth.Bootstrap.{BootstrapService}
use bunny_api_proxy.Auth.Middleware.{
  next, extract_access_key, key_info_of, get_key_info, proxy_auth_chain,
}
use bunny_api_proxy.Auth.Middleware.Laws.{stored_permissions, token_context}
use bunny_api_proxy.Auth.Middleware.Chain.{proxy_auth_chain-IsAuthorized, Member-read_rows}
use bunny_api_proxy.Proxy.Types.{Zone, ListZonesResponse, ok, BunnyClient, zone_list, respond}
use bunny_api_proxy.Proxy.Handlers.{number_of, handle_list_zones}
use bunny_api_proxy.Proxy.Filters.{handle_list_zones-Shows}

-- A row of the table of permissions that grants a zone to a token.
abbrev pub GrantsZone : Db → Token → ℤ → Type 0
GrantsZone db t zone_id =
    (row : Permission) × Member row db.permissions × (row.token_id ≡ t.id) × (row.zone_id ≡ zone_id)

All-of_Member :
    (P : Permission → Type 0) (ps : List Permission)
    → ((p : Permission) → Member p ps → P p)
    → All P ps
All-of_Member P [] h = tt
All-of_Member P (p ∷ ps) h = (h p (inl refl), All-of_Member P ps (λ q m. h q (inr m)))

read_rows-Member :
    (row : Permission) (ps : List Permission) → Member row ps → Member (read_row row) (read_rows ps)
read_rows-Member row [] m = absurd m
read_rows-Member row (p ∷ ps) (inl e) = inl (ap read_row e)
read_rows-Member row (p ∷ ps) (inr m) = inr (read_rows-Member row ps m)

-- The stored permissions of a token, as the handlers get them, are its rows.
stored-row :
    (t : Token) (db : Db) (p : Permission)
    → Member p (stored_permissions t db)
    → (row : Permission) × Member row db.permissions × (row.token_id ≡ t.id) × (read_row row ≡ p)
stored-row t db p m =
    let (row, n, e) = Member-read_rows p _ m in
    let (k, o) =
      Member-select (belongs_to t.id) db.permissions row (Member-order_by older row _ n) in
    (row, k, (==ℤ_iff row.token_id t.id).0 o, e)

row-stored :
    (t : Token) (db : Db) (row : Permission)
    → Member row db.permissions
    → row.token_id ≡ t.id
    → Member (read_row row) (stored_permissions t db)
row-stored t db row m e = read_rows-Member row _ (
    order_by-Member older row _
      (select_of_Member (belongs_to t.id) db.permissions row m ((==ℤ_iff row.token_id t.id).1 e)))

stored-IsChecked : (t : Token) (db : Db) → IsValid db → IsChecked (stored_permissions t db)
stored-IsChecked t db v =
    All-of_Member (λ p. rejects p ≡ false) (stored_permissions t db)
      λ p m.
        let (row, n, _, e) = stored-row t db p m in
        subst (λ (q : Permission). rejects q ≡ false) e
          (All-Member (λ q. rejects q ≡ false) db.permissions row v.checked n)

Member-zone_ids :
    (z : ℤ) (ps : List Permission)
    → Member z (zone_ids ps)
    → (p : Permission) × Member p ps × (p.zone_id ≡ z)
Member-zone_ids z [] m = absurd m
Member-zone_ids z (p ∷ ps) (inl e) = (p, inl refl, e)
Member-zone_ids z (p ∷ ps) (inr m) = let (q, n, e) = Member-zone_ids z ps m in (q, inr n, e)

zone_ids-Member :
    (p : Permission) (ps : List Permission) → Member p ps → Member p.zone_id (zone_ids ps)
zone_ids-Member p [] m = absurd m
zone_ids-Member p (q ∷ ps) (inl e) = inl (ap (λ (x : Permission). x.zone_id) e)
zone_ids-Member p (q ∷ ps) (inr m) = inr (zone_ids-Member p ps m)

zone_ids-GrantsZone :
    (t : Token) (db : Db) (z : ℤ)
    → Member z (zone_ids (stored_permissions t db)) ↔ GrantsZone db t z
zone_ids-GrantsZone t db z = (
  λ m.
      let (p, n, e) = Member-zone_ids z (stored_permissions t db) m in
      let (row, k, o, f) = stored-row t db p n in
      (row, k, o, ap (λ (x : Permission). x.zone_id) f ∙ e),
  λ (row, k, o, e).
      subst (λ (x : ℤ). Member x (zone_ids (stored_permissions t db))) e
        (zone_ids-Member (read_row row) _ (row-stored t db row k o)),
)

get_key_info-token :
    (ctx : Context) (t : Token) (ps : List Permission)
    → ctx ≡ token_context t (some ps)
    → get_key_info ctx ≡ some (key_info_of (some t) ps)
unfolding get_key_info
get_key_info-token ctx t ps e = ap get_key_info e

-- A request without admin rights that passes the chain over a well-formed database and lists the
-- zones, with a well-formed query that bunny.net answers, is answered 200 with those zones of the
-- answer that a row of the table of permissions grants to the token of its key, and no others.
pub list_zones-GrantsZone :
    {W : Type 0} (hash : String → String) (b : BootstrapService) (r : HttpRequest) (db : Db)
    (ctx : Context) (client : BunnyClient W) (page per_page query : String) (p n : ℤ)
    (result : ListZonesResponse) (w w' : W)
    → IsValid db
    → (proxy_auth_chain hash b r background db).0 ≡ next ctx
    → is_admin_from_context ctx ≡ false
    → number_of page ≡ some p
    → number_of per_page ≡ some n
    → client.list_zones (record { page = p; per_page = n; search = query }) w ≡ (ok result, w')
    → (t : Token) × Member t db.tokens
      × (t.key_hash ≡ hash (extract_access_key r))
      × (shown : ListZonesResponse) × (handle_list_zones client ctx page per_page query w
          ≡ (respond 200 (zone_list shown), w'))
      × ((z : Zone) → Member z shown.items ↔ (Member z result.items × GrantsZone db t z.id))
list_zones-GrantsZone hash b r db ctx client page per_page query p n result w w' v passes scoped ep
      en answer =
    let a = proxy_auth_chain-IsAuthorized hash b r db ctx passes scoped in
    let k = key_info_of (some a.token) (stored_permissions a.token db) in
    let key : get_key_info ctx ≡ some k = get_key_info-token ctx a.token _ a.context in
    let (shown, e, s) =
      handle_list_zones-Shows client ctx k page per_page query p n result w w' key
        (stored-IsChecked a.token db v) ep en answer in
    (
      a.token,
      a.stored,
      a.key,
      shown,
      e,
      λ z.
          let grants = zone_ids-GrantsZone a.token db z.id in
          (
            λ m. let (i, h) = (s.zones z).0 m in (i, grants.0 h),
            λ (i, h). (s.zones z).1 (i, grants.1 h),
          ),
    )
