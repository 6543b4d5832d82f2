-- ===== src/Admin/Create/Usable.antt =====
-- From internal/admin/api.go to internal/auth: what the key of a token that was just created may do.
use bunny_api_proxy.Base.{
  ℕ, ◌+◌, ℤ, pos, ==ℤ_iff, String, ◌==◌, ◌==ℕ◌, ◌≡◌, ◌≢◌, refl, sym, ap, ◌∙◌, subst, Bool, true,
  false, Option, some, List, [], ◌∷◌, ◌++◌, ◌==ℤ◌, inl, inr, arith, Member, Member-select,
  select_of_Member, All, All-mono, All-append, All-Member, Bool-cases,
}
use bunny_api_proxy.Base.Sort.{Member-order_by, order_by-Member}
use bunny_api_proxy.Storage.Types.{Token, Permission}
use bunny_api_proxy.Storage.Db.{Db}
use bunny_api_proxy.Storage.Permissions.{belongs_to, older, read_row, read_rows}
use bunny_api_proxy.Storage.Valid.{IsValid}
use bunny_api_proxy.Auth.Types.{HttpRequest, Request, is_admin_only, action_name}
use bunny_api_proxy.Auth.Check.{needs_type}
use bunny_api_proxy.Auth.Check.Laws.{FirstFor, Permitted, acting}
use bunny_api_proxy.Auth.Parse.{parsed, parse_request}
use bunny_api_proxy.Auth.Context.{Context, background}
use bunny_api_proxy.Auth.Bootstrap.{BootstrapService}
use bunny_api_proxy.Auth.Middleware.{next, extract_access_key, proxy_auth_chain}
use bunny_api_proxy.Auth.Middleware.Laws.{stored_permissions, token_context}
use bunny_api_proxy.Auth.Middleware.Chain.{Member-read_rows}
use bunny_api_proxy.Auth.Middleware.Complete.{proxy_auth_chain-next}
use bunny_api_proxy.Admin.Create.{CreateTokenRequest, hex_encode, handle_create_unified_token}
use bunny_api_proxy.Admin.Types.{Response}
use bunny_api_proxy.Admin.Server.Keeps.{handle_create-keeps}
use bunny_api_proxy.Admin.Server.Valid.{keeps-IsValid}
use bunny_api_proxy.Admin.Create.Zones.{zone_rows}
use bunny_api_proxy.Admin.Create.Atomic.{
  granted, created_row, Effect, refused, done, unowned, handle_create-Effect,
}

-- What every row of a created token says.
abbrev IsAsAsked : CreateTokenRequest → Permission → Type 0
IsAsAsked req p = (p.allowed_actions ≡ req.actions) × (p.record_types ≡ req.record_types)

zone_rows-IsAsAsked :
    (id : ℤ) (req : CreateTokenRequest) (now seq : ℕ) (zones : List ℤ)
    → All (IsAsAsked req) (zone_rows id req now seq zones)
zone_rows-IsAsAsked id req now seq [] = tt
zone_rows-IsAsAsked id req now seq (z ∷ zones) =
    ((refl, refl), zone_rows-IsAsAsked id req now (seq + 1) zones)

-- Each of the zones has a row.
zone_rows-Member :
    (id : ℤ) (req : CreateTokenRequest) (now seq : ℕ) (zones : List ℤ) (z : ℤ)
    → Member z zones
    → (p : Permission) × Member p (zone_rows id req now seq zones)
      × (p.token_id ≡ id)
      × (p.zone_id ≡ z)
zone_rows-Member id req now seq [] z m = absurd m
zone_rows-Member id req now seq (y ∷ zones) z (inl e) = (_, inl refl, refl, e)
zone_rows-Member id req now seq (y ∷ zones) z (inr m) =
    let (p, n, a, b) = zone_rows-Member id req now (seq + 1) zones z m in (p, inr n, a, b)

Member-right : {A : Type 0} (xs ys : List A) (a : A) → Member a ys → Member a (xs ++ ys)
Member-right [] ys a m = m
Member-right (x ∷ xs) ys a m = inr (Member-right xs ys a m)

read_rows-Member :
    (p : Permission) (ps : List Permission) → Member p ps → Member (read_row p) (read_rows ps)
read_rows-Member p [] m = absurd m
read_rows-Member p (q ∷ ps) (inl e) = inl (ap read_row e)
read_rows-Member p (q ∷ ps) (inr m) = inr (read_rows-Member p ps m)

-- Where a list has a permission for a zone, it has a first one.
FirstFor-exists :
    (z : ℤ) (p : Permission) (ps : List Permission)
    → Member p ps
    → p.zone_id ≡ z
    → (f : Permission) × FirstFor z f ps × Member f ps
FirstFor-exists z p [] m e = absurd m
FirstFor-exists z p (q ∷ ps) (inl same) e =
    (q, inl (refl, ap (λ (x : Permission). x.zone_id) same ∙ e), inl refl)
FirstFor-exists z p (q ∷ ps) (inr m) e = elim (Bool-cases (q.zone_id ==ℤ z)) [
  | inl h ↦ (q, inl (refl, (==ℤ_iff q.zone_id z).0 h), inl refl)
  | inr h ↦
      let (f, first, n) = FirstFor-exists z p ps m e in
      (f, inr (λ k. other h ((==ℤ_iff q.zone_id z).1 k), first), inr n)
]
  where
    other : {b : Bool} → b ≡ false → b ≡ true → ⊥
    other h k = cc

-- The permissions of the created token in a table that has its rows at the end.
module _ (req : CreateTokenRequest) (db db' : Db) (t : Token) (v : IsValid db)
    (id : t.id ≡ pos (db.token_seq + 1))
    (rows : db'.permissions
      ≡ db.permissions ++ zone_rows t.id req db.now db.permission_seq req.zones) where
  stored-IsAsAsked : (p : Permission) → Member p (stored_permissions t db') → IsAsAsked req p
  stored-IsAsAsked p m =
      let (row, n, same) = Member-read_rows p _ m in
      let (k, o) =
        Member-select (belongs_to t.id) db'.permissions row (Member-order_by older row _ n) in
      let asked : IsAsAsked req row =
        All-Member (λ x. x.token_id ≡ t.id → IsAsAsked req x) _ row
          (All-append _ db.permissions _ (All-mono _ _ db.permissions old (unowned db v)) (
            All-mono _ _ _ (λ x a e. a)
              (zone_rows-IsAsAsked t.id req db.now db.permission_seq req.zones)))
          (subst (Member row) rows k) ((==ℤ_iff row.token_id t.id).0 o) in
      subst (IsAsAsked req) same asked
    where
      old :
          (x : Permission)
          → x.token_id ≢ pos (db.token_seq + 1)
          → x.token_id ≡ t.id
          → IsAsAsked req x
      old x other e = absurd (other (e ∙ id))

  stored-Permitted :
      (q : Request)
      → Member q.zone_id req.zones
      → Member (action_name q.action) req.actions
      → (needs_type q.action ≡ true → Member q.record_type req.record_types)
      → Permitted (stored_permissions t db') q
  stored-Permitted q zone action typed =
      let (row, m, of_token, for_zone) =
        zone_rows-Member t.id req db.now db.permission_seq req.zones q.zone_id zone in
      let stored : Member row db'.permissions =
        subst (Member row) (sym rows) (Member-right db.permissions _ row m) in
      let chosen =
        select_of_Member (belongs_to t.id) db'.permissions row stored
          ((==ℤ_iff row.token_id t.id).1 of_token) in
      let (f, first, n) =
        FirstFor-exists q.zone_id (read_row row) (stored_permissions t db')
          (read_rows-Member row _ (order_by-Member older row _ chosen)) for_zone in
      let (actions, types) = stored-IsAsAsked f n in
      acting f first (subst (Member (action_name q.action)) (sym actions) action)
        (λ k. subst (Member q.record_type) (sym types) (typed k))

-- A scoped token works as soon as it is created: when `HandleCreateUnifiedToken` has answered 201, a
-- request to the proxy with the answered key reaches the handler if its path and body ask for an
-- action of the request that created the token, in one of its zones and, where the action needs
-- one, for one of its record types. The database is well-formed, the driver's statements work, the
-- action is none that is reserved for admins, and the key is not empty nor the master key.
pub handle_create-usable :
    (hash : String → String) (bootstrap : Option BootstrapService) (b : BootstrapService)
    (bytes : List ℕ) (ctx : Context) (req : CreateTokenRequest) (db : Db) (r : HttpRequest)
    (q : Request)
    → IsValid db
    → db.outcomes ≡ []
    → req.is_admin ≡ false
    → let (response, db') =
        handle_create_unified_token hash bootstrap (some bytes) ctx (some req) db in
      let created = created_row hash req bytes db in
      (response.status ==ℕ 201) ≡ true
      → db'.outcomes ≡ []
      → extract_access_key r ≡ hex_encode bytes
      → (extract_access_key r == "") ≡ false
      → hash (extract_access_key r) ≢ b.master_key_hash
      → parse_request r ≡ parsed q
      → is_admin_only q.action ≡ false
      → Member q.zone_id req.zones
      → Member (action_name q.action) req.actions
      → (needs_type q.action ≡ true → Member q.record_type req.record_types)
      → (proxy_auth_chain hash b r background db').0
        ≡ next (token_context created (some (stored_permissions created db')))
handle_create-usable hash bootstrap b bytes ctx req db r q v calm scoped answered calm' key given
      not_master parse free zone action typed =
    usable (handle_create-Effect hash bootstrap (some bytes) ctx (some req) db v calm)
  where
    response : Response
    response = (handle_create_unified_token hash bootstrap (some bytes) ctx (some req) db).0

    db' : Db
    db' = (handle_create_unified_token hash bootstrap (some bytes) ctx (some req) db).1

    created : Token
    created = created_row hash req bytes db

    same : {A : Type 0} {x y : A} → some x ≡ some y → x ≡ y
    same e = cc

    valid : IsValid db'
    valid =
        handle_create-keeps IsValid (keeps-IsValid hash).advances hash
          (keeps-IsValid hash).generates bootstrap (some bytes) ctx (some req) db v

    granted_rows :
        (x : CreateTokenRequest)
        → x.is_admin ≡ false
        → granted x db ≡ zone_rows (pos (db.token_seq + 1)) x db.now db.permission_seq x.zones
    granted_rows x e = rw e refl

    usable :
        Effect hash (some bytes) (some req) db response db'
        → (proxy_auth_chain hash b r background db').0
          ≡ next (token_context created (some (stored_permissions created db')))
    usable (refused s ts ps) = absurd (ground (arith, s, answered))
    usable (done req' bytes' eb er e ts ps) =
        let tokens : db'.tokens ≡ db.tokens ++ created ∷ [] =
          ts
          ∙ ap (λ x. db.tokens ++ created_row hash x bytes' db ∷ []) (sym (same eb))
          ∙ ap (λ x. db.tokens ++ created_row hash req x db ∷ []) (sym (same er)) in
        let rows : db'.permissions
            ≡ db.permissions ++ zone_rows created.id req db.now db.permission_seq req.zones =
          ps
          ∙ ap (λ x. db.permissions ++ granted x db) (sym (same eb))
          ∙ ap (λ l. db.permissions ++ l) (granted_rows req scoped) in
        proxy_auth_chain-next hash b r db' created valid calm' scoped
          (subst (Member created) (sym tokens) (Member-right db.tokens _ created (inl refl)))
          (ap hash (sym key)) given not_master q parse free
          (stored-Permitted req db db' created v refl rows q zone action typed)
