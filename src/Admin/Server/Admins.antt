-- ===== src/Admin/Server/Admins.antt =====
-- Who changes anything through the admin API (internal/admin/token_auth.go, middleware.go and
-- router.go).
use bunny_api_proxy.Base.{
  String, ◌==◌, eq_iff, ◌≡◌, refl, ◌∙◌, Bool, true, false, Option, none, some, inl, inr, ◌⊎◌, arith,
  Bool-cases, Option-cases, count, find, find-some, Member,
}
use bunny_api_proxy.Storage.Types.{Token, Result, ok, err}
use bunny_api_proxy.Storage.Db.{Db, Outcome-cases, advance}
use bunny_api_proxy.Storage.Db
use bunny_api_proxy.Storage.Tokens.{
  is_admin_token, has_hash, has_any_admin_token, get_token_by_hash,
}
use bunny_api_proxy.Go.Trim.{trim_space}
use bunny_api_proxy.Auth.Context.{Context, background, is_admin_from_context}
use bunny_api_proxy.Auth.Bootstrap.{BootstrapService, can_use_master_key}
use bunny_api_proxy.Admin.Access.{
  Step, answer, next, token_auth, require_admin, token_step, master_step, is_bootstrap_key,
}
use bunny_api_proxy.Admin.Server.{Call, get_whoami, State, after_admin, route, after_auth, serve}
use bunny_api_proxy.Admin.Server.Keeps.{token_auth-keeps, handle_whoami-keeps}

-- A key with admin rights: that of a stored admin token, or the master key while there is none.
pub data IsAdminKey (hash : String → String) (bootstrap : Option BootstrapService) (key : String)
    (db : Db) : Type 0 where
  by_token :
      (t : Token)
      → Member t db.tokens
      → t.key_hash ≡ hash (trim_space key)
      → t.is_admin ≡ true
      → IsAdminKey hash bootstrap key db
  by_master_key :
      (b : BootstrapService)
      → bootstrap ≡ some b
      → hash (trim_space key) ≡ b.master_key_hash
      → count is_admin_token db.tokens ≡ 0
      → IsAdminKey hash bootstrap key db

-- Nothing but the driver's outcomes has changed.
abbrev pub SameTables : Db → Db → Type 0
SameTables db db' =
    (db'.tokens ≡ db.tokens)
    × (db'.permissions ≡ db.permissions)
    × (db'.token_seq ≡ db.token_seq)
    × (db'.permission_seq ≡ db.permission_seq)

is_bootstrap_key-some :
    (hash : String → String) (o : Option BootstrapService) (token : String)
    → is_bootstrap_key hash o token ≡ true
    → (b : BootstrapService) × (o ≡ some b) × (hash token ≡ b.master_key_hash)
is_bootstrap_key-some hash none token e = ground arith
is_bootstrap_key-some hash (some b) token e = (b, refl, (eq_iff (hash token) b.master_key_hash).0 e)

can_use-unconfigured :
    (db : Db) → (can_use_master_key db).0 ≡ ok true → count is_admin_token db.tokens ≡ 0
unfolding can_use_master_key has_any_admin_token
can_use-unconfigured db e = ground (arith, Outcome-cases (Db.next db))

get_token-found :
    (h : String) (db : Db) (t : Token)
    → (get_token_by_hash h db).0 ≡ ok t
    → find (has_hash h) db.tokens ≡ some t
unfolding get_token_by_hash
get_token-found h db t e =
    ground (arith, Outcome-cases (Db.next db), Option-cases (find (has_hash h) db.tokens))

master_step-next :
    (r : Result Bool) (ctx ctx' : Context) → master_step ctx r ≡ next ctx' → r ≡ ok true
master_step-next (err e) ctx ctx' p = ground arith
master_step-next (ok false) ctx ctx' p = ground arith
master_step-next (ok true) ctx ctx' p = refl

token_step-next :
    (r : Result Token) (ctx : Context)
    → token_step background r ≡ next ctx
    → (t : Token) × (r ≡ ok t) × (is_admin_from_context ctx ≡ t.is_admin)
token_step-next (err e) ctx p = ground arith
token_step-next (ok t) ctx p = (t, refl, ground arith)

module _ (hash : String → String) (bootstrap : Option BootstrapService) where
  -- `TokenAuthMiddleware` passes a request on with admin rights only for a key that has them: that
  -- of a stored admin token, or the master key while no admin token exists.
  pub token_auth-IsAdminKey :
      (key : String) (db : Db) (ctx : Context)
      → (token_auth hash bootstrap key background db).0 ≡ next ctx
      → is_admin_from_context ctx ≡ true
      → IsAdminKey hash bootstrap key db
  unfolding token_auth
  token_auth-IsAdminKey key db ctx e admin = elim (Bool-cases (key == "")) [
    | inl p ↦ absurd (ground arith)
    | inr p ↦ elim (Bool-cases (trim_space key == "")) [
      | inl q ↦ absurd (ground arith)
      | inr q ↦ elim (Bool-cases (is_bootstrap_key hash bootstrap (trim_space key))) [
        | inl m ↦
            let (b, some_b, h) = is_bootstrap_key-some hash bootstrap (trim_space key) m in
            let used : master_step background (can_use_master_key db).0 ≡ next ctx =
              rw (p, q, m) at e in
            by_master_key b some_b h
              (can_use-unconfigured db (master_step-next _ background ctx used))
        | inr m ↦
            let used : token_step background (get_token_by_hash (hash (trim_space key)) db).0
                ≡ next ctx =
              rw (p, q, m) at e in
            let (t, found, a) = token_step-next _ ctx used in
            let f = find-some _ db.tokens t (get_token-found _ db t found) in
            by_token t f.1 ((eq_iff t.key_hash (hash (trim_space key))).0 f.0) (ground arith)
      ]
    ]
  ]

  after_admin-SameTables :
      (c : Call) (ctx : Context) (s : State)
      → is_admin_from_context ctx ≡ false
      → let s' = (after_admin hash bootstrap c (require_admin ctx) s).1 in
        SameTables s.db s'.db × (s'.log_level ≡ s.log_level)
  unfolding require_admin
  after_admin-SameTables c ctx s e = rw e ((refl, refl, refl, refl), refl)

  -- Without admin rights, whoami alone is served.
  route-SameTables :
      (c : Call) (ctx : Context) (s : State)
      → is_admin_from_context ctx ≡ false
      → let s' = (route hash bootstrap c ctx s).1 in
        SameTables s.db s'.db × (s'.log_level ≡ s.log_level)
  unfolding route
  route-SameTables get_whoami ctx s e =
      (handle_whoami-keeps (SameTables s.db) (λ d h. h) ctx s.db (refl, refl, refl, refl), refl)
  route-SameTables c ctx s e = after_admin-SameTables c ctx s e

  -- A call of the API leaves the tables, their counters and the log level as they are, or its key has
  -- admin rights: it is that of a stored admin token, or the master key while there is none.
  pub serve-IsAdminKey :
      (key : String) (c : Call) (s : State)
      → let s' = (serve hash bootstrap key c s).1 in
        (SameTables s.db s'.db × (s'.log_level ≡ s.log_level)) ⊎ IsAdminKey hash bootstrap key s.db
  unfolding serve
  serve-IsAdminKey key c s = go step.0 refl
    where
      step : Step × Db
      step = token_auth hash bootstrap key background s.db

      left : SameTables s.db step.1
      left =
          token_auth-keeps (SameTables s.db) (λ d h. h) hash bootstrap key background s.db
            (refl, refl, refl, refl)

      go :
          (x : Step)
          → step.0 ≡ x
          → let s' = (after_auth hash bootstrap c x (record s { db = step.1 })).1 in
            (SameTables s.db s'.db × (s'.log_level ≡ s.log_level))
            ⊎ IsAdminKey hash bootstrap key s.db
      go (answer r) e = inl (left, refl)
      go (next ctx) e = elim (Bool-cases (is_admin_from_context ctx)) [
        | inl a ↦ inr (token_auth-IsAdminKey key s.db ctx e a)
        | inr a ↦
            let ((p, q, u, v), l) = route-SameTables c ctx (record s { db = step.1 }) a in
            let (p', q', u', v') = left in inl ((p ∙ p', q ∙ q', u ∙ u', v ∙ v'), l)
      ]
