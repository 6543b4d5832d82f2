-- ===== src/Auth/Middleware/Laws.antt =====
-- Who passes the authentication, and with what in the context.
use bunny_api_proxy.Base.{
  ◌<◌, String, ◌==◌, eq_iff, ◌≡◌, refl, subst, Bool, true, false, Option, none, some, List, inl,
  inr, arith, Bool-cases, find, find-some, select, count, Member,
}
use bunny_api_proxy.Base.Sort.{order_by}
use bunny_api_proxy.Storage.Types.{Token, Permission, Result, ok, err}
use bunny_api_proxy.Storage.Db.{Db, works, exec_fails, result_fails, Outcome-cases, advance, query}
use bunny_api_proxy.Storage.Db
use bunny_api_proxy.Storage.Tokens.{
  has_hash, is_admin_token, or_not_found, get_token_by_hash, has_any_admin_token,
}
use bunny_api_proxy.Storage.Permissions.{belongs_to, older, read_rows, get_permissions_for_token}
use bunny_api_proxy.Auth.Types.{HttpRequest}
use bunny_api_proxy.Auth.Context.{Context, background, is_master_key_from_context}
use bunny_api_proxy.Auth.Bootstrap.{BootstrapService, validate_master_key}
use bunny_api_proxy.Auth.Middleware.{
  next, extract_access_key, admit_token, token_result, authenticate_token, master_result,
  authenticate,
}

-- The permissions that the store has for a token, as it returns them.
abbrev pub stored_permissions : Token → Db → List Permission
stored_permissions t db = read_rows (order_by older (select (belongs_to t.id) db.permissions))

abbrev pub master_context : Context
master_context = record {
  token = none;
  permissions = none;
  master_key = some true;
  admin = some true;
}

abbrev pub token_context : Token → Option (List Permission) → Context
token_context t perms = record {
  token = some t;
  permissions = perms;
  master_key = some false;
  admin = some t.is_admin;
}

-- Why a key is let in, and the context that it is let in with: the master key while no admin token
-- exists, an admin token, or a scoped token with its permissions.
pub data Admitted (hash : String → String) (b : BootstrapService) (key : String) (db : Db)
    (ctx : Context) : Type 0 where
  by_master :
      hash key ≡ b.master_key_hash
      → count is_admin_token db.tokens ≡ 0
      → ctx ≡ master_context
      → Admitted hash b key db ctx
  by_admin :
      (t : Token)
      → Member t db.tokens
      → t.key_hash ≡ hash key
      → t.is_admin ≡ true
      → ctx ≡ token_context t none
      → Admitted hash b key db ctx
  by_scoped :
      (t : Token)
      → Member t db.tokens
      → t.key_hash ≡ hash key
      → t.is_admin ≡ false
      → ctx ≡ token_context t (some (stored_permissions t db))
      → Admitted hash b key db ctx

module _ {ℓ} {A : Type ℓ} (f : Db → Result A) (db : Db) where
  query-ok : (a : A) → (query f db).0 ≡ ok a → f db ≡ ok a
  query-ok a h = ground (arith, Outcome-cases (Db.next db))

  query-state : (query f db).1 ≡ advance db
  query-state = ground (arith, Outcome-cases (Db.next db))

module _ (hash : String → String) (b : BootstrapService) (key : String) (db : Db) where
  validate-rows :
      ((validate_master_key hash b key db).1.tokens ≡ db.tokens)
      × ((validate_master_key hash b key db).1.permissions ≡ db.permissions)
  unfolding validate_master_key has_any_admin_token
  validate-rows = ground (arith, Outcome-cases (Db.next db))

  -- The master key is valid only if it is the service's and no admin token exists.
  validate-true :
      (validate_master_key hash b key db).0 ≡ ok true
      → (hash key ≡ b.master_key_hash) × (count is_admin_token db.tokens ≡ 0)
  unfolding validate_master_key has_any_admin_token
  validate-true h = ground (arith, Outcome-cases (Db.next db), eq_iff (hash key) b.master_key_hash)

or_not_found-ok : (o : Option Token) (t : Token) → or_not_found o ≡ ok t → o ≡ some t
or_not_found-ok none t e = cc
or_not_found-ok (some u) t e = cc

get_token-found :
    (h : String) (db : Db) (t : Token)
    → (get_token_by_hash h db).0 ≡ ok t
    → Member t db.tokens × (t.key_hash ≡ h)
unfolding get_token_by_hash
get_token-found h db t e =
    let read : Db → Result Token = λ d. or_not_found (find (has_hash h) d.tokens) in
    let f : find (has_hash h) db.tokens ≡ some t = or_not_found-ok _ t (query-ok read db t e) in
    let r = find-some (has_hash h) db.tokens t f in (r.1, (eq_iff t.key_hash h).0 r.0)

admit_token-scoped :
    (t : Token) (db : Db) (ctx : Context)
    → t.is_admin ≡ false
    → (admit_token background t db).0 ≡ next ctx
    → ctx ≡ token_context t (some (stored_permissions t db))
unfolding admit_token get_permissions_for_token
admit_token-scoped t db ctx s e = ground (arith, Outcome-cases (Db.next db))

admit_token-admin :
    (t : Token) (db : Db) (ctx : Context)
    → t.is_admin ≡ true
    → (admit_token background t db).0 ≡ next ctx
    → ctx ≡ token_context t none
unfolding admit_token
admit_token-admin t db ctx s e = ground arith

token_result-ok :
    (r : Result Token) (db : Db) (ctx : Context)
    → (token_result background r db).0 ≡ next ctx
    → (t : Token) × (r ≡ ok t) × ((admit_token background t db).0 ≡ next ctx)
token_result-ok (ok t) db ctx e = (t, refl, e)
token_result-ok (err x) db ctx e = ground arith

module _ (hash : String → String) (b : BootstrapService) (key : String) where
  authenticate_token-Admitted :
      (db : Db) (ctx : Context)
      → (authenticate_token hash b background key db).0 ≡ next ctx
      → Admitted hash b key db ctx
  unfolding authenticate_token
  authenticate_token-Admitted db ctx e =
      let (t, r, admitted) =
        token_result-ok (get_token_by_hash (hash key) db).0 (get_token_by_hash (hash key) db).1 ctx
          e in
      let (m, h) = get_token-found (hash key) db t r in
      let same : (get_token_by_hash (hash key) db).1 ≡ advance db =
        unfold get_token_by_hash in
        query-state (λ d. or_not_found (find (has_hash (hash key)) d.tokens)) db in
      let admitted' : (admit_token background t (advance db)).0 ≡ next ctx =
        subst (λ (d : Db). (admit_token background t d).0 ≡ next ctx) same admitted in
      elim (Bool-cases t.is_admin) [
        | inl a ↦ by_admin t m h a (admit_token-admin t (advance db) ctx a admitted')
        | inr a ↦ by_scoped t m h a (admit_token-scoped t (advance db) ctx a admitted')
      ]

  Admitted-rows :
      (db db' : Db) (ctx : Context)
      → db'.tokens ≡ db.tokens
      → db'.permissions ≡ db.permissions
      → Admitted hash b key db' ctx
      → Admitted hash b key db ctx
  Admitted-rows db db' ctx p q (by_master h n e) = by_master h (rw (← p) n) e
  Admitted-rows db db' ctx p q (by_admin t m h a e) =
      by_admin t (subst (λ (l : List Token). Member t l) p m) h a e
  Admitted-rows db db' ctx p q (by_scoped t m h a e) =
      by_scoped t (subst (λ (l : List Token). Member t l) p m) h a (
        subst
          (λ (l : List Permission).
            ctx ≡ token_context t (some (read_rows (order_by older (select (belongs_to t.id) l)))))
          q e)

  master_result-Admitted :
      (r : Result Bool) (db : Db) (ctx : Context)
      → (r ≡ ok true → (hash key ≡ b.master_key_hash) × (count is_admin_token db.tokens ≡ 0))
      → (master_result hash b background key r db).0 ≡ next ctx
      → Admitted hash b key db ctx
  master_result-Admitted (err x) db ctx m e = ground arith
  master_result-Admitted (ok true) db ctx m e = by_master (m refl).0 (m refl).1 (ground arith)
  master_result-Admitted (ok false) db ctx m e = authenticate_token-Admitted db ctx e

-- A request passes `Authenticate` only with the master key while no admin token exists, or with a
-- key whose hash a stored token has; the context that it passes with marks it as the master key, as
-- that admin token, or as that scoped token with all its stored permissions and no admin rights.
pub authenticate_sound :
    (hash : String → String) (b : BootstrapService) (r : HttpRequest) (db : Db) (ctx : Context)
    → (authenticate hash b r background db).0 ≡ next ctx
    → Admitted hash b (extract_access_key r) db ctx
unfolding authenticate
authenticate_sound hash b r db ctx e = elim (Bool-cases (extract_access_key r == "")) [
  | inl empty ↦ ground arith
  | inr given ↦
      let key = extract_access_key r in
      let v = validate_master_key hash b key db in
      let (p, q) = validate-rows hash b key db in
      let e' : (master_result hash b background key v.0 v.1).0 ≡ next ctx = rw given at e in
      Admitted-rows hash b key db v.1 ctx p q (
        master_result-Admitted hash b key v.0 v.1 ctx
          (λ valid. let m = validate-true hash b key db valid in (m.0, rw p m.1)) e')
]

-- Once an admin token exists, no request passes `Authenticate` as the master key.
pub authenticate-master_locked :
    (hash : String → String) (b : BootstrapService) (r : HttpRequest) (db : Db) (ctx : Context)
    → 0 < count is_admin_token db.tokens
    → (authenticate hash b r background db).0 ≡ next ctx
    → is_master_key_from_context ctx ≡ false
authenticate-master_locked hash b r db ctx some_admin e =
    locked (authenticate_sound hash b r db ctx e)
  where
    locked : Admitted hash b (extract_access_key r) db ctx → is_master_key_from_context ctx ≡ false
    locked (by_master h n c) = absurd (omega arith)
    locked (by_admin t m h a c) = cc
    locked (by_scoped t m h a c) = cc
