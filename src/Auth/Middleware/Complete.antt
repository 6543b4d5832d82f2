-- ===== src/Auth/Middleware/Complete.antt =====
-- A key that may pass the chain of cmd/bunny-api-proxy/main.go does pass it.
use bunny_api_proxy.Base.{
  String, ◌==◌, eq_iff, ◌≡◌, ◌≢◌, refl, sym, ap, ◌∙◌, true, false, some, [], inl, inr, arith,
  Option-cases, find, find-some, find-none, select, Member, All-Member, Unique-eq,
}
use bunny_api_proxy.Base.Sort.{order_by}
use bunny_api_proxy.Storage.Types.{Token, Result, ok}
use bunny_api_proxy.Storage.Db.{Db, head_outcome, tail_outcome, advance, query}
use bunny_api_proxy.Storage.Tokens.{has_hash, or_not_found, get_token_by_hash}
use bunny_api_proxy.Storage.Permissions.{belongs_to, older, read_rows, get_permissions_for_token}
use bunny_api_proxy.Storage.Valid.{IsValid}
use bunny_api_proxy.Auth.Types.{HttpRequest, Request, is_admin_only}
use bunny_api_proxy.Auth.Check.{check_permission}
use bunny_api_proxy.Auth.Check.Laws.{Permitted, check_permission_iff}
use bunny_api_proxy.Auth.Parse.{parsed, parse_request}
use bunny_api_proxy.Auth.Context.{Context, background}
use bunny_api_proxy.Auth.Bootstrap.{BootstrapService, validate_master_key}
use bunny_api_proxy.Auth.Middleware.{
  Step, deny, next, then_check, extract_access_key, admit_token, authenticate_token, authenticate,
  check_permissions, proxy_auth_chain, key_info_of,
}
use bunny_api_proxy.Auth.Middleware.Laws.{stored_permissions, token_context}

pub advance_calm : (db : Db) → db.outcomes ≡ [] → advance db ≡ db
advance_calm db calm = ap (λ os. record db { outcomes = os }) (ap tail_outcome calm ∙ sym calm)

query-calm : {A : Type 0} (f : Db → Result A) (db : Db) → db.outcomes ≡ [] → query f db ≡ (f db, db)
query-calm f db calm =
    let works_now : query f db ≡ (f db, advance db) = rw (ap head_outcome calm, query) refl in
    works_now ∙ ap (λ d. (f db, d)) (advance_calm db calm)

-- A stored token is the one that is found by its hash.
find-stored :
    (t : Token) (h : String) (db : Db)
    → IsValid db
    → Member t db.tokens
    → t.key_hash ≡ h
    → find (has_hash h) db.tokens ≡ some t
find-stored t h db v stored key = elim (Option-cases (find (has_hash h) db.tokens)) [
  | inl e ↦
      let no : (t.key_hash == h) ≡ false =
        All-Member _ db.tokens t (find-none (has_hash h) db.tokens e) stored in
      absurd (ground (arith, (eq_iff t.key_hash h).1 key))
  | inr (u, e) ↦
      let (same, found) = find-some (has_hash h) db.tokens u e in
      e
      ∙ ap some (
          Unique-eq (λ (x : Token). x.key_hash) db.tokens u t v.hashes found stored
            ((eq_iff u.key_hash h).0 same ∙ sym key))
]

then_check-next_of :
    (r : HttpRequest) (s : Step × Db) (ctx : Context)
    → s.0 ≡ next ctx
    → (then_check r s).0 ≡ check_permissions r ctx
then_check-next_of r (deny status body, db) ctx e = ground (arith, e)
then_check-next_of r (next c, db) ctx e = ap (check_permissions r) (same e)
  where
    same : next c ≡ next ctx → c ≡ ctx
    same h = cc

module _ (hash : String → String) (b : BootstrapService) (r : HttpRequest) (db : Db) (t : Token)
    (v : IsValid db) (calm : db.outcomes ≡ []) (scoped : t.is_admin ≡ false) where
  abbrev scoped_context : Context
  scoped_context = token_context t (some (stored_permissions t db))

  admit_token-next : (admit_token background t db).0 ≡ next scoped_context
  unfolding admit_token get_permissions_for_token
  admit_token-next =
      let loaded =
        query-calm (λ d. ok (read_rows (order_by older (select (belongs_to t.id) d.permissions))))
          db calm in
      ground (arith, scoped, ap (λ x. x.0) loaded)

  module _ (stored : Member t db.tokens) (key : t.key_hash ≡ hash (extract_access_key r))
      (given : (extract_access_key r == "") ≡ false)
      (not_master : hash (extract_access_key r) ≢ b.master_key_hash) where
    authenticate-next : (authenticate hash b r background db).0 ≡ next scoped_context
    unfolding authenticate authenticate_token validate_master_key get_token_by_hash
    authenticate-next =
        let h = hash (extract_access_key r) in
        let found : get_token_by_hash h db ≡ (ok t, db) =
          query-calm (λ d. or_not_found (find (has_hash h) d.tokens)) db calm
          ∙ ap (λ o. (or_not_found o, db)) (find-stored t h db v stored key) in
        let other : (h == b.master_key_hash) ≡ false =
          ground (arith, eq_iff h b.master_key_hash, not_master) in
        rw (given, other, found, authenticate, authenticate_token, validate_master_key)
          admit_token-next

    -- A request with the key of a stored, scoped token reaches the handler, with the token and its stored
    -- permissions in its context, whenever these permissions let through what the path and the body
    -- ask for and the action is not reserved for admins. The database is well-formed, the driver's
    -- statements work, and the key is not empty nor the master key.
    pub proxy_auth_chain-next :
        (q : Request)
        → parse_request r ≡ parsed q
        → is_admin_only q.action ≡ false
        → Permitted (stored_permissions t db) q
        → (proxy_auth_chain hash b r background db).0 ≡ next scoped_context
    unfolding proxy_auth_chain check_permissions
    proxy_auth_chain-next q parse free permitted =
        let ps = stored_permissions t db in
        let allowed : check_permission (key_info_of (some t) ps) q ≡ true =
          (check_permission_iff (key_info_of (some t) ps) q).1 permitted in
        then_check-next_of r (authenticate hash b r background db) scoped_context authenticate-next
        ∙ ground (arith, scoped, parse, free, allowed)
