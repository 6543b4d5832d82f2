-- ===== src/Admin/Server/Keeps.antt =====
-- What the handlers of the admin API leave behind, for any property of databases that the
-- statements keep: one rule for the shape of the handlers, then one lemma for each handler.
use bunny_api_proxy.Base.{
  ℕ, ℤ, ◌≡◌, refl, String, ◌==◌, Bool, true, false, not, Option, none, some, List, Option-cases,
  inl, inr, if◌then◌else◌, is_not_pos,
}
use bunny_api_proxy.Storage.Types.{Token, Permission, Error, Result, ok, err}
use bunny_api_proxy.Storage.Db.{Db, Op, advance}
use bunny_api_proxy.Storage.Tokens.{
  get_token_by_hash, get_token_by_id, list_tokens, has_any_admin_token,
}
use bunny_api_proxy.Storage.Permissions.{
  add_permission_for_token, remove_permission_for_token, get_permissions_for_token, is_empty,
}
use bunny_api_proxy.Storage.Reads.{
  get_token_by_hash-reads, get_token_by_id-reads, list_tokens-reads, has_any_admin_token-reads,
  get_permissions_for_token-reads,
}
use bunny_api_proxy.Auth.Context.{Context, is_admin_from_context}
use bunny_api_proxy.Auth.Bootstrap.{
  BootstrapService, BootstrapState, unconfigured, configured, get_state, can_use_master_key,
}
use bunny_api_proxy.Go.ParseInt.{parse_int}
use bunny_api_proxy.Go.Trim.{trim_space}
use bunny_api_proxy.Admin.Types.{Response, Handler, call, finish}
use bunny_api_proxy.Admin.Access.{token_auth, is_bootstrap_key}
use bunny_api_proxy.Admin.Handlers.{
  AddPermissionRequest, with_id, handle_whoami, handle_list_unified_tokens,
  handle_get_unified_token, handle_add_token_permission, handle_delete_token_permission, whoami_of,
  detail_of, add_decoded,
}
use bunny_api_proxy.Admin.Create.{
  CreateTokenRequest, generate, validate_scoped, in_state, check_state, handle_create_unified_token,
}

module _ (P : Db → Type 0) where
  finish-keeps {ℓ} :
      {A : Type ℓ} (r : Result A) (k : A → Handler) (refuse : Error → Response) (db : Db)
      → P db
      → ((a : A) → r ≡ ok a → P (k a db).1)
      → P (finish r k refuse db).1
  finish-keeps (ok a) k refuse db h f = f a refl
  finish-keeps (err e) k refuse db h f = h

  pub call-keeps {ℓ} :
      {A : Type ℓ} (op : Op A) (k : A → Handler) (refuse : Error → Response) (db : Db)
      → P (op db).1
      → ((a : A) → (op db).0 ≡ ok a → P (k a (op db).1).1)
      → P (call op k refuse db).1
  unfolding call
  call-keeps op k refuse db h f = finish-keeps (op db).0 k refuse (op db).1 h f

  pub if-keeps {ℓ} :
      {A : Type ℓ} (b : Bool) (x y : A × Db)
      → (b ≡ true → P x.1)
      → (b ≡ false → P y.1)
      → P (if b then x else y).1
  if-keeps true x y h k = h refl
  if-keeps false x y h k = k refl

  pub with_id-keeps :
      (text message hint : String) (k : ℤ → Handler) (db : Db)
      → P db
      → ((id : ℤ) → P (k id db).1)
      → P (with_id text message hint k db).1
  unfolding with_id
  with_id-keeps text message hint k db h f = elim (Option-cases (parse_int text)) [
    | inl e ↦ rw (e, with_id) h
    | inr (id, e) ↦ rw (e, with_id) (f id)
  ]

  -- A property that the statements which only read, or only fail, keep.
  module _ (advances : (db : Db) → P db → P (advance db)) where
    reads {ℓ} : {A : Type ℓ} (op : Op A) (db : Db) → (op db).1 ≡ advance db → P db → P (op db).1
    reads op db e h = rw e (advances db h)

    get_state-keeps : (db : Db) → P db → P (get_state db).1
    unfolding get_state
    get_state-keeps db h = reads has_any_admin_token db (has_any_admin_token-reads db) h

    pub token_auth-keeps :
        (hash : String → String) (bootstrap : Option BootstrapService) (key : String)
        (ctx : Context) (db : Db)
        → P db
        → P (token_auth hash bootstrap key ctx db).1
    unfolding token_auth can_use_master_key
    token_auth-keeps hash bootstrap key ctx db h =
        let token = trim_space key in
        if-keeps (key == "") _ _ (λ _. h)
          (λ _.
            if-keeps (token == "") _ _ (λ _. h)
              (λ _.
                if-keeps (is_bootstrap_key hash bootstrap token) _ _ (λ _. get_state-keeps db h)
                  (λ _.
                    reads (get_token_by_hash (hash token)) db
                      (get_token_by_hash-reads db (hash token)) h)))

    pub handle_whoami-keeps : (ctx : Context) (db : Db) → P db → P (handle_whoami ctx db).1
    unfolding handle_whoami
    handle_whoami-keeps ctx db h = of_token ctx.token
      where
        of_token : (o : Option Token) → P (whoami_of ctx o db).1
        of_token none = h
        of_token (some t) =
            let op = get_permissions_for_token t.id in
            let left = reads op db (get_permissions_for_token-reads db t.id) h in
            if-keeps (not t.is_admin) _ _ (λ _. call-keeps op _ _ db left (λ _ _. left)) (λ _. h)

    pub handle_list-keeps : (db : Db) → P db → P (handle_list_unified_tokens db).1
    unfolding handle_list_unified_tokens
    handle_list-keeps db h =
        let left = reads list_tokens db (list_tokens-reads db) h in
        call-keeps list_tokens _ _ db left (λ _ _. left)

    detail_of-keeps : (t : Token) (db : Db) → P db → P (detail_of t db).1
    detail_of-keeps t db h =
        let op = get_permissions_for_token t.id in
        let left = reads op db (get_permissions_for_token-reads db t.id) h in
        if-keeps (not t.is_admin) _ _ (λ _. call-keeps op _ _ db left (λ _ _. left)) (λ _. h)

    pub handle_get-keeps : (id : String) (db : Db) → P db → P (handle_get_unified_token id db).1
    unfolding handle_get_unified_token
    handle_get-keeps id_text db h = with_id-keeps id_text _ _ _ db h λ id.
        let left = reads (get_token_by_id id) db (get_token_by_id-reads db id) h in
        call-keeps (get_token_by_id id) _ _ db left (λ t _. detail_of-keeps t _ left)

    module _
        (adds : (id : ℤ) (perm : Permission) (db : Db)
          → P db
          → P (add_permission_for_token id perm db).1) where
      add_decoded-keeps :
          (id : ℤ) (body : Option AddPermissionRequest) (db : Db)
          → P db
          → P (add_decoded id body db).1
      add_decoded-keeps id none db h = h
      add_decoded-keeps id (some req) db h =
          if-keeps (is_not_pos req.zone_id) _ _ (λ _. h)
            (λ _.
              if-keeps (is_empty req.allowed_actions) _ _ (λ _. h)
                (λ _.
                  if-keeps (is_empty req.record_types) _ _ (λ _. h)
                    (λ _. call-keeps _ _ _ db (adds id _ db h) (λ _ _. adds id _ db h))))

      pub handle_add-keeps :
          (id : String) (body : Option AddPermissionRequest) (db : Db)
          → P db
          → P (handle_add_token_permission id body db).1
      unfolding handle_add_token_permission
      handle_add-keeps id_text body db h = with_id-keeps id_text _ _ _ db h λ id.
          let left = reads (get_token_by_id id) db (get_token_by_id-reads db id) h in
          call-keeps (get_token_by_id id) _ _ db left
            (λ t _. if-keeps t.is_admin _ _ (λ _. left) (λ _. add_decoded-keeps id body _ left))

    pub handle_delete_permission-keeps :
        ((token_id perm_id : ℤ) (db : Db)
          → P db
          → P (remove_permission_for_token token_id perm_id db).1)
        → (id pid : String) (db : Db) → P db
        → P (handle_delete_token_permission id pid db).1
    unfolding handle_delete_token_permission
    handle_delete_permission-keeps removes id_text pid_text db h =
        with_id-keeps id_text _ _ _ db h λ id. with_id-keeps pid_text _ _ _ db h λ pid.
          let left = reads (get_token_by_id id) db (get_token_by_id-reads db id) h in
          let gone = removes id pid (get_token_by_id id db).1 left in
          call-keeps (get_token_by_id id) _ _ db left
            (λ _ _. call-keeps (remove_permission_for_token id pid) _ _ _ gone (λ _ _. gone))

    -- The parts of `HandleCreateUnifiedToken` before the token is created.
    module _ (hash : String → String) (random : Option (List ℕ)) (ctx : Context)
        (req : CreateTokenRequest)
        (generates : (db : Db) → P db → P (generate hash random req db).1) where
      validate_scoped-keeps : (db : Db) → P db → P (validate_scoped hash random req db).1
      validate_scoped-keeps db h =
          if-keeps req.is_admin _ _ (λ _. generates db h)
            (λ _.
              if-keeps (is_empty req.zones) _ _ (λ _. h)
                (λ _.
                  if-keeps (is_empty req.actions) _ _ (λ _. h)
                    (λ _. if-keeps (is_empty req.record_types) _ _ (λ _. h) (λ _. generates db h))))

      in_state-keeps :
          (state : BootstrapState) (db : Db) → P db → P (in_state hash random ctx req state db).1
      in_state-keeps unconfigured db h =
          if-keeps (not req.is_admin) _ _ (λ _. h) (λ _. validate_scoped-keeps db h)
      in_state-keeps configured db h =
          if-keeps (not (is_admin_from_context ctx)) _ _ (λ _. h) (λ _. validate_scoped-keeps db h)

      check_state-keeps :
          (bootstrap : Option BootstrapService) (db : Db)
          → P db
          → P (check_state hash bootstrap random ctx req db).1
      check_state-keeps none db h = validate_scoped-keeps db h
      check_state-keeps (some b) db h =
          call-keeps get_state _ _ db (get_state-keeps db h)
            (λ state _. in_state-keeps state _ (get_state-keeps db h))

    pub handle_create-keeps :
        (hash : String → String)
        → ((random : Option (List ℕ)) (req : CreateTokenRequest) (db : Db)
            → P db
            → P (generate hash random req db).1)
        → (bootstrap : Option BootstrapService) (random : Option (List ℕ)) (ctx : Context)
          (body : Option CreateTokenRequest) (db : Db)
        → P db
        → P (handle_create_unified_token hash bootstrap random ctx body db).1
    unfolding handle_create_unified_token
    handle_create-keeps hash generates bootstrap random ctx none db h = h
    handle_create-keeps hash generates bootstrap random ctx (some req) db h =
        if-keeps (req.name == "") _ _ (λ _. h)
          (λ _. check_state-keeps hash random ctx req (generates random req) bootstrap db h)
