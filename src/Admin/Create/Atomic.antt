-- ===== src/Admin/Create/Atomic.antt =====
-- What `HandleCreateUnifiedToken` (internal/admin/api.go) does to the tables while the driver's
-- statements work.
use bunny_api_proxy.Base.{
  ℕ, ◌+◌, ℤ, pos, ==ℤ_iff, ◌≡◌, ◌≢◌, refl, sym, ap, ◌∙◌, subst, String, ◌==◌, Bool, true, false,
  not, Option, none, some, List, [], ◌∷◌, ◌++◌, inl, inr, Bool-cases, any, All, All-mono,
  All-Member, if◌then◌else◌, if-elim, ◌==ℕ◌, any-true, Member, ==ℤ_refl, any_of_Member,
}
use bunny_api_proxy.Storage.Types.{Token, Permission, err_duplicate, Result, ok, err}
use bunny_api_proxy.Storage.Db.{Db, advance, head_outcome, tail_outcome}
use bunny_api_proxy.Storage.Tokens.{has_hash, has_id, new_token, insert_token, create_token}
use bunny_api_proxy.Storage.Permissions.{is_empty}
use bunny_api_proxy.Storage.Reads.{has_any_admin_token-reads}
use bunny_api_proxy.Storage.Valid.{IsValid}
use bunny_api_proxy.Storage.Valid.Keeps.{IsRowId-fresh}
use bunny_api_proxy.Auth.Context.{Context, is_admin_from_context}
use bunny_api_proxy.Auth.Bootstrap.{
  BootstrapService, BootstrapState, unconfigured, configured, get_state,
}
use bunny_api_proxy.Admin.Types.{Response, call, finish, internal_error}
use bunny_api_proxy.Admin.Create.{
  CreateTokenRequest, hex_encode, created_response, after_zones, after_create, create_refused,
  generate, validate_scoped, in_state, check_state, handle_create_unified_token,
}
use bunny_api_proxy.Admin.Create.Zones.{
  zone_rows, Ended, all, some_rows, Calm, add_zones-Ended, delete_token-fresh, append_nil,
}

-- The rows that a created token has.
abbrev pub granted : CreateTokenRequest → Db → List Permission
granted req db =
    if req.is_admin
    then []
    else zone_rows (pos (db.token_seq + 1)) req db.now db.permission_seq req.zones

-- The row of the token whose key is the hex text of the random bytes.
abbrev pub created_row : (String → String) → CreateTokenRequest → List ℕ → Db → Token
created_row hash req bytes db = new_token req.name req.is_admin (hash (hex_encode bytes)) db

-- What the handler has done: refused with the tables as before, or answered 201 and added the token
-- with its hash and the rows of its zones, and nothing else.
pub data Effect (hash : String → String) (random : Option (List ℕ))
    (body : Option CreateTokenRequest) (db : Db) (r : Response) (db' : Db) : Type 0 where
  refused :
      (r.status ==ℕ 201) ≡ false
      → db'.tokens ≡ db.tokens
      → db'.permissions ≡ db.permissions
      → Effect hash random body db r db'
  done :
      (req : CreateTokenRequest) (bytes : List ℕ)
      → body ≡ some req
      → random ≡ some bytes
      → r ≡ created_response req (hex_encode bytes) (created_row hash req bytes db)
      → db'.tokens ≡ db.tokens ++ created_row hash req bytes db ∷ []
      → db'.permissions ≡ db.permissions ++ granted req db
      → Effect hash random body db r db'

advance_same : (db : Db) → db.outcomes ≡ [] → advance db ≡ db
advance_same db o = ap (λ os. record db { outcomes = os }) (ap tail_outcome o ∙ sym o)

create_token-duplicate :
    (name : String) (is_admin : Bool) (h : String) (db : Db)
    → db.outcomes ≡ []
    → any (has_hash h) db.tokens ≡ true
    → create_token name is_admin h db ≡ (err err_duplicate, advance db)
unfolding create_token
create_token-duplicate name is_admin h db o e = rw (ap head_outcome o, e, create_token) refl

create_token-works :
    (name : String) (is_admin : Bool) (h : String) (db : Db)
    → db.outcomes ≡ []
    → any (has_hash h) db.tokens ≡ false
    → let t = new_token name is_admin h db in
      create_token name is_admin h db
      ≡ (ok (record t { created_at = 0 }), insert_token t (advance db))
unfolding create_token
create_token-works name is_admin h db o e = rw (ap head_outcome o, e, create_token) refl

is_empty-nil : (l : List ℤ) → is_empty l ≡ true → l ≡ []
is_empty-nil [] e = refl
is_empty-nil (x ∷ l) e = cc

-- No permission is owned by a fresh id.
pub unowned : (db : Db) → IsValid db → All (λ p. p.token_id ≢ pos (db.token_seq + 1)) db.permissions
unowned db v = All-mono _ _ db.permissions other v.owned
  where
    other :
        (p : Permission)
        → any (has_id p.token_id) db.tokens ≡ true
        → p.token_id ≢ pos (db.token_seq + 1)
    other p a e =
        let (t, m, h) = any-true (has_id p.token_id) db.tokens a in
        let k = All-Member _ db.tokens t v.issued m in
        IsRowId-fresh db.token_seq t.id k ((==ℤ_iff t.id p.token_id).0 h ∙ e)

module _ (hash : String → String) (db : Db) (v : IsValid db) (calm : db.outcomes ≡ []) where
  module _ (req : CreateTokenRequest) (bytes : List ℕ) where
    abbrev made : Token
    made = new_token req.name req.is_admin (hash (hex_encode bytes)) db

    abbrev Made : Response × Db → Type 0
    Made x = Effect hash (some bytes) (some req) db x.0 x.1

    granted_scoped :
        req.is_admin ≡ false
        → granted req db ≡ zone_rows made.id req db.now db.permission_seq req.zones
    granted_scoped scoped = rw scoped refl

    after_zones-Made :
        (r : Result (Unit {0})) (db' : Db)
        → req.is_admin ≡ false
        → Ended made.id req req.zones (insert_token made (advance db)) r db'
        → Calm (insert_token made (advance db)) db'
        → Made (after_zones req (hex_encode bytes) (record made { created_at = 0 }) r db')
    unfolding insert_token
    after_zones-Made r db' scoped (all e p) (q, o) = rw e (
        done req bytes refl refl refl q
          (p ∙ ap (λ l. db.permissions ++ l) (sym (granted_scoped scoped))))
    after_zones-Made r db' scoped (some_rows extra e of p) (q, o) =
        let (ts, ps) =
          delete_token-fresh made db.tokens db.permissions extra db' o
            (All-mono _ _ db.tokens (λ t. IsRowId-fresh db.token_seq t.id) v.issued) (unowned db v)
            of q p in
        rw e (refused refl ts ps)

    made_exists : any (has_id made.id) (insert_token made (advance db)).tokens ≡ true
    unfolding insert_token
    made_exists = any_of_Member (has_id made.id) _ made (last db.tokens) (==ℤ_refl made.id)
      where
        last : (ts : List Token) → Member made (ts ++ made ∷ [])
        last [] = inl refl
        last (t ∷ ts) = inr (last ts)

    no_rows : granted req db ≡ [] → db.permissions ≡ db.permissions ++ granted req db
    no_rows e = sym (append_nil db.permissions) ∙ ap (λ l. db.permissions ++ l) (sym e)

    after_create-Made : Made (
        after_create req
          (hex_encode bytes)
          (record made { created_at = 0 })
          (insert_token made (advance db)))
    unfolding insert_token
    after_create-Made =
        if-elim Made req.is_admin _ _
          (λ a. done req bytes refl refl refl refl (no_rows (rw a refl)))
          (λ a.
            if-elim Made (is_empty req.zones) _ _
              (λ e.
                let zones = is_empty-nil req.zones e in
                done req bytes refl refl refl refl (
                  no_rows
                    (granted_scoped a ∙ ap (zone_rows made.id req db.now db.permission_seq) zones)))
              (λ _.
                let h =
                  add_zones-Ended made.id req req.zones (insert_token made (advance db))
                    (ap tail_outcome calm) made_exists in
                after_zones-Made _ _ a h.0 h.1))

    create_token-Made : Made (
        call
          (create_token req.name req.is_admin (hash (hex_encode bytes)))
          (after_create req (hex_encode bytes))
          create_refused
          db)
    unfolding call
    create_token-Made =
        let h = hash (hex_encode bytes) in
        elim (Bool-cases (any (has_hash h) db.tokens)) [
          | inl e ↦
              let w = create_token-duplicate req.name req.is_admin h db calm e in
              rw (ap (λ x. x.0) w, ap (λ x. x.1) w) (refused refl refl refl)
          | inr e ↦
              let w = create_token-works req.name req.is_admin h db calm e in
              rw (ap (λ x. x.0) w, ap (λ x. x.1) w) after_create-Made
        ]

  module _ (random : Option (List ℕ)) (ctx : Context) (req : CreateTokenRequest) where
    abbrev Does : Response × Db → Type 0
    Does x = Effect hash random (some req) db x.0 x.1

    generate-Does : Does (generate hash random req db)
    generate-Does = by_source random
      where
        by_source :
            (source : Option (List ℕ))
            → Effect hash source
                (some req)
                db
                (generate hash source req db).0
                (generate hash source req db).1
        by_source none = refused refl refl refl
        by_source (some bytes) = create_token-Made req bytes

    validate_scoped-Does : Does (validate_scoped hash random req db)
    validate_scoped-Does =
        if-elim Does req.is_admin _ _ (λ _. generate-Does)
          (λ _.
            if-elim Does (is_empty req.zones) _ _ (λ _. refused refl refl refl)
              (λ _.
                if-elim Does (is_empty req.actions) _ _ (λ _. refused refl refl refl)
                  (λ _.
                    if-elim Does (is_empty req.record_types) _ _ (λ _. refused refl refl refl)
                      (λ _. generate-Does))))

    in_state-Does : (state : BootstrapState) → Does (in_state hash random ctx req state db)
    in_state-Does unconfigured =
        if-elim Does (not req.is_admin) _ _ (λ _. refused refl refl refl)
          (λ _. validate_scoped-Does)
    in_state-Does configured =
        if-elim Does (not (is_admin_from_context ctx)) _ _ (λ _. refused refl refl refl)
          (λ _. validate_scoped-Does)

    finish-Does :
        (r : Result BootstrapState) (db' : Db)
        → db' ≡ db
        → Does (
            finish r
              (in_state hash random ctx req)
              (λ _. internal_error "Failed to check bootstrap state")
              db')
    finish-Does (ok state) db' e =
        subst (λ (d : Db). Does (in_state hash random ctx req state d)) (sym e)
          (in_state-Does state)
    finish-Does (err x) db' e =
        refused refl (ap (λ (d : Db). d.tokens) e) (ap (λ (d : Db). d.permissions) e)

    check_state-Does :
        (bootstrap : Option BootstrapService) → Does (check_state hash bootstrap random ctx req db)
    unfolding call get_state
    check_state-Does none = validate_scoped-Does
    check_state-Does (some b) =
        finish-Does (get_state db).0 (get_state db).1
          (has_any_admin_token-reads db ∙ advance_same db calm)

-- In a well-formed database, and while the driver's statements work, `HandleCreateUnifiedToken`
-- either refuses, and leaves tokens and permissions as they are, or answers 201 and has added one
-- token, with the hash of the answered key, and for a scoped token one permission for each of its
-- zones.
pub handle_create-Effect :
    (hash : String → String) (bootstrap : Option BootstrapService) (random : Option (List ℕ))
    (ctx : Context) (body : Option CreateTokenRequest) (db : Db)
    → IsValid db
    → db.outcomes ≡ []
    → let (r, db') = handle_create_unified_token hash bootstrap random ctx body db in
      Effect hash random body db r db'
unfolding handle_create_unified_token
handle_create-Effect hash bootstrap random ctx none db v calm = refused refl refl refl
handle_create-Effect hash bootstrap random ctx (some req) db v calm =
    if-elim (λ (x : Response × Db). Effect hash random (some req) db x.0 x.1) (req.name == "") _ _
      (λ _. refused refl refl refl) (λ _. check_state-Does hash db v calm random ctx req bootstrap)
