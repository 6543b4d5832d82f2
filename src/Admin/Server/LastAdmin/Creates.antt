-- ===== src/Admin/Server/LastAdmin/Creates.antt =====
-- The admin tokens after `HandleCreateUnifiedToken` (internal/admin/api.go), whose cleanup deletes the
-- token again.
use bunny_api_proxy.Base.{
  ℕ, ◌+◌, ◌<◌, ℤ, pos, ◌≡◌, refl, String, Bool, false, Option, none, some, List, [], ◌∷◌, inl, inr,
  arith, Bool-cases, All-mono, any, All-append, count, count-append,
}
use bunny_api_proxy.Storage.Types.{Token, Permission, ok}
use bunny_api_proxy.Storage.Db.{Db, Outcome-cases, next, advance}
use bunny_api_proxy.Storage.Tokens.{is_admin_token, new_token, insert_token, create_token, has_hash}
use bunny_api_proxy.Storage.Permissions.{
  insert_permission, add_permission_for_token, remove_permission_for_token,
}
use bunny_api_proxy.Storage.Valid.{IsValid}
use bunny_api_proxy.Storage.Valid.Keeps.{
  IsRowId-fresh, advance-IsValid, create_token-IsValid, add_permission-IsValid,
}
use bunny_api_proxy.Storage.Leaves.{
  create_token-leaves, add_permission-leaves, delete_permissions-leaves,
}
use bunny_api_proxy.Admin.Create.{CreateTokenRequest, hex_encode, after_create, generate}
use bunny_api_proxy.Admin.Server.Keeps.{call-keeps}
use bunny_api_proxy.Admin.Server.Valid.{after_create-keeps}
use bunny_api_proxy.Admin.Server.LastAdmin.Counts.{
  IsNoAdmin, count-select_scoped, HasAdmin, advance-HasAdmin, delete_token-HasAdmin,
}

-- What the creation leaves where it succeeds.
create_token-inserts :
    (name : String) (is_admin : Bool) (h : String) (db : Db) (t : Token)
    → (create_token name is_admin h db).0 ≡ ok t
    → (t.id ≡ pos (db.token_seq + 1))
      × ((create_token name is_admin h db).1
          ≡ insert_token (new_token name is_admin h db) (advance db))
unfolding create_token
create_token-inserts name is_admin h db t e = elim (Outcome-cases (next db)) [
  | inl o ↦ elim (Bool-cases (any (has_hash h) db.tokens)) [
    | inl b ↦ absurd (ground (arith, o, b))
    | inr b ↦ rw (o, b, create_token) (ground (arith, o, b), refl)
  ]
  | inr (inl o) ↦ absurd (ground (arith, o))
  | inr (inr o) ↦ elim (Bool-cases (any (has_hash h) db.tokens)) [
    | inl b ↦ absurd (ground (arith, o, b))
    | inr b ↦ absurd (ground (arith, o, b))
  ]
]

insert_token-HasAdmin :
    (name : String) (is_admin : Bool) (h : String) (db : Db)
    → HasAdmin db
    → 0 < count is_admin_token (insert_token (new_token name is_admin h db) db).tokens
unfolding insert_token
insert_token-HasAdmin name is_admin h db (v, n) =
    let t : Token = new_token name is_admin h db in
    ground (arith, count-append is_admin_token db.tokens (t ∷ []))

create_token-HasAdmin :
    (name : String) (is_admin : Bool) (h : String) (db : Db)
    → HasAdmin db
    → HasAdmin (create_token name is_admin h db).1
create_token-HasAdmin name is_admin h db (v, n) = (
  create_token-IsValid db v name is_admin h,
  create_token-leaves (λ d. 0 < count is_admin_token d.tokens) db name is_admin h n
      (λ _. insert_token-HasAdmin name is_admin h (advance db) (advance-HasAdmin db (v, n))),
)

-- The id of a new scoped token is no admin's.
insert_token-IsNoAdmin :
    (name : String) (h : String) (db : Db)
    → IsValid db
    → IsNoAdmin (pos (db.token_seq + 1)) (insert_token (new_token name false h db) db).tokens
unfolding insert_token
insert_token-IsNoAdmin name h db v =
    All-append _ db.tokens (new_token name false h db ∷ [])
      (All-mono _ _ db.tokens (λ t k _. IsRowId-fresh db.token_seq t.id k) v.issued)
      ((λ e. ground (arith, e)), tt)

-- Permissions leave the tokens alone.
pub add_permission-tokens :
    (Q : List Token → Type 0) (id : ℤ) (perm : Permission) (db : Db)
    → Q db.tokens
    → Q (add_permission_for_token id perm db).1.tokens
unfolding insert_permission
add_permission-tokens Q id perm db h =
    add_permission-leaves (λ d. Q d.tokens) db id perm h h (λ _ _. h)

pub remove_permission-tokens :
    (Q : List Token → Type 0) (id pid : ℤ) (db : Db)
    → Q db.tokens
    → Q (remove_permission_for_token id pid db).1.tokens
unfolding remove_permission_for_token
remove_permission-tokens Q id pid db h = delete_permissions-leaves (λ d. Q d.tokens) db _ h h

pub add_permission-HasAdmin :
    (id : ℤ) (perm : Permission) (db : Db)
    → HasAdmin db
    → HasAdmin (add_permission_for_token id perm db).1
add_permission-HasAdmin id perm db (v, n) = (
  add_permission-IsValid db v id perm,
  add_permission-tokens (λ ts. 0 < count is_admin_token ts) id perm db n,
)

pub generate-HasAdmin :
    (hash : String → String) (random : Option (List ℕ)) (req : CreateTokenRequest) (db : Db)
    → HasAdmin db
    → HasAdmin (generate hash random req db).1
generate-HasAdmin hash none req db h = h
generate-HasAdmin hash (some random) req db h =
    let key_hash = hash (hex_encode random) in
    let op = create_token req.name req.is_admin key_hash in
    let left = create_token-HasAdmin req.name req.is_admin key_hash db h in
    call-keeps HasAdmin op (after_create req (hex_encode random)) _ db left (λ t e.
      after_create-keeps HasAdmin (λ d. HasAdmin d × IsNoAdmin t.id d.tokens) req
        (hex_encode random) t
        (λ perm d (k, o). (
          add_permission-HasAdmin t.id perm d k,
          add_permission-tokens (IsNoAdmin t.id) t.id perm d o,
        ))
        (λ d (k, o). k)
        (λ d (k, o). delete_token-HasAdmin t.id d k (rw (count-select_scoped t.id d.tokens o) k.1))
        _ left (λ scoped. (left, scoped_id t e scoped)))
  where
    scoped_id :
        (t : Token)
        → (create_token req.name req.is_admin (hash (hex_encode random)) db).0 ≡ ok t
        → req.is_admin ≡ false
        → IsNoAdmin t.id (create_token req.name req.is_admin (hash (hex_encode random)) db).1.tokens
    scoped_id t e scoped =
        let key_hash = hash (hex_encode random) in
        let (p, q) = create_token-inserts req.name req.is_admin key_hash db t e in
        rw (p, q, scoped)
          (insert_token-IsNoAdmin req.name key_hash (advance db) (advance-IsValid db h.0))
