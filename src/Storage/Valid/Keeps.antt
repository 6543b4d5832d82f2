-- ===== src/Storage/Valid/Keeps.antt =====
-- The well-formedness after each operation of the store (internal/storage/tokens.go).
use bunny_api_proxy.Base.{
  ℕ, ◌+◌, ℤ, pos, negsuc, ◌==ℤ◌, ==ℤ_iff, ◌≡◌, ◌≢◌, String, eq_iff, Bool, true, false, not, List,
  [], ◌∷◌, inl, inr, arith, any, any-false, any-append, any-select, select, All, All-mono,
  All-append, All-select, Unique-select, Unique-append, Bool-cases,
}
use bunny_api_proxy.Storage.Types.{Token, Permission}
use bunny_api_proxy.Storage.Db.{Db, advance}
use bunny_api_proxy.Storage.Tokens.{
  has_id, has_hash, new_token, insert_token, create_token, delete_rows, delete_token,
}
use bunny_api_proxy.Storage.Permissions.{
  rejects, new_permission, insert_permission, add_permission_for_token, delete_permissions,
  remove_permission, remove_permission_for_token,
}
use bunny_api_proxy.Storage.Leaves.{
  create_token-leaves, delete_token-leaves, add_permission-leaves, delete_permissions-leaves,
}
use bunny_api_proxy.Storage.Valid.{IsRowId, IsValid, token_id, token_hash, permission_id}

pub IsRowId-fresh : (n : ℕ) (k : ℤ) → IsRowId n k → k ≢ pos (n + 1)
IsRowId-fresh n (pos k) h e = ground arith
IsRowId-fresh n (negsuc k) h e = absurd h

IsRowId-mono : (n : ℕ) (k : ℤ) → IsRowId n k → IsRowId (n + 1) k
IsRowId-mono n (pos k) h = omega arith
IsRowId-mono n (negsuc k) h = absurd h

-- The rows that fail the test for a hash have other hashes.
ne_of_has_hash : (h : String) (t : Token) → has_hash h t ≡ false → t.key_hash ≢ h
ne_of_has_hash h t e p = ground (arith, eq_iff t.key_hash h)

pub insert_token-IsValid :
    (name : String) (is_admin : Bool) (h : String) (db : Db)
    → any (has_hash h) db.tokens ≡ false
    → IsValid db
    → IsValid (insert_token (new_token name is_admin h db) db)
unfolding insert_token
insert_token-IsValid name is_admin h db free v =
    let t : Token = new_token name is_admin h db in
    record {
      ids =
          Unique-append token_id db.tokens t v.ids
            (All-mono _ _ db.tokens (λ x. IsRowId-fresh db.token_seq x.id) v.issued);
      hashes =
          Unique-append token_hash db.tokens t v.hashes
            (All-mono _ _ db.tokens (ne_of_has_hash h) (any-false (has_hash h) db.tokens free));
      issued =
          All-append _ db.tokens (t ∷ [])
            (All-mono _ _ db.tokens (λ x. IsRowId-mono db.token_seq x.id) v.issued)
            ((omega arith, omega arith), tt);
      permission_ids = v.permission_ids;
      permission_issued = v.permission_issued;
      owned =
          All-mono _ _ db.permissions (λ p. any-append (has_id p.token_id) db.tokens (t ∷ []))
            v.owned;
      checked = v.checked;
    }

-- A permission of another token still has its owner.
owned_elsewhere :
    (id : ℤ) (ts : List Token) (p : Permission)
    → not (p.token_id ==ℤ id) ≡ true
    → any (has_id p.token_id) ts ≡ true
    → any (has_id p.token_id) (select (λ t. not (has_id id t)) ts) ≡ true
owned_elsewhere id ts p other h =
    any-select (has_id p.token_id) (λ t. not (has_id id t)) ts h
      λ t e. ground (arith, ==ℤ_iff t.id p.token_id, ==ℤ_iff t.id id, ==ℤ_iff p.token_id id)

owned-delete :
    (id : ℤ) (ts : List Token) (ps : List Permission)
    → All (λ p. any (has_id p.token_id) ts ≡ true) ps
    → All
        (λ p. any (has_id p.token_id) (select (λ t. not (has_id id t)) ts) ≡ true)
        (select (λ p. not (p.token_id ==ℤ id)) ps)
owned-delete id ts [] h = tt
owned-delete id ts (p ∷ ps) (q, h) = elim (Bool-cases (not (p.token_id ==ℤ id))) [
  | inl e ↦ rw e (owned_elsewhere id ts p e q, owned-delete id ts ps h)
  | inr e ↦ rw e (owned-delete id ts ps h)
]

pub delete_rows-IsValid : (id : ℤ) (db : Db) → IsValid db → IsValid (delete_rows id db)
unfolding delete_rows
delete_rows-IsValid id db v = record {
  ids = Unique-select token_id _ db.tokens v.ids;
  hashes = Unique-select token_hash _ db.tokens v.hashes;
  issued = All-select _ _ db.tokens v.issued;
  permission_ids = Unique-select permission_id _ db.permissions v.permission_ids;
  permission_issued = All-select _ _ db.permissions v.permission_issued;
  owned = owned-delete id db.tokens db.permissions v.owned;
  checked = All-select _ _ db.permissions v.checked;
}

pub insert_permission-IsValid :
    (id : ℤ) (perm : Permission) (db : Db)
    → rejects perm ≡ false
    → any (has_id id) db.tokens ≡ true
    → IsValid db
    → IsValid (insert_permission (new_permission id perm db) db)
unfolding insert_permission
insert_permission-IsValid id perm db good known v =
    let p : Permission = record (new_permission id perm db) { created_at = db.now } in
    record {
      ids = v.ids;
      hashes = v.hashes;
      issued = v.issued;
      permission_ids = Unique-append permission_id db.permissions p v.permission_ids (
          All-mono _ _ db.permissions (λ x. IsRowId-fresh db.permission_seq x.id)
            v.permission_issued);
      permission_issued =
          All-append _ db.permissions (p ∷ [])
            (All-mono _ _ db.permissions (λ x. IsRowId-mono db.permission_seq x.id)
              v.permission_issued)
            ((omega arith, omega arith), tt);
      owned = All-append _ db.permissions (p ∷ []) v.owned (known, tt);
      checked = All-append _ db.permissions (p ∷ []) v.checked (good, tt);
    }

pub advance-IsValid : (db : Db) → IsValid db → IsValid (advance db)
advance-IsValid db v = record {
  ids = v.ids;
  hashes = v.hashes;
  issued = v.issued;
  permission_ids = v.permission_ids;
  permission_issued = v.permission_issued;
  owned = v.owned;
  checked = v.checked;
}

select_permissions-IsValid :
    (keep : Permission → Bool) (db : Db)
    → IsValid db
    → IsValid (record db { permissions = select keep db.permissions })
select_permissions-IsValid keep db v = record {
  ids = v.ids;
  hashes = v.hashes;
  issued = v.issued;
  permission_ids = Unique-select permission_id keep db.permissions v.permission_ids;
  permission_issued = All-select _ keep db.permissions v.permission_issued;
  owned = All-select _ keep db.permissions v.owned;
  checked = All-select _ keep db.permissions v.checked;
}

module _ (db : Db) (v : IsValid db) where
  pub create_token-IsValid :
      (name : String) (is_admin : Bool) (h : String) → IsValid (create_token name is_admin h db).1
  create_token-IsValid name is_admin h =
      create_token-leaves IsValid db name is_admin h (advance-IsValid db v)
        λ free. insert_token-IsValid name is_admin h (advance db) free (advance-IsValid db v)

  pub delete_token-IsValid : (id : ℤ) → IsValid (delete_token id db).1
  delete_token-IsValid id =
      delete_token-leaves IsValid db id (advance-IsValid db v)
        (delete_rows-IsValid id (advance db) (advance-IsValid db v))

  pub add_permission-IsValid :
      (id : ℤ) (perm : Permission) → IsValid (add_permission_for_token id perm db).1
  add_permission-IsValid id perm =
      add_permission-leaves IsValid db id perm v (advance-IsValid db v) λ good known.
        insert_permission-IsValid id perm (advance db) good known (advance-IsValid db v)

  delete_permissions-IsValid : (at : Permission → Bool) → IsValid (delete_permissions at db).1
  delete_permissions-IsValid at =
      delete_permissions-leaves IsValid db at (advance-IsValid db v)
        (select_permissions-IsValid _ (advance db) (advance-IsValid db v))

  pub remove_permission-IsValid : (id : ℤ) → IsValid (remove_permission id db).1
  unfolding remove_permission
  remove_permission-IsValid id = delete_permissions-IsValid _

  pub remove_permission_for_token-IsValid :
      (token_id perm_id : ℤ) → IsValid (remove_permission_for_token token_id perm_id db).1
  unfolding remove_permission_for_token
  remove_permission_for_token-IsValid token_id perm_id = delete_permissions-IsValid _
