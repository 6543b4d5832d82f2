-- ===== src/Storage/Leaves.antt =====
-- The databases that a statement of internal/storage/tokens.go can leave behind.
use bunny_api_proxy.Base.{ℤ, ◌≡◌, String, Bool, true, false, not, inl, inr, any, select, Bool-cases}
use bunny_api_proxy.Storage.Types.{Permission}
use bunny_api_proxy.Storage.Db.{Db, Outcome-cases, next, advance}
use bunny_api_proxy.Storage.Tokens.{
  has_id, has_hash, new_token, insert_token, create_token, delete_rows, delete_token,
}
use bunny_api_proxy.Storage.Permissions.{
  rejects, new_permission, insert_permission, add_permission_for_token, delete_permissions,
}

-- What a statement leaves behind: for any property of databases, the cases to prove it in.
module _ (P : Db → Type 0) (db : Db) where
  pub create_token-leaves :
      (name : String) (is_admin : Bool) (h : String)
      → P (advance db)
      → (any (has_hash h) db.tokens ≡ false
          → P (insert_token (new_token name is_admin h db) (advance db)))
      → P (create_token name is_admin h db).1
  unfolding create_token
  create_token-leaves name is_admin h same inserted = elim (Outcome-cases (next db)) [
    | inr (inl o) ↦ rw (o, create_token) same
    | inl o ↦ elim (Bool-cases (any (has_hash h) db.tokens)) [
      | inl e ↦ rw (o, e, create_token) same
      | inr e ↦ rw (o, e, create_token) (inserted e)
    ]
    | inr (inr o) ↦ elim (Bool-cases (any (has_hash h) db.tokens)) [
      | inl e ↦ rw (o, e, create_token) same
      | inr e ↦ rw (o, e, create_token) (inserted e)
    ]
  ]

  pub delete_token-leaves :
      (id : ℤ) → P (advance db) → P (delete_rows id (advance db)) → P (delete_token id db).1
  unfolding delete_token
  delete_token-leaves id same deleted = elim (Outcome-cases (next db)) [
    | inl o ↦ elim (Bool-cases (any (has_id id) db.tokens)) [
      | inl e ↦ rw (o, e, delete_token) deleted
      | inr e ↦ rw (o, e, delete_token) deleted
    ]
    | inr (inl o) ↦ rw (o, delete_token) same
    | inr (inr o) ↦ rw (o, delete_token) deleted
  ]

  pub add_permission-leaves :
      (id : ℤ) (perm : Permission)
      → P db
      → P (advance db)
      → (rejects perm ≡ false
          → any (has_id id) db.tokens ≡ true
          → P (insert_permission (new_permission id perm db) (advance db)))
      → P (add_permission_for_token id perm db).1
  unfolding add_permission_for_token
  add_permission-leaves id perm untouched same inserted = elim (Bool-cases (rejects perm)) [
    | inl r ↦ rw (r, add_permission_for_token) untouched
    | inr r ↦ elim (Bool-cases (any (has_id id) db.tokens)) [
      | inr a ↦ rw (r, a, add_permission_for_token) same
      | inl a ↦ elim (Outcome-cases (next db)) [
        | inl o ↦ rw (r, a, o, add_permission_for_token) (inserted r a)
        | inr (inl o) ↦ rw (r, a, o, add_permission_for_token) same
        | inr (inr o) ↦ rw (r, a, o, add_permission_for_token) (inserted r a)
      ]
    ]
  ]

  pub delete_permissions-leaves :
      (at : Permission → Bool)
      → P (advance db)
      → P (record (advance db) { permissions = select (λ p. not (at p)) db.permissions })
      → P (delete_permissions at db).1
  unfolding delete_permissions
  delete_permissions-leaves at same deleted = elim (Outcome-cases (next db)) [
    | inl o ↦ elim (Bool-cases (any at db.permissions)) [
      | inl e ↦ rw (o, e, delete_permissions) deleted
      | inr e ↦ rw (o, e, delete_permissions) deleted
    ]
    | inr (inl o) ↦ rw (o, delete_permissions) same
    | inr (inr o) ↦ rw (o, delete_permissions) deleted
  ]
