-- ===== src/Storage/Permissions.antt =====
-- internal/storage/tokens.go, the operations on permissions.
use bunny_api_proxy.Base.{
  ◌+◌, ℤ, pos, ◌==ℤ◌, is_not_pos, leb_ℤ, Bool, true, false, not, List, [], ◌∷◌, ◌++◌, if◌then◌else◌,
  ◌&&◌, ◌||◌, any, select,
}
use bunny_api_proxy.Base.Sort.{order_by}
use bunny_api_proxy.Storage.Types.{Permission, err_not_found, failed, ok, err}
use bunny_api_proxy.Storage.Db.{Db, works, exec_fails, result_fails, next, advance, Op, query}
use bunny_api_proxy.Storage.Tokens.{has_id}

abbrev pub is_empty {ℓ} : {A : Type ℓ} → List A → Bool
is_empty [] = true
is_empty (x ∷ xs) = false

-- The validation at the head of `AddPermissionForToken`.
abbrev pub rejects : Permission → Bool
rejects perm =
    is_not_pos perm.zone_id || is_empty perm.allowed_actions || is_empty perm.record_types

abbrev pub new_permission : ℤ → Permission → Db → Permission
new_permission token_id perm db = record perm {
  id = pos (db.permission_seq + 1);
  token_id = token_id;
}

unfoldable pub insert_permission : Permission → Db → Db
insert_permission p db = record db {
  permissions = db.permissions ++ record p { created_at = db.now } ∷ [];
  permission_seq = db.permission_seq + 1;
}

-- The foreign key refuses a row whose token does not exist.
unfoldable pub add_permission_for_token : ℤ → Permission → Op Permission
unfolding insert_permission
add_permission_for_token token_id perm db =
    let p = new_permission token_id perm db in
    let db' = insert_permission p (advance db) in
    if rejects perm
    then (err failed, db)
    else if not (any (has_id token_id) db.tokens)
    then (err failed, advance db)
    else elim (next db) [
      | exec_fails ↦ (err failed, advance db)
      | works ↦ (ok p, db')
      | result_fails ↦ (err failed, db')
    ]

-- DELETE FROM permissions WHERE `at`, then the check of the affected rows.
unfoldable pub delete_permissions : (Permission → Bool) → Op (Unit {0})
delete_permissions at db =
    let db' = record (advance db) { permissions = select (λ p. not (at p)) db.permissions } in
    elim (next db) [
      | exec_fails ↦ (err failed, advance db)
      | works ↦ if any at db.permissions then (ok tt, db') else (err err_not_found, db')
      | result_fails ↦ (err failed, db')
    ]

unfoldable pub remove_permission : ℤ → Op (Unit {0})
unfolding delete_permissions
remove_permission perm_id = delete_permissions (λ p. p.id ==ℤ perm_id)

abbrev pub is_of_token : ℤ → ℤ → Permission → Bool
is_of_token token_id perm_id p = p.id ==ℤ perm_id && p.token_id ==ℤ token_id

unfoldable pub remove_permission_for_token : ℤ → ℤ → Op (Unit {0})
unfolding delete_permissions
remove_permission_for_token token_id perm_id = delete_permissions (is_of_token token_id perm_id)

abbrev pub belongs_to : ℤ → Permission → Bool
belongs_to token_id p = p.token_id ==ℤ token_id

-- ORDER BY id ASC
abbrev pub older : Permission → Permission → Bool
older p q = leb_ℤ p.id q.id

-- `created_at` is not selected, so the structs have the zero time.
abbrev pub read_row : Permission → Permission
read_row p = record p { created_at = 0 }

abbrev pub read_rows : List Permission → List Permission
read_rows [] = []
read_rows (p ∷ ps) = read_row p ∷ read_rows ps

unfoldable pub get_permissions_for_token : ℤ → Op (List Permission)
get_permissions_for_token token_id =
    query (λ db. ok (read_rows (order_by older (select (belongs_to token_id) db.permissions))))
