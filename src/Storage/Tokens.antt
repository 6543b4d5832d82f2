-- ===== src/Storage/Tokens.antt =====
-- internal/storage/tokens.go, the operations on tokens.
use bunny_api_proxy.Base.{
  ℕ, ◌+◌, ℤ, pos, ◌==ℤ◌, leb_ℤ, ◌==◌, String, Bool, not, Option, none, some, List, [], ◌∷◌, ◌++◌,
  if◌then◌else◌, ltb, ◌==ℕ◌, ◌||◌, ◌&&◌, find, any, select, count,
}
use bunny_api_proxy.Base.Sort.{order_by}
use bunny_api_proxy.Storage.Types.{Token, err_not_found, err_duplicate, failed, Result, ok, err}
use bunny_api_proxy.Storage.Db.{Db, works, exec_fails, result_fails, next, advance, Op, query}

abbrev pub has_hash : String → Token → Bool
has_hash key_hash t = t.key_hash == key_hash

abbrev pub has_id : ℤ → Token → Bool
has_id id t = t.id ==ℤ id

abbrev pub is_admin_token : Token → Bool
is_admin_token t = t.is_admin

-- The row that `INSERT INTO tokens (key_hash, name, is_admin)` writes.
abbrev pub new_token : String → Bool → String → Db → Token
new_token name is_admin key_hash db = record {
  id = pos (db.token_seq + 1);
  key_hash = key_hash;
  name = name;
  is_admin = is_admin;
  created_at = db.now;
}

unfoldable pub insert_token : Token → Db → Db
insert_token t db = record db { tokens = db.tokens ++ t ∷ []; token_seq = db.token_seq + 1 }

-- The returned struct has the zero time: the row's `created_at` is not read back.
unfoldable pub create_token : String → Bool → String → Op Token
unfolding insert_token
create_token name is_admin key_hash db =
    let t = new_token name is_admin key_hash db in
    let db' = insert_token t (advance db) in
    elim (next db) [
      | exec_fails ↦ (err failed, advance db)
      | works ↦
          if any (has_hash key_hash) db.tokens
          then (err err_duplicate, advance db)
          else (ok (record t { created_at = 0 }), db')
      | result_fails ↦
          if any (has_hash key_hash) db.tokens
          then (err err_duplicate, advance db)
          else (err failed, db')
    ]

-- `sql.ErrNoRows` is mapped to `ErrNotFound`.
abbrev pub or_not_found : Option Token → Result Token
or_not_found none = err err_not_found
or_not_found (some t) = ok t

unfoldable pub get_token_by_hash : String → Op Token
get_token_by_hash key_hash = query (λ db. or_not_found (find (has_hash key_hash) db.tokens))

unfoldable pub get_token_by_id : ℤ → Op Token
get_token_by_id id = query (λ db. or_not_found (find (has_id id) db.tokens))

-- ORDER BY created_at DESC, id DESC
abbrev pub newer : Token → Token → Bool
newer s t = ltb t.created_at s.created_at || (s.created_at ==ℕ t.created_at && leb_ℤ t.id s.id)

unfoldable pub list_tokens : Op (List Token)
list_tokens = query (λ db. ok (order_by newer db.tokens))

-- ON DELETE CASCADE
unfoldable pub delete_rows : ℤ → Db → Db
delete_rows id db = record db {
  tokens = select (λ t. not (has_id id t)) db.tokens;
  permissions = select (λ p. not (p.token_id ==ℤ id)) db.permissions;
}

unfoldable pub delete_token : ℤ → Op (Unit {0})
unfolding delete_rows
delete_token id db =
    let db' = delete_rows id (advance db) in
    elim (next db) [
      | exec_fails ↦ (err failed, advance db)
      | works ↦ if any (has_id id) db.tokens then (ok tt, db') else (err err_not_found, db')
      | result_fails ↦ (err failed, db')
    ]

unfoldable pub count_admin_tokens : Op ℕ
count_admin_tokens = query (λ db. ok (count is_admin_token db.tokens))

unfoldable pub has_any_admin_token : Op Bool
has_any_admin_token = query (λ db. ok (ltb 0 (count is_admin_token db.tokens)))
