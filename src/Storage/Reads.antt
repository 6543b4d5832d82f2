-- ===== src/Storage/Reads.antt =====
-- What the queries of the store (internal/storage/tokens.go) leave behind.
use bunny_api_proxy.Base.{ℤ, ◌≡◌, String, arith}
use bunny_api_proxy.Storage.Db.{Db, next, advance, Outcome-cases}
use bunny_api_proxy.Storage.Tokens.{
  get_token_by_hash, get_token_by_id, list_tokens, count_admin_tokens, has_any_admin_token,
}
use bunny_api_proxy.Storage.Permissions.{get_permissions_for_token}

module _ (db : Db) where
  pub get_token_by_hash-reads : (h : String) → (get_token_by_hash h db).1 ≡ advance db
  unfolding get_token_by_hash
  get_token_by_hash-reads h = ground (arith, Outcome-cases (next db))

  pub get_token_by_id-reads : (id : ℤ) → (get_token_by_id id db).1 ≡ advance db
  unfolding get_token_by_id
  get_token_by_id-reads id = ground (arith, Outcome-cases (next db))

  pub list_tokens-reads : (list_tokens db).1 ≡ advance db
  unfolding list_tokens
  list_tokens-reads = ground (arith, Outcome-cases (next db))

  pub count_admin_tokens-reads : (count_admin_tokens db).1 ≡ advance db
  unfolding count_admin_tokens
  count_admin_tokens-reads = ground (arith, Outcome-cases (next db))

  pub has_any_admin_token-reads : (has_any_admin_token db).1 ≡ advance db
  unfolding has_any_admin_token
  has_any_admin_token-reads = ground (arith, Outcome-cases (next db))

  pub get_permissions_for_token-reads : (id : ℤ) → (get_permissions_for_token id db).1 ≡ advance db
  unfolding get_permissions_for_token
  get_permissions_for_token-reads id = ground (arith, Outcome-cases (next db))
