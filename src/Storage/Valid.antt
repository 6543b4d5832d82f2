-- ===== src/Storage/Valid.antt =====
-- The well-formedness of the database that the schema's constraints promise: keys are unique and
-- below their counters, hashes are unique, every permission belongs to a token and has passed the
-- validation.
pub mod Keeps
use bunny_api_proxy.Base.{ℕ, ◌≤◌, ℤ, pos, negsuc, ◌≡◌, String, true, false, any, All, Unique}
use bunny_api_proxy.Storage.Types.{Token, Permission}
use bunny_api_proxy.Storage.Db.{Db}
use bunny_api_proxy.Storage.Tokens.{has_id}
use bunny_api_proxy.Storage.Permissions.{rejects}

-- A key that the counter `n` has handed out.
abbrev pub IsRowId : ℕ → ℤ → Type 0
IsRowId n (pos k) = (1 ≤ k) × (k ≤ n)
IsRowId n (negsuc k) = ⊥

abbrev pub token_id : Token → ℤ
token_id t = t.id

abbrev pub token_hash : Token → String
token_hash t = t.key_hash

abbrev pub permission_id : Permission → ℤ
permission_id p = p.id

pub record IsValid (db : Db) : Type 0 where
  pub ids : Unique token_id db.tokens
  pub hashes : Unique token_hash db.tokens
  pub issued : All (λ t. IsRowId db.token_seq t.id) db.tokens
  pub permission_ids : Unique permission_id db.permissions
  pub permission_issued : All (λ p. IsRowId db.permission_seq p.id) db.permissions
  pub owned : All (λ p. any (has_id p.token_id) db.tokens ≡ true) db.permissions
  pub checked : All (λ p. rejects p ≡ false) db.permissions
