-- ===== src/MockStore.antt =====
-- internal/testutil/mockstore/mockstore.go: a store whose operations are functions that a test sets, on
-- the test's own state, with a default for those that it leaves out.
use bunny_api_proxy.Base.{ℕ, ℤ, pos, String, Bool, false, Option, none, some, List, []}
use bunny_api_proxy.Storage.Types.{Token, Permission, err_not_found, Result, ok, err}

-- An operation on the state of the test.
abbrev pub Operation : Type 0 → Type 0 → Type 0
Operation S A = S → Result A × S

pub record MockStorage (S : Type 0) : Type 0 where
  pub create_token_func : Option (String → Bool → String → Operation S Token)
  pub get_token_by_hash_func : Option (String → Operation S Token)
  pub get_token_by_id_func : Option (ℤ → Operation S Token)
  pub list_tokens_func : Option (Operation S (List Token))
  pub delete_token_func : Option (ℤ → Operation S (Unit {0}))
  pub has_any_admin_token_func : Option (Operation S Bool)
  pub count_admin_tokens_func : Option (Operation S ℕ)
  pub add_permission_for_token_func : Option (ℤ → Permission → Operation S Permission)
  pub remove_permission_func : Option (ℤ → Operation S (Unit {0}))
  pub remove_permission_for_token_func : Option (ℤ → ℤ → Operation S (Unit {0}))
  pub get_permissions_for_token_func : Option (ℤ → Operation S (List Permission))
  pub ping_func : Option (Operation S (Unit {0}))
  pub close_func : Option (Operation S (Unit {0}))

abbrev pub default_token : String → Bool → String → Token
default_token name is_admin key_hash = record {
  id = pos 1;
  key_hash = key_hash;
  name = name;
  is_admin = is_admin;
  created_at = 0;
}

module _ {S : Type 0} (m : MockStorage S) where
  unfoldable pub create_token : String → Bool → String → Operation S Token
  create_token name is_admin key_hash s = elim m.create_token_func [
    | none ↦ (ok (default_token name is_admin key_hash), s)
    | some f ↦ f name is_admin key_hash s
  ]

  unfoldable pub get_token_by_hash : String → Operation S Token
  get_token_by_hash key_hash s = elim m.get_token_by_hash_func [
    | none ↦ (err err_not_found, s)
    | some f ↦ f key_hash s
  ]

  unfoldable pub get_token_by_id : ℤ → Operation S Token
  get_token_by_id id s = elim m.get_token_by_id_func [
    | none ↦ (err err_not_found, s)
    | some f ↦ f id s
  ]

  unfoldable pub list_tokens : Operation S (List Token)
  list_tokens s = elim m.list_tokens_func [ none ↦ (ok [], s) | some f ↦ f s ]

  unfoldable pub delete_token : ℤ → Operation S (Unit {0})
  delete_token id s = elim m.delete_token_func [ none ↦ (ok tt, s) | some f ↦ f id s ]

  unfoldable pub has_any_admin_token : Operation S Bool
  has_any_admin_token s = elim m.has_any_admin_token_func [ none ↦ (ok false, s) | some f ↦ f s ]

  unfoldable pub count_admin_tokens : Operation S ℕ
  count_admin_tokens s = elim m.count_admin_tokens_func [ none ↦ (ok 0, s) | some f ↦ f s ]

  unfoldable pub add_permission_for_token : ℤ → Permission → Operation S Permission
  add_permission_for_token token_id perm s = elim m.add_permission_for_token_func [
    | none ↦ (ok (record perm { id = pos 1; token_id = token_id }), s)
    | some f ↦ f token_id perm s
  ]

  unfoldable pub remove_permission : ℤ → Operation S (Unit {0})
  remove_permission perm_id s = elim m.remove_permission_func [
    | none ↦ (ok tt, s)
    | some f ↦ f perm_id s
  ]

  unfoldable pub remove_permission_for_token : ℤ → ℤ → Operation S (Unit {0})
  remove_permission_for_token token_id perm_id s = elim m.remove_permission_for_token_func [
    | none ↦ (ok tt, s)
    | some f ↦ f token_id perm_id s
  ]

  unfoldable pub get_permissions_for_token : ℤ → Operation S (List Permission)
  get_permissions_for_token token_id s = elim m.get_permissions_for_token_func [
    | none ↦ (ok [], s)
    | some f ↦ f token_id s
  ]

  unfoldable pub ping : Operation S (Unit {0})
  ping s = elim m.ping_func [ none ↦ (ok tt, s) | some f ↦ f s ]

  unfoldable pub close : Operation S (Unit {0})
  close s = elim m.close_func [ none ↦ (ok tt, s) | some f ↦ f s ]

-- No function is set.
abbrev pub no_functions : {S : Type 0} → MockStorage S
no_functions = record {
  create_token_func = none;
  get_token_by_hash_func = none;
  get_token_by_id_func = none;
  list_tokens_func = none;
  delete_token_func = none;
  has_any_admin_token_func = none;
  count_admin_tokens_func = none;
  add_permission_for_token_func = none;
  remove_permission_func = none;
  remove_permission_for_token_func = none;
  get_permissions_for_token_func = none;
  ping_func = none;
  close_func = none;
}
