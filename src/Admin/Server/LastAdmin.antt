-- ===== src/Admin/Server/LastAdmin.antt =====
-- The last-admin protection of the admin API (internal/admin/api.go) over a run of the server.
pub mod Counts
mod Deletes
mod Creates
use bunny_api_proxy.Base.{
  ℕ, suc, ◌+◌, ◌≤◌, ◌<◌, ℤ, pos, ==ℤ_iff, ◌≡◌, ◌≢◌, refl, sym, ap, subst, String, Bool, true, false,
  not, Option, none, some, List, [], ◌∷◌, ◌++◌, inl, inr, arith, Bool-cases, Option-cases, leb, All,
  All-mono, any, All-append, Unique, Unique-eq, Member, select, count, count-append, find,
  find-some,
}
use bunny_api_proxy.Storage.Types.{Time, Token, Permission, ok, err}
use bunny_api_proxy.Storage.Db.{Db, Outcome, Outcome-cases, next, advance}
use bunny_api_proxy.Storage.Tokens.{
  has_id, is_admin_token, new_token, insert_token, create_token, get_token_by_id, has_hash,
  count_admin_tokens, delete_rows, delete_token, or_not_found,
}
use bunny_api_proxy.Storage.Permissions.{
  insert_permission, add_permission_for_token, remove_permission_for_token,
}
use bunny_api_proxy.Storage.Reads.{get_token_by_id-reads, count_admin_tokens-reads}
use bunny_api_proxy.Storage.Valid.{IsValid, IsRowId, token_id}
use bunny_api_proxy.Storage.Valid.Keeps.{
  IsRowId-fresh, advance-IsValid, create_token-IsValid, delete_token-IsValid,
  add_permission-IsValid, remove_permission_for_token-IsValid,
}
use bunny_api_proxy.Storage.Leaves.{
  create_token-leaves, delete_token-leaves, add_permission-leaves, delete_permissions-leaves,
}
use bunny_api_proxy.Auth.Bootstrap.{BootstrapService}
use bunny_api_proxy.Admin.Create.{CreateTokenRequest, hex_encode, after_create, generate}
use bunny_api_proxy.Admin.Handlers.{
  handle_delete_unified_token, delete_checked, delete_counted, delete_found,
}
use bunny_api_proxy.Admin.Server.{State, Event, run, set_environment}
use bunny_api_proxy.Admin.Server.Keeps.{call-keeps, if-keeps, with_id-keeps}
use bunny_api_proxy.Admin.Server.Runs.{Keeps, run-keeps}
use bunny_api_proxy.Admin.Server.Valid.{keeps-IsValid, after_create-keeps}
use bunny_api_proxy.Admin.Server.LastAdmin.Counts.{
  IsNoAdmin, count-select_scoped, IsNoAdmin-of_head, count-select_one, HasAdmin, advance-HasAdmin,
  delete_token-HasAdmin,
}
use bunny_api_proxy.Admin.Server.LastAdmin.Deletes.{handle_delete-HasAdmin}
use bunny_api_proxy.Admin.Server.LastAdmin.Creates.{
  add_permission-HasAdmin, remove_permission-tokens, add_permission-tokens, generate-HasAdmin,
}

keeps-HasAdmin : (hash : String → String) → Keeps hash HasAdmin
keeps-HasAdmin hash = record {
  advances = advance-HasAdmin;
  adds = add_permission-HasAdmin;
  removes = λ id pid db (v, n). (
    remove_permission_for_token-IsValid db v id pid,
    remove_permission-tokens (λ ts. 0 < count is_admin_token ts) id pid db n,
  );
  deletes = handle_delete-HasAdmin;
  generates = generate-HasAdmin hash;
  changes = λ now outcomes db (v, n). ((keeps-IsValid hash).changes now outcomes db v, n);
}

-- In a well-formed database with an admin token, whatever calls the server answers one after the
-- other and however the driver answers its statements, an admin token is left.
pub run-HasAdmin :
    (hash : String → String) (bootstrap : Option BootstrapService) (es : List Event) (s : State)
    → IsValid s.db
    → 0 < count is_admin_token s.db.tokens
    → 0 < count is_admin_token (run hash bootstrap es s).db.tokens
run-HasAdmin hash bootstrap es s v n =
    (run-keeps hash bootstrap HasAdmin (keeps-HasAdmin hash) es s (v, n)).1
