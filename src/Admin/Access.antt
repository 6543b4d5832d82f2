-- ===== src/Admin/Access.antt =====
-- internal/admin/token_auth.go and middleware.go: who reaches a handler of the admin API.
use bunny_api_proxy.Base.{String, ◌==◌, Bool, true, false, not, Option, none, some, if◌then◌else◌}
use bunny_api_proxy.Storage.Types.{Token, Result, ok, err}
use bunny_api_proxy.Storage.Db.{Db, Op}
use bunny_api_proxy.Storage.Tokens.{get_token_by_hash}
use bunny_api_proxy.Go.Trim.{trim_space}
use bunny_api_proxy.Auth.Context.{
  Context, is_admin_from_context, with_token, with_master_key, with_admin,
}
use bunny_api_proxy.Auth.Bootstrap.{BootstrapService, is_master_key, can_use_master_key}
use bunny_api_proxy.Admin.Types.{Response, respond, plain, api_error, write_error}

pub data Step : Type 0 where
  answer : Response → Step
  next : Context → Step

abbrev pub missing_key : Step
missing_key = answer (respond 401 (plain "missing API key"))

abbrev pub invalid_token : Step
invalid_token = answer (respond 401 (plain "Invalid token"))

abbrev pub master_key_locked : Step
master_key_locked =
    answer
      (write_error 403 "master_key_locked" "Master API key is locked. Use an admin token instead.")

abbrev pub master_step : Context → Result Bool → Step
master_step ctx (err e) = answer (respond 500 (plain "Internal error"))
master_step ctx (ok false) = master_key_locked
master_step ctx (ok true) = next (with_admin (with_master_key ctx true) true)

-- Every error of the lookup is answered alike.
abbrev pub token_step : Context → Result Token → Step
token_step ctx (err e) = invalid_token
token_step ctx (ok t) = next (with_admin (with_token ctx t) t.is_admin)

-- A nil `h.bootstrap` is `none`.
abbrev pub is_bootstrap_key : (String → String) → Option BootstrapService → String → Bool
is_bootstrap_key hash none key = false
is_bootstrap_key hash (some b) key = is_master_key hash b key

module _ (hash : String → String) (bootstrap : Option BootstrapService) where
  -- validateUnifiedToken
  abbrev pub validate_unified_token : String → Op Token
  validate_unified_token token = get_token_by_hash (hash token)

  unfoldable pub token_auth : String → Context → Db → Step × Db
  token_auth access_key ctx db =
      let token = trim_space access_key in
      let (can_use, db₁) = can_use_master_key db in
      let (found, db₂) = validate_unified_token token db in
      if access_key == ""
      then (missing_key, db)
      else if token == ""
      then (missing_key, db)
      else if is_bootstrap_key hash bootstrap token
      then (master_step ctx can_use, db₁)
      else (token_step ctx found, db₂)

unfoldable pub require_admin : Context → Step
require_admin ctx =
    if not (is_admin_from_context ctx)
    then answer (
        respond 403 (
          api_error "admin_required" "This endpoint requires an admin token"
            "Use an admin token (is_admin: true) to access admin-only endpoints"))
    else next ctx
