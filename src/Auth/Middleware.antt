-- ===== src/Auth/Middleware.antt =====
-- internal/auth/middleware.go: `Authenticate`, `RequireAdmin` and `CheckPermissions`. A middleware
-- answers the request itself, or calls the next handler with a context.
pub mod Laws
pub mod Chain
pub mod Revoked
pub mod Complete
use bunny_api_proxy.Base.{
  ℕ, String, ◌==◌, Bool, true, false, Option, none, some, List, [], if◌then◌else◌, ℤ, pos,
}
use bunny_api_proxy.Storage.Types.{
  Token, Permission, err_not_found, err_duplicate, failed, Result, ok, err,
}
use bunny_api_proxy.Storage.Db.{Db, Op}
use bunny_api_proxy.Storage.Tokens.{get_token_by_hash}
use bunny_api_proxy.Storage.Permissions.{get_permissions_for_token}
use bunny_api_proxy.Go.Trim.{trim_space}
use bunny_api_proxy.Auth.Types.{is_admin_only, KeyInfo, HttpRequest, Request}
use bunny_api_proxy.Auth.Check.{check_permission}
use bunny_api_proxy.Auth.Parse.{ParseError, Parsed, refused, parsed, parse_request}
use bunny_api_proxy.Auth.Context.{
  Context, or_false, token_from_context, permissions_from_context, is_admin_from_context,
  with_token, with_permissions, with_master_key, with_admin,
}
use bunny_api_proxy.Auth.Bootstrap.{BootstrapService, validate_master_key}

-- The JSON error bodies of the package: a message, or a code and a message.
pub data Denial : Type 0 where
  message : String → Denial
  code_and_message : String → String → Denial
  -- `err.Error()` of `ParseRequest`
  parse_message : ParseError → Denial

pub data Step : Type 0 where
  deny : (status : ℕ) → Denial → Step
  next : Context → Step

abbrev pub missing_key : Step
missing_key = deny 401 (message "missing API key")

abbrev pub invalid_key : Step
invalid_key = deny 401 (message "invalid API key")

abbrev pub internal_error : Step
internal_error = deny 500 (message "internal error")

abbrev pub admin_required : Step
admin_required =
    deny 403 (code_and_message "admin_required" "This endpoint requires an admin token.")

abbrev pub permission_denied : Step
permission_denied = deny 403 (message "permission denied")

-- extractAccessKey
abbrev pub extract_access_key : HttpRequest → String
extract_access_key r = trim_space r.access_key

-- The store implements `GetPermissionsForToken`, so it is asked for the permissions.
abbrev pub load_permissions : ℤ → Op (List Permission)
load_permissions = get_permissions_for_token

-- `Authenticate` once the token is found.
unfoldable pub admit_token : Context → Token → Db → Step × Db
admit_token ctx token db =
    let ctx' = with_admin (with_master_key (with_token ctx token) false) token.is_admin in
    let (r, db') = load_permissions token.id db in
    if token.is_admin
    then (next ctx', db)
    else (elim r [ ok perms ↦ next (with_permissions ctx' perms) | err e ↦ internal_error ], db')

abbrev pub token_result : Context → Result Token → Db → Step × Db
token_result ctx (ok token) db = admit_token ctx token db
token_result ctx (err err_not_found) db = (invalid_key, db)
token_result ctx (err err_duplicate) db = (internal_error, db)
token_result ctx (err failed) db = (internal_error, db)

-- The context keys of the packages are private, so those of `ctx` come from this package alone.
module _ (hash : String → String) (b : BootstrapService) where
  -- The part after the master key has been ruled out.
  unfoldable pub authenticate_token : Context → String → Db → Step × Db
  authenticate_token ctx api_key db =
      let (r, db') = get_token_by_hash (hash api_key) db in token_result ctx r db'

  abbrev pub master_result : Context → String → Result Bool → Db → Step × Db
  master_result ctx api_key (err e) db = (internal_error, db)
  master_result ctx api_key (ok true) db = (next (with_admin (with_master_key ctx true) true), db)
  master_result ctx api_key (ok false) db = authenticate_token ctx api_key db

  unfoldable pub authenticate : HttpRequest → Context → Db → Step × Db
  unfolding authenticate_token admit_token
  authenticate r ctx db =
      let api_key = extract_access_key r in
      let (valid, db') = validate_master_key hash b api_key db in
      if api_key == "" then (missing_key, db) else master_result ctx api_key valid db'

unfoldable pub require_admin : Context → Step
require_admin ctx = if is_admin_from_context ctx then next ctx else admin_required

abbrev pub or_empty : Option (List Permission) → List Permission
or_empty none = []
or_empty (some perms) = perms

-- Without a token the id and the name are zero.
abbrev pub key_info_of : Option Token → List Permission → KeyInfo
key_info_of none perms = record { key_id = pos 0; key_name = ""; permissions = perms }
key_info_of (some token) perms = record {
  key_id = token.id;
  key_name = token.name;
  permissions = perms;
}

abbrev pub check_request : Context → Request → Step
check_request ctx req =
    if is_admin_only req.action
    then admin_required
    else if check_permission
        (key_info_of (token_from_context ctx) (or_empty (permissions_from_context ctx))) req
    then next ctx
    else permission_denied

unfoldable pub check_permissions : HttpRequest → Context → Step
check_permissions r ctx = if is_admin_from_context ctx then next ctx else elim (parse_request r) [
  | refused e ↦ deny 400 (parse_message e)
  | parsed req ↦ check_request ctx req
]

abbrev pub key_info_from_token : Context → Option Token → Option KeyInfo
key_info_from_token ctx none = none
key_info_from_token ctx (some token) =
    some (key_info_of (some token) (or_empty (permissions_from_context ctx)))

unfoldable pub get_key_info : Context → Option KeyInfo
get_key_info ctx = key_info_from_token ctx (token_from_context ctx)

-- The chain of cmd/bunny-api-proxy/main.go in front of every route of the proxy.
abbrev pub then_check : HttpRequest → Step × Db → Step × Db
then_check r (deny status body, db) = (deny status body, db)
then_check r (next ctx, db) = (check_permissions r ctx, db)

unfoldable pub proxy_auth_chain :
    (String → String) → BootstrapService → HttpRequest → Context → Db → Step × Db
proxy_auth_chain hash b r ctx db = then_check r (authenticate hash b r ctx db)
