-- ===== src/Admin/Handlers.antt =====
-- internal/admin/api.go, the handlers but `HandleCreateUnifiedToken`. The id in the path comes as
-- the text of its URL parameter, the body as what the JSON decoder makes of it (`none` is an error).
use bunny_api_proxy.Base.{
  ℕ, ℤ, pos, is_not_pos, String, ◌==◌, not, Option, none, some, List, [], ◌∷◌, leb, if◌then◌else◌,
}
use bunny_api_proxy.Storage.Types.{Token, Permission, Error}
use bunny_api_proxy.Storage.Tokens.{get_token_by_id, list_tokens, count_admin_tokens, delete_token}
use bunny_api_proxy.Storage.Permissions.{
  is_empty, add_permission_for_token, remove_permission_for_token, get_permissions_for_token,
}
use bunny_api_proxy.Go.ParseInt.{parse_int}
use bunny_api_proxy.Auth.Context.{
  Context, token_from_context, is_admin_from_context, is_master_key_from_context,
}
use bunny_api_proxy.Admin.Types.{
  Level, debug, info, warn, error, TokenResponse, PermissionResponse, api_error, level_set, whoami,
  tokens, detail, permission, no_content, Response, respond, invalid_request, internal_error,
  Handler, not_found_or, call,
}

-- `strconv.ParseInt` of a URL parameter, or the answer 400.
unfoldable pub with_id : String → (message hint : String) → (ℤ → Handler) → Handler
with_id text message hint k db = elim (parse_int text) [
  | none ↦ (respond 400 (api_error "invalid_request" message hint), db)
  | some id ↦ k id db
]

abbrev pub with_token_id : String → (ℤ → Handler) → Handler
with_token_id text = with_id text "Invalid token ID" "Token ID must be a number."

abbrev pub level_of : String → Option Level
level_of text =
    if text == "debug"
    then some debug
    else if text == "info"
    then some info
    else if text == "warn"
    then some warn
    else if text == "error"
    then some error
    else none

abbrev pub set_level : Option Level → Level → Response × Level
set_level none old = (
  respond 400
      (api_error "invalid_request" "Invalid log level" "Must be one of: debug, info, warn, error"),
  old,
)
set_level (some new) old = (respond 200 (level_set new), new)

-- The handler's `logLevel` is its state.
unfoldable pub handle_set_log_level : Option String → Level → Response × Level
handle_set_log_level none old = (invalid_request "Invalid JSON", old)
handle_set_log_level (some text) old = set_level (level_of text) old

abbrev pub token_whoami : Context → Token → List Permission → Response
token_whoami ctx t perms = respond 200 (
    whoami (record {
      token_id = t.id;
      name = t.name;
      is_admin = t.is_admin;
      is_master_key = is_master_key_from_context ctx;
      permissions = perms;
    }))

abbrev pub whoami_of : Context → Option Token → Handler
whoami_of ctx none db = (
  respond 200 (
      whoami (record {
        token_id = pos 0;
        name = "";
        is_admin = is_admin_from_context ctx;
        is_master_key = is_master_key_from_context ctx;
        permissions = [];
      })),
  db,
)
whoami_of ctx (some t) db =
    if not t.is_admin
    then call (get_permissions_for_token t.id) (λ perms db'. (token_whoami ctx t perms, db'))
        (λ _. internal_error "Failed to get permissions") db
    else (token_whoami ctx t [], db)

unfoldable pub handle_whoami : Context → Handler
handle_whoami ctx = whoami_of ctx (token_from_context ctx)

abbrev pub token_response : Token → TokenResponse
token_response t = record {
  id = t.id;
  name = t.name;
  is_admin = t.is_admin;
  created_at = t.created_at;
}

abbrev pub token_responses : List Token → List TokenResponse
token_responses [] = []
token_responses (t ∷ ts) = token_response t ∷ token_responses ts

unfoldable pub handle_list_unified_tokens : Handler
handle_list_unified_tokens =
    call list_tokens (λ ts db. (respond 200 (tokens (token_responses ts)), db))
      (λ _. internal_error "Failed to list tokens")

abbrev pub token_missing : Error → Response
token_missing = not_found_or "Token not found" "Failed to get token"

abbrev pub detail_of : Token → Handler
detail_of t db =
    if not t.is_admin
    then call (get_permissions_for_token t.id)
        (λ perms db'. (respond 200 (detail (token_response t) perms), db'))
        (λ _. internal_error "Failed to get permissions") db
    else (respond 200 (detail (token_response t) []), db)

unfoldable pub handle_get_unified_token : String → Handler
handle_get_unified_token id_text =
    with_token_id id_text (λ id. call (get_token_by_id id) detail_of token_missing)

abbrev pub last_admin : Response
last_admin = respond 409 (
    api_error "cannot_delete_last_admin"
      "Cannot delete the last admin token. Create another admin first."
      "Create a new admin token before deleting this one.")

abbrev pub delete_found : ℤ → Handler
delete_found id =
    call (delete_token id) (λ _ db. (respond 204 no_content, db))
      (not_found_or "Token not found" "Failed to delete token")

-- The last-admin protection.
abbrev pub delete_counted : ℤ → ℕ → Handler
delete_counted id n db = if leb n 1 then (last_admin, db) else delete_found id db

abbrev pub delete_checked : ℤ → Token → Handler
delete_checked id t db =
    if t.is_admin
    then call count_admin_tokens (delete_counted id)
        (λ _. internal_error "Failed to check admin count") db
    else delete_found id db

unfoldable pub handle_delete_unified_token : String → Handler
handle_delete_unified_token id_text =
    with_token_id id_text (λ id. call (get_token_by_id id) (delete_checked id) token_missing)

pub record AddPermissionRequest : Type 0 where
  pub zone_id : ℤ
  pub allowed_actions : List String
  pub record_types : List String

abbrev pub permission_of : (zone_id : ℤ) → (actions types : List String) → Permission
permission_of zone_id actions types = record {
  id = pos 0;
  token_id = pos 0;
  zone_id = zone_id;
  allowed_actions = actions;
  record_types = types;
  created_at = 0;
}

abbrev pub permission_response : Permission → PermissionResponse
permission_response p = record {
  id = p.id;
  zone_id = p.zone_id;
  allowed_actions = p.allowed_actions;
  record_types = p.record_types;
}

abbrev pub add_validated : ℤ → AddPermissionRequest → Handler
add_validated token_id req =
    call
      (add_permission_for_token token_id
        (permission_of req.zone_id req.allowed_actions req.record_types))
      (λ p db. (respond 201 (permission (permission_response p)), db))
      (λ _. internal_error "Failed to add permission")

abbrev pub add_decoded : ℤ → Option AddPermissionRequest → Handler
add_decoded token_id none db = (invalid_request "Invalid JSON in request body", db)
add_decoded token_id (some req) db =
    if is_not_pos req.zone_id
    then (invalid_request "Zone ID must be greater than 0", db)
    else if is_empty req.allowed_actions
    then (invalid_request "At least one action is required", db)
    else if is_empty req.record_types
    then (invalid_request "At least one record type is required", db)
    else add_validated token_id req db

abbrev pub add_checked : ℤ → Option AddPermissionRequest → Token → Handler
add_checked token_id body t db =
    if t.is_admin
    then (
      respond 400 (
          api_error "invalid_request" "Admin tokens do not use zone permissions"
            "Admin tokens have full access. Permissions are only for scoped tokens."),
      db,
    )
    else add_decoded token_id body db

unfoldable pub handle_add_token_permission : String → Option AddPermissionRequest → Handler
handle_add_token_permission id_text body =
    with_token_id id_text
      (λ token_id. call (get_token_by_id token_id) (add_checked token_id body) token_missing)

abbrev pub delete_permission_found : ℤ → ℤ → Handler
delete_permission_found token_id perm_id =
    call (remove_permission_for_token token_id perm_id) (λ _ db. (respond 204 no_content, db))
      (not_found_or "Permission not found for this token" "Failed to delete permission")

unfoldable pub handle_delete_token_permission : String → String → Handler
handle_delete_token_permission id_text pid_text = with_token_id id_text (λ token_id.
    with_id pid_text "Invalid permission ID" "Permission ID must be a number." (λ perm_id.
      call (get_token_by_id token_id) (λ _. delete_permission_found token_id perm_id)
        token_missing))
