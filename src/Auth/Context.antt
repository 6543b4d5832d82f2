-- ===== src/Auth/Context.antt =====
-- internal/auth/context.go: what the authentication leaves in a request's context. A key that was
-- never set is `none`.
use bunny_api_proxy.Base.{Bool, false, Option, none, some, List}
use bunny_api_proxy.Storage.Types.{Token, Permission}

pub record Context : Type 0 where
  pub token : Option Token
  pub permissions : Option (List Permission)
  pub master_key : Option Bool
  pub admin : Option Bool

-- The context of a request that no middleware has seen.
abbrev pub background : Context
background = record { token = none; permissions = none; master_key = none; admin = none }

abbrev pub or_false : Option Bool → Bool
or_false none = false
or_false (some b) = b

abbrev pub token_from_context : Context → Option Token
token_from_context ctx = ctx.token

abbrev pub permissions_from_context : Context → Option (List Permission)
permissions_from_context ctx = ctx.permissions

abbrev pub is_master_key_from_context : Context → Bool
is_master_key_from_context ctx = or_false ctx.master_key

abbrev pub is_admin_from_context : Context → Bool
is_admin_from_context ctx = or_false ctx.admin

abbrev pub with_token : Context → Token → Context
with_token ctx token = record ctx { token = some token }

abbrev pub with_permissions : Context → List Permission → Context
with_permissions ctx perms = record ctx { permissions = some perms }

abbrev pub with_master_key : Context → Bool → Context
with_master_key ctx is_master = record ctx { master_key = some is_master }

abbrev pub with_admin : Context → Bool → Context
with_admin ctx is_admin = record ctx { admin = some is_admin }
