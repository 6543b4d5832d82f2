-- ===== src/Tests/Proxy.antt =====
-- The theorems on the proxy's authentication and authorisation at concrete requests.
use bunny_api_proxy.Base.{pos, ◌≡◌, refl, true, some, [], ◌∷◌, ◌++◌, inl, arith}
use bunny_api_proxy.Storage.Types.{Token, Permission}
use bunny_api_proxy.Auth.Types.{add_record, Request}
use bunny_api_proxy.Auth.Check.{check_permission}
use bunny_api_proxy.Auth.Check.Laws.{check_permission-shadowed}
use bunny_api_proxy.Auth.Parse.{
  parsed, parse_request, parse_records, parse_settings, map_record_type_to_string,
}
use bunny_api_proxy.Go.Pattern.{match, strip_prefix, span_digits}
use bunny_api_proxy.Go.ParseInt.{parse_int, digits_value, digits_from}
use bunny_api_proxy.Go.Trim.{trim_space, trim_left, trim_right}
use bunny_api_proxy.Auth.Parse.Sound.{IsDescribed, parse_request_sound}
use bunny_api_proxy.Auth.Context.{background}
use bunny_api_proxy.Auth.Middleware.{
  next, extract_access_key, authenticate, authenticate_token, admit_token, check_permissions,
  proxy_auth_chain,
}
use bunny_api_proxy.Auth.Middleware.Laws.{Admitted, token_context, authenticate_sound}
use bunny_api_proxy.Auth.Middleware.Chain.{IsAuthorized, HasRow, proxy_auth_chain-IsAuthorized}
use bunny_api_proxy.Auth.Bootstrap.{validate_master_key, can_use_master_key, get_state}
use bunny_api_proxy.Storage.Tokens.{get_token_by_hash, has_any_admin_token}
use bunny_api_proxy.Storage.Permissions.{get_permissions_for_token}
use bunny_api_proxy.Base.Sort.{order_by}
use bunny_api_proxy.Storage.Types.{ok}
use bunny_api_proxy.Storage.Db.{Db}
use bunny_api_proxy.Storage.Tokens.{delete_token}
use bunny_api_proxy.Storage.Valid.{IsValid}
use bunny_api_proxy.Auth.Types.{HttpRequest}
use bunny_api_proxy.Auth.Middleware.Laws.{master_context}
use bunny_api_proxy.Auth.Middleware.Revoked.{delete_token-revokes}
use bunny_api_proxy.Tests.Data.{admin_row}
use bunny_api_proxy.Tests.Data.{
  prefix_hash, service, scoped_row, txt_row, two_tokens, add_txt, txt_request, acme_info,
}
use bunny_api_proxy.Auth.Context.{Context}

abbrev pub acme_context : Context
acme_context = token_context scoped_row (some (record txt_row { created_at = 0 } ∷ []))

add_txt-authenticates :
    (authenticate prefix_hash service add_txt background two_tokens).0 ≡ next acme_context
unfolding authenticate authenticate_token admit_token validate_master_key can_use_master_key
    get_state has_any_admin_token get_token_by_hash get_permissions_for_token trim_space trim_left
    trim_right order_by
add_txt-authenticates = refl

add_txt-parses : parse_request add_txt ≡ parsed txt_request
unfolding parse_request parse_records parse_settings match strip_prefix span_digits parse_int
    digits_value digits_from map_record_type_to_string
add_txt-parses = refl

add_txt-passes :
    (proxy_auth_chain prefix_hash service add_txt background two_tokens).0 ≡ next acme_context
unfolding proxy_auth_chain check_permissions check_permission
add_txt-passes = ground (arith, add_txt-authenticates, add_txt-parses)

add_txt_row : HasRow two_tokens scoped_row txt_request
add_txt_row = (txt_row, inl refl, refl, refl)

-- Witnesses.
proxy_auth_chain-IsAuthorized_example : IsAuthorized prefix_hash two_tokens add_txt acme_context
proxy_auth_chain-IsAuthorized_example =
    proxy_auth_chain-IsAuthorized prefix_hash service add_txt two_tokens acme_context add_txt-passes
      refl

authenticate_sound_example :
    Admitted prefix_hash service (extract_access_key add_txt) two_tokens acme_context
authenticate_sound_example =
    authenticate_sound prefix_hash service add_txt two_tokens acme_context add_txt-authenticates

parse_request_sound_example : IsDescribed add_txt txt_request
parse_request_sound_example = parse_request_sound add_txt txt_request add_txt-parses

add_txt-allowed : check_permission acme_info txt_request ≡ true
unfolding check_permission
add_txt-allowed = refl

-- A second permission for the zone of the token, which would allow A records.
abbrev a_row : Permission
a_row = record txt_row { id = pos 2; record_types = "A" ∷ [] }

abbrev a_request : Request
a_request = record { action = add_record; zone_id = pos 5; record_type = "A" }

check_permission-shadowed_example :
    check_permission
      (record { key_id = pos 2; key_name = "acme"; permissions = (txt_row ∷ []) ++ (a_row ∷ []) })
      a_request
    ≡ check_permission
        (record { key_id = pos 2; key_name = "acme"; permissions = txt_row ∷ [] })
        a_request
check_permission-shadowed_example =
    check_permission-shadowed (pos 2) "acme" (txt_row ∷ []) (a_row ∷ []) txt_row a_request
      (inl (refl, refl))

-- The only admin token, whose key is the master key's, is deleted.
abbrev master_row : Token
master_row = record admin_row { key_hash = prefix_hash "master" }

abbrev only_admin : Db
only_admin = record two_tokens { tokens = master_row ∷ []; permissions = [] }

only_admin-IsValid : IsValid only_admin
only_admin-IsValid = record {
  ids = (tt, tt);
  hashes = (tt, tt);
  issued = ((omega arith, omega arith), tt);
  permission_ids = tt;
  permission_issued = tt;
  owned = tt;
  checked = tt;
}

abbrev by_master : HttpRequest
by_master = record add_txt { access_key = "master" }

only_admin-deleted : (delete_token (pos 1) only_admin).0 ≡ ok tt
unfolding delete_token
only_admin-deleted = refl

master-matches : prefix_hash (extract_access_key by_master) ≡ master_row.key_hash
unfolding trim_space trim_left trim_right
master-matches = refl

master-authenticates :
    (authenticate prefix_hash service by_master background (delete_token (pos 1) only_admin).1).0
    ≡ next master_context
unfolding authenticate validate_master_key can_use_master_key get_state has_any_admin_token
    trim_space trim_left trim_right delete_token
master-authenticates = refl

delete_token-revokes_example :
    (master_context ≡ master_context)
    × (prefix_hash (extract_access_key by_master) ≡ service.master_key_hash)
delete_token-revokes_example =
    delete_token-revokes prefix_hash service master_row only_admin by_master master_context
      only_admin-IsValid (inl refl) only_admin-deleted master-matches master-authenticates
