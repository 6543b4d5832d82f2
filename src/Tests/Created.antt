-- ===== src/Tests/Created.antt =====
-- A token that is created over the admin API, and a request to the proxy with its key.
use bunny_api_proxy.Base.{
  ℕ, pos, ◌==◌, ◌==ℕ◌, ◌≡◌, ◌≢◌, refl, true, false, none, some, List, [], ◌∷◌, inl, arith, eq_iff,
}
use bunny_api_proxy.Go.ParseInt.{parse_int, digits_value, digits_from}
use bunny_api_proxy.Go.Pattern.{match, strip_prefix, span_digits}
use bunny_api_proxy.Go.Trim.{trim_space, trim_left, trim_right}
use bunny_api_proxy.Storage.Db.{Db}
use bunny_api_proxy.Storage.Tokens.{has_any_admin_token, create_token}
use bunny_api_proxy.Storage.Permissions.{add_permission_for_token}
use bunny_api_proxy.Auth.Bootstrap.{get_state}
use bunny_api_proxy.Auth.Types.{post, HttpRequest}
use bunny_api_proxy.Auth.Parse.{
  parsed, parse_request, parse_records, parse_settings, map_record_type_to_string,
}
use bunny_api_proxy.Auth.Context.{Context, background}
use bunny_api_proxy.Auth.Middleware.{next, extract_access_key, proxy_auth_chain}
use bunny_api_proxy.Auth.Middleware.Laws.{stored_permissions, token_context}
use bunny_api_proxy.Admin.Types.{Response, call}
use bunny_api_proxy.Admin.Create.{
  add_zones, CreateTokenRequest, hex_encode, handle_create_unified_token,
}
use bunny_api_proxy.Admin.Create.Atomic.{created_row}
use bunny_api_proxy.Admin.Create.Usable.{handle_create-usable}
use bunny_api_proxy.Tests.Data.{
  prefix_hash, service, admin_row, two_tokens, two_tokens-IsValid, txt_request,
}

abbrev admin_context : Context
admin_context = token_context admin_row none

abbrev wanted : CreateTokenRequest
wanted = record {
  name = "dns-01";
  is_admin = false;
  zones = pos 5 ∷ [];
  actions = "add_record" ∷ [];
  record_types = "TXT" ∷ [];
}

abbrev bytes : List ℕ
bytes = 10 ∷ 11 ∷ []

abbrev created_out : Response × Db
created_out =
    handle_create_unified_token prefix_hash (some service) (some bytes) admin_context (some wanted)
      two_tokens

abbrev with_new_key : HttpRequest
with_new_key = record {
  method = post;
  path = "/dnszone/5/records";
  access_key = "0a0b";
  body = record { is_readable = true; type_field = some (pos 3) };
}

answered : (created_out.0.status ==ℕ 201) ≡ true
unfolding handle_create_unified_token call get_state has_any_admin_token create_token hex_encode
    add_zones add_permission_for_token
answered = refl

calm : created_out.1.outcomes ≡ []
unfolding handle_create_unified_token call get_state has_any_admin_token create_token hex_encode
    add_zones add_permission_for_token
calm = refl

new_key : extract_access_key with_new_key ≡ hex_encode bytes
unfolding hex_encode trim_space trim_left trim_right
new_key = refl

key-given : (extract_access_key with_new_key == "") ≡ false
unfolding trim_space trim_left trim_right
key-given = refl

key-other : (prefix_hash (extract_access_key with_new_key) == service.master_key_hash) ≡ false
unfolding trim_space trim_left trim_right
key-other = refl

key-ne-master : prefix_hash (extract_access_key with_new_key) ≢ service.master_key_hash
key-ne-master e = ground (
  arith,
  key-other,
  eq_iff (prefix_hash (extract_access_key with_new_key)) service.master_key_hash,
  e,
)

with_new_key-parses : parse_request with_new_key ≡ parsed txt_request
unfolding parse_request parse_records parse_settings match strip_prefix span_digits parse_int
    digits_value digits_from map_record_type_to_string
with_new_key-parses = refl

handle_create-usable_example :
    (proxy_auth_chain prefix_hash service with_new_key background created_out.1).0
    ≡ next (
        token_context (created_row prefix_hash wanted bytes two_tokens) (
          some
            (stored_permissions (created_row prefix_hash wanted bytes two_tokens) created_out.1)))
handle_create-usable_example =
    handle_create-usable prefix_hash (some service) service bytes admin_context wanted two_tokens
      with_new_key txt_request two_tokens-IsValid refl refl answered calm new_key key-given
      key-ne-master with_new_key-parses refl (inl refl) (inl refl) (λ k. inl refl)
