-- ===== src/Tests/Zones.antt =====
-- The theorems on the proxy's handlers with a concrete client, which counts its calls and answers with
-- two zones.
use bunny_api_proxy.Base.{
  ℕ, suc, ℤ, pos, ◌≡◌, ◌↔◌, refl, true, none, some, List, [], ◌∷◌, inl, Member,
}
use bunny_api_proxy.Base.Sort.{order_by}
use bunny_api_proxy.Storage.Types.{Token}
use bunny_api_proxy.Storage.Tokens.{get_token_by_hash, has_any_admin_token}
use bunny_api_proxy.Storage.Permissions.{get_permissions_for_token}
use bunny_api_proxy.Go.ParseInt.{parse_int, digits_value, digits_from}
use bunny_api_proxy.Go.Pattern.{match, strip_prefix, span_digits}
use bunny_api_proxy.Go.Trim.{trim_space, trim_left, trim_right}
use bunny_api_proxy.Auth.Types.{get, HttpRequest}
use bunny_api_proxy.Auth.Check.{check_permission}
use bunny_api_proxy.Auth.Context.{background}
use bunny_api_proxy.Auth.Bootstrap.{validate_master_key, can_use_master_key, get_state}
use bunny_api_proxy.Auth.Parse.{parse_request, map_record_type_to_string}
use bunny_api_proxy.Auth.Middleware.{
  next, extract_access_key, authenticate, authenticate_token, admit_token, check_permissions,
  proxy_auth_chain, get_key_info,
}
use bunny_api_proxy.Proxy.Types.{
  Record, Zone, ListZonesResponse, ok, BunnyClient, zone_list, record_list, respond,
}
use bunny_api_proxy.Proxy.Handlers.{number_of, handle_list_zones, handle_list_records}
use bunny_api_proxy.Proxy.Filters.{handle_list_records-Member}
use bunny_api_proxy.Proxy.Granted.{GrantsZone, list_zones-GrantsZone}
use bunny_api_proxy.Tests.Data.{
  prefix_hash, service, txt_row, two_tokens, two_tokens-IsValid, add_txt, acme_info,
}
use bunny_api_proxy.Tests.Proxy.{acme_context}

abbrev txt_record : Record
txt_record = record {
  id = pos 1;
  record_type = pos 3;
  name = "_acme";
  value = "v";
  other_fields = "";
}

abbrev a_record : Record
a_record = record {
  id = pos 2;
  record_type = pos 0;
  name = "www";
  value = "1.2.3.4";
  other_fields = "";
}

abbrev zone_of : ℤ → Zone
zone_of id = record {
  id = id;
  domain = "example.org";
  records = txt_record ∷ a_record ∷ [];
  other_fields = "";
}

abbrev two_zones : ListZonesResponse
two_zones = record {
  current_page = pos 1;
  total_items = 9;
  has_more_items = true;
  items = zone_of (pos 5) ∷ zone_of (pos 6) ∷ [];
}

-- Every operation answers, and adds one to the number of calls.
abbrev counting_client : BunnyClient ℕ
counting_client = record {
  list_zones = λ _ w. (ok two_zones, suc w);
  create_zone = λ _ w. (ok (zone_of (pos 7)), suc w);
  get_zone = λ id w. (ok (zone_of id), suc w);
  delete_zone = λ _ w. (ok tt, suc w);
  update_zone = λ id _ w. (ok (zone_of id), suc w);
  check_zone_availability = λ _ w. (ok "", suc w);
  import_records = λ _ _ _ w. (ok "", suc w);
  export_records = λ _ w. (ok "", suc w);
  enable_dnssec = λ _ w. (ok "", suc w);
  disable_dnssec = λ _ w. (ok "", suc w);
  issue_certificate = λ _ _ w. (ok tt, suc w);
  get_zone_statistics = λ _ _ _ w. (ok "", suc w);
  trigger_dns_scan = λ _ w. (ok "", suc w);
  get_dns_scan_result = λ _ w. (ok "", suc w);
  add_record = λ _ _ w. (ok txt_record, suc w);
  update_record = λ _ _ _ w. (ok none, suc w);
  delete_record = λ _ _ w. (ok tt, suc w);
}

abbrev list_request : HttpRequest
list_request = record add_txt { method = get; path = "/dnszone/" }

list_request-passes :
    (proxy_auth_chain prefix_hash service list_request background two_tokens).0 ≡ next acme_context
unfolding proxy_auth_chain check_permissions check_permission authenticate authenticate_token
    admit_token validate_master_key can_use_master_key get_state has_any_admin_token
    get_token_by_hash get_permissions_for_token trim_space trim_left trim_right order_by
    parse_request match strip_prefix span_digits
list_request-passes = refl

page-read : number_of "2" ≡ some (pos 2)
unfolding parse_int digits_value digits_from
page-read = refl

zone-read : parse_int "5" ≡ some (pos 5)
unfolding parse_int digits_value digits_from
zone-read = refl

acme-known :
    get_key_info acme_context
    ≡ some (record acme_info { permissions = record txt_row { created_at = 0 } ∷ [] })
unfolding get_key_info
acme-known = refl

list_zones-GrantsZone_example :
    (t : Token) × Member t two_tokens.tokens
    × (t.key_hash ≡ prefix_hash (extract_access_key list_request))
    × (shown : ListZonesResponse) × (handle_list_zones counting_client acme_context "2" "" "" 0
        ≡ (respond 200 (zone_list shown), 1))
    × ((z : Zone)
        → Member z shown.items ↔ (Member z two_zones.items × GrantsZone two_tokens t z.id))
list_zones-GrantsZone_example =
    list_zones-GrantsZone prefix_hash service list_request two_tokens acme_context counting_client
      "2" "" "" (pos 2) (pos 0) two_zones 0 1 two_tokens-IsValid list_request-passes refl page-read
      refl refl

handle_list_records-Member_example :
    (shown : List Record) × (handle_list_records counting_client acme_context "5" 0
      ≡ (respond 200 (record_list shown), 1))
    × ((r : Record)
        → Member r shown ↔ (
            Member r (zone_of (pos 5)).records
            × Member (map_record_type_to_string r.record_type) txt_row.record_types))
handle_list_records-Member_example =
    handle_list_records-Member counting_client acme_context
      (record acme_info { permissions = record txt_row { created_at = 0 } ∷ [] })
      (record txt_row { created_at = 0 }) "5" (pos 5) (zone_of (pos 5)) 0 1 acme-known
      (inl (refl, refl)) refl refl zone-read refl
