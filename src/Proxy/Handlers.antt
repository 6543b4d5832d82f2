-- ===== src/Proxy/Handlers.antt =====
-- internal/proxy/handler.go and admin.go. A URL parameter is its text, a JSON body what the decoder
-- makes of it (`none` is an error), the client a parameter. Logging is left out.
use bunny_api_proxy.Base.{
  ℤ, pos, String, ◌==◌, Bool, false, not, Option, none, some, List, [], if◌then◌else◌, ◌==ℤ◌, any,
  select, length,
}
use bunny_api_proxy.Go.ParseInt.{parse_int}
use bunny_api_proxy.Auth.Types.{KeyInfo}
use bunny_api_proxy.Auth.Check.{
  contains, has_all_zones_permission, get_permitted_zone_ids, get_permitted_record_types,
}
use bunny_api_proxy.Auth.Parse.{map_record_type_to_string}
use bunny_api_proxy.Auth.Context.{Context, is_admin_from_context}
use bunny_api_proxy.Auth.Middleware.{get_key_info}
use bunny_api_proxy.Proxy.Types.{
  Record, Zone, ListZonesResponse, Document, ClientError, not_found, unauthorized, api_error,
  other_error, Answer, ok, err, Upstream, BunnyClient, code_and_message, zone_list, one_zone,
  record_list, one_record, document, plain_text, no_body, Response, respond, write_error,
}

abbrev pub handle_bunny_error : ClientError → Response
handle_bunny_error not_found = write_error 404 "resource not found"
handle_bunny_error unauthorized = write_error 502 "upstream authentication failed"
handle_bunny_error (api_error status_code message) = write_error status_code message
handle_bunny_error other_error = write_error 500 "internal server error"

-- A map of the permitted types: a record stays if the name of its type is one of them.
abbrev pub has_type : List String → Record → Bool
has_type types r = contains (map_record_type_to_string r.record_type) types

abbrev pub filter_by_types : Option (List String) → List Record → List Record
filter_by_types none records = records
filter_by_types (some types) records = select (has_type types) records

unfoldable pub filter_records_by_permission : List Record → Option KeyInfo → ℤ → List Record
filter_records_by_permission records none zone_id = records
filter_records_by_permission records (some k) zone_id =
    filter_by_types (get_permitted_record_types (some k) zone_id) records

-- A nil slice of ids, which stands for all zones, makes an empty set.
abbrev pub or_no_ids : Option (List ℤ) → List ℤ
or_no_ids none = []
or_no_ids (some ids) = ids

abbrev pub has_zone_id : List ℤ → Zone → Bool
has_zone_id ids z = any (λ id. id ==ℤ z.id) ids

abbrev pub restrict : List ℤ → ListZonesResponse → ListZonesResponse
restrict ids result =
    let filtered = select (has_zone_id ids) result.items in
    record result { items = filtered; total_items = length filtered; has_more_items = false }

unfoldable pub filter_zones : Option KeyInfo → ListZonesResponse → ListZonesResponse
filter_zones none result = result
filter_zones (some k) result =
    if not (has_all_zones_permission (some k))
    then restrict (or_no_ids (get_permitted_zone_ids (some k))) result
    else result

-- strconv.Atoi of an optional query parameter; where it is missing the option stays 0.
abbrev pub number_of : String → Option ℤ
number_of text = if text == "" then some (pos 0) else parse_int text

abbrev pub answered : {A : Type 0} → Answer A → (A → Response) → Response
answered (ok a) k = k a
answered (err e) k = handle_bunny_error e

-- A nil record is answered without a body.
abbrev pub updated : Option Record → Response
updated none = respond 204 no_body
updated (some r) = respond 200 (one_record r)

abbrev pub filter_zone : Context → ℤ → Zone → Zone
filter_zone ctx zone_id zone = record zone {
  records = filter_records_by_permission zone.records (get_key_info ctx) zone_id;
}

module _ {W : Type 0} where
  -- An operation of the client, then the rest of the handler, or the answer to its error.
  abbrev pub upstream : {A : Type 0} → Upstream W A → (A → Response) → W → Response × W
  upstream op k w = let (r, w') = op w in (answered r k, w')

  -- `chi.URLParam` and `strconv.ParseInt`
  abbrev pub with_id :
      String → (missing invalid : String) → (ℤ → W → Response × W) → W → Response × W
  with_id text missing invalid k w =
      if text == ""
      then (write_error 400 missing, w)
      else elim (parse_int text) [ none ↦ (write_error 400 invalid, w) | some id ↦ k id w ]

  abbrev pub with_zone_id : String → (ℤ → W → Response × W) → W → Response × W
  with_zone_id text = with_id text "missing zone ID" "invalid zone ID"

  abbrev pub with_record_id : String → (ℤ → W → Response × W) → W → Response × W
  with_record_id text = with_id text "missing record ID" "invalid record ID"

  -- `json.NewDecoder(r.Body).Decode(&req)`
  abbrev pub with_body : Option String → (String → W → Response × W) → W → Response × W
  with_body none k w = (write_error 400 "invalid request body", w)
  with_body (some req) k w = k req w

  abbrev pub with_text : String → (missing : String) → (W → Response × W) → W → Response × W
  with_text text missing k w = if text == "" then (write_error 400 missing, w) else k w

  module _ (client : BunnyClient W) (ctx : Context) where
    unfoldable pub handle_list_zones : (page per_page search : String) → W → Response × W
    handle_list_zones page per_page search w = elim (number_of page) [
      | none ↦ (write_error 400 "invalid page parameter", w)
      | some p ↦ elim (number_of per_page) [
        | none ↦ (write_error 400 "invalid perPage parameter", w)
        | some n ↦
            upstream (client.list_zones (record { page = p; per_page = n; search = search }))
              (λ result. respond 200 (zone_list (filter_zones (get_key_info ctx) result))) w
      ]
    ]

    unfoldable pub handle_create_zone : Option String → W → Response × W
    handle_create_zone body = with_body body λ domain.
        with_text domain "missing domain"
          (upstream (client.create_zone domain) (λ zone. respond 201 (one_zone zone)))

    unfoldable pub handle_get_zone : String → W → Response × W
    handle_get_zone id_text = with_zone_id id_text λ zone_id.
        upstream (client.get_zone zone_id)
          (λ zone. respond 200 (one_zone (filter_zone ctx zone_id zone)))

    unfoldable pub handle_delete_zone : String → W → Response × W
    handle_delete_zone id_text =
        with_zone_id id_text
          (λ zone_id. upstream (client.delete_zone zone_id) (λ _. respond 204 no_body))

    unfoldable pub handle_update_zone : String → Option Document → W → Response × W
    handle_update_zone id_text body = with_zone_id id_text λ zone_id.
        with_body body
          λ req. upstream (client.update_zone zone_id req) (λ zone. respond 200 (one_zone zone))

    unfoldable pub handle_check_availability : Option String → W → Response × W
    handle_check_availability body = with_body body λ name.
        with_text name "missing domain name"
          (upstream (client.check_zone_availability name) (λ d. respond 200 (document d)))

    unfoldable pub handle_import_records : String → (body content_type : String) → W → Response × W
    handle_import_records id_text body content_type = with_zone_id id_text λ zone_id.
        upstream (client.import_records zone_id body content_type) (λ d. respond 200 (document d))

    unfoldable pub handle_export_records : String → W → Response × W
    handle_export_records id_text =
        with_zone_id id_text
          (λ zone_id. upstream (client.export_records zone_id) (λ t. respond 200 (plain_text t)))

    unfoldable pub handle_enable_dnssec : String → W → Response × W
    handle_enable_dnssec id_text =
        with_zone_id id_text
          (λ zone_id. upstream (client.enable_dnssec zone_id) (λ d. respond 200 (document d)))

    unfoldable pub handle_disable_dnssec : String → W → Response × W
    handle_disable_dnssec id_text =
        with_zone_id id_text
          (λ zone_id. upstream (client.disable_dnssec zone_id) (λ d. respond 200 (document d)))

    unfoldable pub handle_issue_certificate : String → Option String → W → Response × W
    handle_issue_certificate id_text body = with_zone_id id_text λ zone_id.
        with_body body
          λ domain. upstream (client.issue_certificate zone_id domain) (λ _. respond 200 no_body)

    unfoldable pub handle_get_statistics : String → (date_from date_to : String) → W → Response × W
    handle_get_statistics id_text date_from date_to = with_zone_id id_text λ zone_id.
        upstream (client.get_zone_statistics zone_id date_from date_to)
          (λ d. respond 200 (document d))

    unfoldable pub handle_trigger_scan : Option String → W → Response × W
    handle_trigger_scan body = with_body body λ domain.
        with_text domain "missing domain"
          (upstream (client.trigger_dns_scan domain) (λ d. respond 200 (document d)))

    unfoldable pub handle_get_scan_result : String → W → Response × W
    handle_get_scan_result id_text =
        with_zone_id id_text
          (λ zone_id. upstream (client.get_dns_scan_result zone_id) (λ d. respond 200 (document d)))

    unfoldable pub handle_list_records : String → W → Response × W
    handle_list_records id_text = with_zone_id id_text λ zone_id.
        upstream (client.get_zone zone_id)
          (λ zone. respond 200 (record_list (filter_zone ctx zone_id zone).records))

    unfoldable pub handle_add_record : String → Option Document → W → Response × W
    handle_add_record id_text body = with_zone_id id_text λ zone_id.
        with_body body
          λ req. upstream (client.add_record zone_id req) (λ r. respond 201 (one_record r))

    unfoldable pub handle_update_record : String → String → Option Document → W → Response × W
    handle_update_record id_text record_text body = with_zone_id id_text λ zone_id.
        with_record_id record_text λ record_id.
          with_body body (λ req. upstream (client.update_record zone_id record_id req) updated)

    unfoldable pub handle_delete_record : String → String → W → Response × W
    handle_delete_record id_text record_text = with_zone_id id_text λ zone_id.
        with_record_id record_text
          λ record_id. upstream (client.delete_record zone_id record_id) (λ _. respond 204 no_body)

  -- requireAdmin of admin.go
  unfoldable pub require_admin : Context → (W → Response × W) → W → Response × W
  require_admin ctx handler w =
      if not (is_admin_from_context ctx)
      then (
        respond 403 (code_and_message "admin_required" "This endpoint requires an admin token."),
        w,
      )
      else handler w
