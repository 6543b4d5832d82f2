-- ===== src/Bunny/Client/Operations.antt =====
-- The operations of the client (internal/bunny/client.go). A document is the encoded request body.
use Prim.Native.String.{◌++◌}
use bunny_api_proxy.Base.{
  ℤ, String, ◌==◌, not, Option, none, some, [], ◌==ℕ◌, if◌then◌else◌, is_not_pos,
}
use bunny_api_proxy.Go.FormatInt.{format_int}
use bunny_api_proxy.Proxy.Types.{
  Record, Zone, ListZonesResponse, ListZonesOptions, Document, ok, err, Upstream, BunnyClient,
}
use bunny_api_proxy.Bunny.Client.{
  Library, Client, availability, import_result, dnssec, statistics, scan_result, decoded, set_query,
  json_header, content_header, parse_error, not_found_or, with_query, send, zones_url, zone_url,
  below_url, record_url, zone_or, document_or, done_or, decoded_record,
}

module _ {W : Type 0} (lib : Library W) (c : Client) where
  unfoldable pub list_zones : ListZonesOptions → Upstream W ListZonesResponse
  list_zones opts =
      send lib c "GET"
        (with_query lib (zones_url lib c) (
          set_query (not (is_not_pos opts.page)) "page" (format_int opts.page) (
            set_query (not (is_not_pos opts.per_page)) "perPage" (format_int opts.per_page)
              (set_query (not (opts.search == "")) "search" opts.search []))))
        [] none
        λ status_code body.
          if not (status_code ==ℕ 200)
          then err (parse_error lib status_code body)
          else decoded (lib.decode_zones body)

  unfoldable pub get_zone : ℤ → Upstream W Zone
  get_zone id = send lib c "GET" (zone_url lib c id) [] none (zone_or lib c 200)

  unfoldable pub add_record : ℤ → Document → Upstream W Record
  add_record zone_id req =
      send lib c "PUT" (below_url lib c zone_id "/records") json_header (some req)
        λ status_code body.
          if status_code ==ℕ 201
          then decoded (lib.decode_record body)
          else not_found_or lib status_code body

  unfoldable pub update_record : ℤ → ℤ → Document → Upstream W (Option Record)
  update_record zone_id record_id req =
      send lib c "POST" (record_url lib c zone_id record_id) json_header (some req)
        λ status_code body.
          if status_code ==ℕ 200
          then decoded_record lib c (lib.decode_record body)
          else if status_code ==ℕ 204
          then ok none
          else not_found_or lib status_code body

  unfoldable pub delete_record : ℤ → ℤ → Upstream W (Unit {0})
  delete_record zone_id record_id =
      send lib c "DELETE" (record_url lib c zone_id record_id) [] none (done_or lib c 204)

  unfoldable pub create_zone : String → Upstream W Zone
  create_zone domain =
      send lib c "POST" (zones_url lib c) json_header (some (lib.encode_domain domain))
        λ status_code body.
          if status_code ==ℕ 201
          then decoded (lib.decode_zone body)
          else err (parse_error lib status_code body)

  unfoldable pub delete_zone : ℤ → Upstream W (Unit {0})
  delete_zone id = send lib c "DELETE" (zone_url lib c id) [] none (done_or lib c 204)

  unfoldable pub update_zone : ℤ → Document → Upstream W Zone
  update_zone id req =
      send lib c "POST" (zone_url lib c id) json_header (some req) (zone_or lib c 200)

  unfoldable pub check_zone_availability : String → Upstream W Document
  check_zone_availability name =
      send lib c "POST" (c.base_url ++ "/dnszone/checkavailability") json_header
        (some (lib.encode_name name))
        λ status_code body.
          if status_code ==ℕ 200
          then decoded (lib.decode_document availability body)
          else err (parse_error lib status_code body)

  unfoldable pub import_records : ℤ → (body content_type : String) → Upstream W Document
  import_records zone_id body content_type =
      send lib c "POST" (below_url lib c zone_id "/import") (content_header content_type)
        (some body) (document_or lib c import_result)

  unfoldable pub export_records : ℤ → Upstream W String
  export_records zone_id =
      send lib c "GET" (below_url lib c zone_id "/export") [] none λ status_code body.
        if status_code ==ℕ 200 then ok body else not_found_or lib status_code body

  unfoldable pub enable_dnssec : ℤ → Upstream W Document
  enable_dnssec zone_id =
      send lib c "POST" (below_url lib c zone_id "/dnssec") [] none (document_or lib c dnssec)

  unfoldable pub disable_dnssec : ℤ → Upstream W Document
  disable_dnssec zone_id =
      send lib c "DELETE" (below_url lib c zone_id "/dnssec") [] none (document_or lib c dnssec)

  unfoldable pub issue_certificate : ℤ → String → Upstream W (Unit {0})
  issue_certificate zone_id domain =
      send lib c "POST" (below_url lib c zone_id "/certificate/issue") json_header
        (some (lib.encode_domain domain)) (done_or lib c 200)

  unfoldable pub get_zone_statistics : ℤ → (date_from date_to : String) → Upstream W Document
  get_zone_statistics zone_id date_from date_to =
      send lib c "GET"
        (with_query lib (below_url lib c zone_id "/statistics") (
          set_query (not (date_from == "")) "dateFrom" date_from
            (set_query (not (date_to == "")) "dateTo" date_to [])))
        [] none (document_or lib c statistics)

  unfoldable pub trigger_dns_scan : String → Upstream W Document
  trigger_dns_scan domain =
      send lib c "POST" (c.base_url ++ "/dnszone/records/scan") json_header
        (some (lib.encode_domain domain)) (document_or lib c scan_result)

  unfoldable pub get_dns_scan_result : ℤ → Upstream W Document
  get_dns_scan_result zone_id =
      send lib c "GET" (below_url lib c zone_id "/records/scan") [] none
        (document_or lib c scan_result)

  -- The client as the proxy's handlers take it.
  unfoldable pub new_client : BunnyClient W
  new_client = record {
    list_zones = list_zones;
    create_zone = create_zone;
    get_zone = get_zone;
    delete_zone = delete_zone;
    update_zone = update_zone;
    check_zone_availability = check_zone_availability;
    import_records = import_records;
    export_records = export_records;
    enable_dnssec = enable_dnssec;
    disable_dnssec = disable_dnssec;
    issue_certificate = issue_certificate;
    get_zone_statistics = get_zone_statistics;
    trigger_dns_scan = trigger_dns_scan;
    get_dns_scan_result = get_dns_scan_result;
    add_record = add_record;
    update_record = update_record;
    delete_record = delete_record;
  }
