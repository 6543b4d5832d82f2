-- ===== src/MockBunny/Records.antt =====
-- The handlers on records of the simulated bunny.net (internal/testutil/mockbunny/handlers.go, server.go
-- and admin.go).
use bunny_api_proxy.Base.{
  ℕ, suc, ℤ, pos, ◌==ℤ◌, String, ◌==◌, Bool, true, false, not, ◌&&◌, ◌||◌, Option, List, [], ◌∷◌,
  ◌++◌, any, if◌then◌else◌,
}
use bunny_api_proxy.MockBunny.Types.{
  Record, Zone, State, Response, respond, api_error, one_record, no_body, zone_not_found,
  record_not_found, bad_body, change_zone, with_id, with_zone_id, with_record_id, with_zone,
  with_body,
}

-- AddRecordRequest of handlers.go and addRecordRequestInput of server.go
pub record RecordInput : Type 0 where
  pub record_type : ℤ
  pub name : String
  pub value : String
  pub ttl : ℤ
  pub priority : ℤ
  pub weight : ℤ
  pub port : ℤ
  pub flags : ℤ
  pub tag : String
  pub disabled : Bool
  pub comment : String

abbrev pub new_record : ℤ → RecordInput → Record
new_record id req = record {
  id = id;
  record_type = req.record_type;
  ttl = req.ttl;
  value = req.value;
  name = req.name;
  weight = req.weight;
  priority = req.priority;
  port = req.port;
  flags = req.flags;
  tag = req.tag;
  disabled = req.disabled;
  comment = req.comment;
  auto_ssl_issuance = true;
}

-- The fields that admin.go and the import leave out.
abbrev pub short_input : (record_type : ℤ) → (name value : String) → (ttl : ℤ) → RecordInput
short_input record_type name value ttl = record {
  record_type = record_type;
  name = name;
  value = value;
  ttl = ttl;
  priority = pos 0;
  weight = pos 0;
  port = pos 0;
  flags = pos 0;
  tag = "";
  disabled = false;
  comment = "";
}

abbrev pub append_record : Record → Zone → Zone
append_record r zone = record zone { records = zone.records ++ r ∷ [] }

abbrev pub modified : (now : ℕ) → Zone → Zone
modified now zone = record zone { date_modified = now }

-- A new record at the end of the zone.
unfoldable pub add_record : ℤ → RecordInput → State → State
add_record zone_id req s = record s {
  zones = change_zone zone_id (append_record (new_record (pos s.next_record_id) req)) s.zones;
  next_record_id = suc s.next_record_id;
}

abbrev pub touch_zone : ℤ → (now : ℕ) → State → State
touch_zone zone_id now s = record s { zones = change_zone zone_id (modified now) s.zones }

unfoldable pub handle_add_record :
    String → Option RecordInput → (now : ℕ) → State → Response × State
handle_add_record zone_text body now = with_zone_id zone_text λ zone_id.
    with_body body bad_body λ req s.
      if req.value == ""
      then (respond 400 (api_error "validation_error" "Value" "Value is required"), s)
      else if req.name == "" && not (req.record_type ==ℤ pos 4) && not (req.record_type ==ℤ pos 9)
      then (respond 400 (api_error "validation_error" "Name" "Name is required"), s)
      else with_zone zone_id zone_not_found
          (λ zone s. (
            respond 201 (one_record (new_record (pos s.next_record_id) req)),
            touch_zone zone_id now (add_record zone_id req s),
          ))
          s

abbrev pub is_record : ℤ → Record → Bool
is_record id r = r.id ==ℤ id

-- Everything but the type and the id.
abbrev pub update_record : RecordInput → Record → Record
update_record req r = record r {
  name = req.name;
  value = req.value;
  ttl = req.ttl;
  priority = req.priority;
  weight = req.weight;
  port = req.port;
  flags = req.flags;
  tag = req.tag;
  disabled = req.disabled;
  comment = req.comment;
}

-- The first record with the id is changed.
unfoldable pub change_record : ℤ → (Record → Record) → List Record → List Record
change_record id f [] = []
change_record id f (r ∷ records) =
    let rest = change_record id f records in if is_record id r then f r ∷ records else r ∷ rest

-- The first record with the id is taken out.
unfoldable pub remove_record : ℤ → List Record → List Record
remove_record id [] = []
remove_record id (r ∷ records) =
    let rest = remove_record id records in if is_record id r then records else r ∷ rest

abbrev pub with_records : (List Record → List Record) → Zone → Zone
with_records f zone = record zone { records = f zone.records }

unfoldable pub handle_update_record :
    (zone_text id_text : String) → Option RecordInput → (now : ℕ) → State → Response × State
handle_update_record zone_text id_text body now = with_zone_id zone_text λ zone_id.
    with_record_id id_text λ id. with_body body bad_body λ req.
      with_zone zone_id zone_not_found λ zone s.
        if any (is_record id) zone.records
        then (
          respond 204 no_body,
          touch_zone zone_id now (record s {
            zones =
                change_zone zone_id (with_records (change_record id (update_record req))) s.zones;
          }),
        )
        else (record_not_found, s)

unfoldable pub handle_delete_record :
    (zone_text id_text : String) → (now : ℕ) → State → Response × State
handle_delete_record zone_text id_text now = with_zone_id zone_text λ zone_id.
    with_record_id id_text λ id. with_zone zone_id zone_not_found λ zone s.
      if any (is_record id) zone.records
      then (
        respond 204 no_body,
        touch_zone zone_id now
            (record s { zones = change_zone zone_id (with_records (remove_record id)) s.zones }),
      )
      else (record_not_found, s)

-- handleAdminCreateRecord of admin.go, which leaves the time of the zone
unfoldable pub handle_admin_create_record : String → Option RecordInput → State → Response × State
handle_admin_create_record zone_text body =
    with_id zone_text (respond 400 (api_error "INVALID_ZONE_ID" "zoneId" "Invalid zone ID"))
      λ zone_id.
        with_body body (respond 400 (api_error "INVALID_JSON" "" "Invalid request body")) λ req s.
          if req.name == "" || req.value == ""
          then (
            respond 400 (api_error "MISSING_FIELDS" "name,value" "Name and value are required"),
            s,
          )
          else with_zone zone_id
              (respond 404 (api_error "ZONE_NOT_FOUND" "zoneId" "Zone not found"))
              (λ zone s.
                let input = short_input req.record_type req.name req.value req.ttl in
                (
                  respond 201 (one_record (new_record (pos s.next_record_id) input)),
                  add_record zone_id input s,
                ))
              s
