-- ===== src/Auth/Types.antt =====
-- The types of internal/auth/auth.go, and the parts of an HTTP request that the package reads.
use bunny_api_proxy.Base.{ℤ, String, Bool, false, true, Option, List}
use bunny_api_proxy.Storage.Types.{Permission}

pub data Action : Type 0 where
  list_zones get_zone list_records add_record update_record delete_record create_zone : Action
  update_zone check_availability import_records export_records enable_dnssec : Action
  disable_dnssec issue_certificate get_statistics trigger_dns_scan get_dns_scan_result : Action

-- The text of the constant, which the permissions hold.
abbrev pub action_name : Action → String
action_name list_zones = "list_zones"
action_name get_zone = "get_zone"
action_name list_records = "list_records"
action_name add_record = "add_record"
action_name update_record = "update_record"
action_name delete_record = "delete_record"
action_name create_zone = "create_zone"
action_name update_zone = "update_zone"
action_name check_availability = "check_availability"
action_name import_records = "import_records"
action_name export_records = "export_records"
action_name enable_dnssec = "enable_dnssec"
action_name disable_dnssec = "disable_dnssec"
action_name issue_certificate = "issue_certificate"
action_name get_statistics = "get_statistics"
action_name trigger_dns_scan = "trigger_dns_scan"
action_name get_dns_scan_result = "get_dns_scan_result"

-- `req.Action == ActionListZones`, `req.Action == ActionGetZone`
abbrev pub is_list_zones : Action → Bool
is_list_zones list_zones = true
is_list_zones _ = false

abbrev pub is_get_zone : Action → Bool
is_get_zone get_zone = true
is_get_zone _ = false

-- `ActionUpdateZone || ActionCreateZone || …` of the middleware `CheckPermissions`.
abbrev pub is_admin_only : Action → Bool
is_admin_only list_zones = false
is_admin_only get_zone = false
is_admin_only list_records = false
is_admin_only add_record = false
is_admin_only update_record = false
is_admin_only delete_record = false
is_admin_only _ = true

pub record Request : Type 0 where
  pub action : Action
  pub zone_id : ℤ
  pub record_type : String

pub record KeyInfo : Type 0 where
  pub key_id : ℤ
  pub key_name : String
  pub permissions : List Permission

pub data Method : Type 0 where
  get post put delete other : Method

-- The request body: whether `io.ReadAll` returns it, and what `json.Unmarshal` makes of the field
-- `Type` (0 where it is missing); `none` is an error.
pub record Body : Type 0 where
  pub is_readable : Bool
  pub type_field : Option ℤ

pub record HttpRequest : Type 0 where
  pub method : Method
  pub path : String
  pub access_key : String
  pub body : Body
