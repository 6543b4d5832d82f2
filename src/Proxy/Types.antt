-- ===== src/Proxy/Types.antt =====
-- The types of internal/bunny/types.go and errors.go that the proxy reads, the interface `BunnyClient`
-- of internal/proxy/handler.go, and the answers of a handler.
use bunny_api_proxy.Base.{ℕ, ℤ, String, Bool, Option, List}

-- `other_fields` is the encoded rest of the struct, which the proxy passes on unread; so are the
-- documents of the operations that the proxy does not look into.
pub record Record : Type 0 where
  pub id : ℤ
  pub record_type : ℤ
  pub name : String
  pub value : String
  pub other_fields : String

pub record Zone : Type 0 where
  pub id : ℤ
  pub domain : String
  pub records : List Record
  pub other_fields : String

pub record ListZonesResponse : Type 0 where
  pub current_page : ℤ
  pub total_items : ℕ
  pub has_more_items : Bool
  pub items : List Zone

pub record ListZonesOptions : Type 0 where
  pub page : ℤ
  pub per_page : ℤ
  pub search : String

abbrev pub Document : Type 0
Document = String

-- The errors of the client, as `errors.Is` and `errors.As` tell them apart.
pub data ClientError : Type 0 where
  not_found unauthorized : ClientError
  api_error : (status_code : ℕ) → (message : String) → ClientError
  other_error : ClientError

pub data Answer (A : Type 0) : Type 0 where
  ok : A → Answer A
  err : ClientError → Answer A

-- An operation of the client, on the state `W` of what is upstream.
abbrev pub Upstream : Type 0 → Type 0 → Type 0
Upstream W A = W → Answer A × W

pub record BunnyClient (W : Type 0) : Type 0 where
  pub list_zones : ListZonesOptions → Upstream W ListZonesResponse
  pub create_zone : (domain : String) → Upstream W Zone
  pub get_zone : ℤ → Upstream W Zone
  pub delete_zone : ℤ → Upstream W (Unit {0})
  pub update_zone : ℤ → Document → Upstream W Zone
  pub check_zone_availability : String → Upstream W Document
  pub import_records : ℤ → (body content_type : String) → Upstream W Document
  pub export_records : ℤ → Upstream W String
  pub enable_dnssec : ℤ → Upstream W Document
  pub disable_dnssec : ℤ → Upstream W Document
  pub issue_certificate : ℤ → (domain : String) → Upstream W (Unit {0})
  pub get_zone_statistics : ℤ → (date_from date_to : String) → Upstream W Document
  pub trigger_dns_scan : (domain : String) → Upstream W Document
  pub get_dns_scan_result : ℤ → Upstream W Document
  pub add_record : ℤ → Document → Upstream W Record
  -- `none` is a nil record
  pub update_record : ℤ → ℤ → Document → Upstream W (Option Record)
  pub delete_record : ℤ → ℤ → Upstream W (Unit {0})

pub data Reply : Type 0 where
  error_message : String → Reply
  code_and_message : String → String → Reply
  zone_list : ListZonesResponse → Reply
  one_zone : Zone → Reply
  record_list : List Record → Reply
  one_record : Record → Reply
  document : Document → Reply
  plain_text : String → Reply
  no_body : Reply

pub record Response : Type 0 where
  pub status : ℕ
  pub reply : Reply

abbrev pub respond : ℕ → Reply → Response
respond status reply = record { status = status; reply = reply }

abbrev pub write_error : ℕ → String → Response
write_error status message = respond status (error_message message)
