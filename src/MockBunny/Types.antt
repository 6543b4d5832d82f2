-- ===== src/MockBunny/Types.antt =====
-- The state and the answers of the simulated bunny.net (internal/testutil/mockbunny/types.go). A moment
-- is a number. Of a record the fields are left out that always keep their defaults. The counters
-- of ids do not wrap around here, as those of int64 do after 2 ^ 63 requests.
use bunny_api_proxy.Base.{
  ℕ, ℤ, String, Bool, Option, none, some, List, [], ◌∷◌, find, ◌==ℤ◌, if◌then◌else◌,
}
use bunny_api_proxy.Go.ParseInt.{parse_int}

pub record Record : Type 0 where
  pub id : ℤ
  pub record_type : ℤ
  pub ttl : ℤ
  pub value : String
  pub name : String
  pub weight : ℤ
  pub priority : ℤ
  pub port : ℤ
  pub flags : ℤ
  pub tag : String
  pub disabled : Bool
  pub comment : String
  pub auto_ssl_issuance : Bool

pub record Zone : Type 0 where
  pub id : ℤ
  pub domain : String
  pub records : List Record
  pub date_modified : ℕ
  pub date_created : ℕ
  pub nameservers_detected : Bool
  pub custom_nameservers_enabled : Bool
  pub nameserver1 : String
  pub nameserver2 : String
  pub soa_email : String
  pub nameservers_next_check : ℕ
  pub logging_enabled : Bool
  pub logging_ip_anonymization : Bool
  pub log_anonymization_type : ℤ
  pub dns_sec_enabled : Bool
  pub certificate_key_type : ℤ

-- `none` is a rate limit of -1.
pub record FailureInjection : Type 0 where
  pub next_error_status : ℕ
  pub next_error_message : String
  pub next_error_remaining : ℕ
  pub latency_duration : ℕ
  pub latency_remaining : ℕ
  pub rate_limit_after : Option ℕ
  pub rate_limit_counter : ℕ
  pub malformed_remaining : ℕ

-- The maps are lists of their rows: `zones` by the id in the zone, the polls of a triggered scan by the
-- id of its zone, the newest entry first.
pub record State : Type 0 where
  pub zones : List Zone
  pub next_zone_id : ℕ
  pub next_record_id : ℕ
  pub scan_triggered : List ℤ
  pub scan_call_count : List (ℤ × ℕ)
  pub failure_injection : FailureInjection

abbrev pub no_failures : FailureInjection
no_failures = record {
  next_error_status = 0;
  next_error_message = "";
  next_error_remaining = 0;
  latency_duration = 0;
  latency_remaining = 0;
  rate_limit_after = none;
  rate_limit_counter = 0;
  malformed_remaining = 0;
}

abbrev pub new_state : State
new_state = record {
  zones = [];
  next_zone_id = 1;
  next_record_id = 1;
  scan_triggered = [];
  scan_call_count = [];
  failure_injection = no_failures;
}

pub record ScanRecord : Type 0 where
  pub name : String
  pub record_type : ℤ
  pub ttl : ℤ
  pub value : String

pub data Reply : Type 0 where
  plain_error : String → Reply
  api_error : (error_key field message : String) → Reply
  zone_list : (items : List Zone) → (current_page total_items : ℕ) → (has_more_items : Bool) → Reply
  one_zone : Zone → Reply
  one_record : Record → Reply
  availability : Bool → Reply
  imported : (total created failed : ℕ) → Reply
  exported : String → Reply
  dnssec : (enabled : Bool) → (ds_record : String) → Reply
  certificate : (common_name : String) → Reply
  statistics : Reply
  scan_status : (status : ℕ) → List ScanRecord → Reply
  server_state : List Zone → (next_zone_id next_record_id : ℕ) → Reply
  injected : (body : String) → Reply
  no_body : Reply
  -- the handler does not answer
  panicked : Reply

pub record Response : Type 0 where
  pub status : ℕ
  pub reply : Reply

abbrev pub respond : ℕ → Reply → Response
respond status reply = record { status = status; reply = reply }

abbrev pub zone_not_found : Response
zone_not_found =
    respond 404 (api_error "dnszone.zone.not_found" "Id" "The requested DNS zone was not found")

abbrev pub record_not_found : Response
record_not_found =
    respond 404 (
      api_error "dnszone.record.not_found" "RecordId" "The requested DNS zone record was not found")

abbrev pub bad_body : Response
bad_body = respond 400 (plain_error "invalid request body")

-- `state.zones[id]`
abbrev pub has_id : ℤ → Zone → Bool
has_id id z = z.id ==ℤ id

abbrev pub zone_at : ℤ → List Zone → Option Zone
zone_at id zones = find (has_id id) zones

-- The zone of the id is changed in place.
unfoldable pub change_zone : ℤ → (Zone → Zone) → List Zone → List Zone
change_zone id f [] = []
change_zone id f (z ∷ zones) = (if has_id id z then f z else z) ∷ change_zone id f zones

-- strconv.ParseInt of an id in the path
abbrev pub with_id : String → Response → (ℤ → State → Response × State) → State → Response × State
with_id text invalid k s = elim (parse_int text) [ none ↦ (invalid, s) | some id ↦ k id s ]

abbrev pub with_zone_id : String → (ℤ → State → Response × State) → State → Response × State
with_zone_id text = with_id text (respond 400 (plain_error "invalid zone ID"))

abbrev pub with_record_id : String → (ℤ → State → Response × State) → State → Response × State
with_record_id text = with_id text (respond 400 (plain_error "invalid record ID"))

abbrev pub with_zone : ℤ → Response → (Zone → State → Response × State) → State → Response × State
with_zone id missing k s = elim (zone_at id s.zones) [ none ↦ (missing, s) | some z ↦ k z s ]

-- A JSON body; `none` is an error of the decoder.
abbrev pub with_body :
    {A : Type 0} → Option A → Response → (A → State → Response × State) → State → Response × State
with_body none invalid k s = (invalid, s)
with_body (some a) invalid k s = k a s
