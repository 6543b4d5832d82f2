-- ===== src/MockBunny/Scan.antt =====
-- The scans of the simulated bunny.net (internal/testutil/mockbunny/handlers.go).
use bunny_api_proxy.Base.{
  ℕ, suc, ℤ, ◌==ℤ◌, String, ◌==◌, Bool, Option, none, some, [], ◌∷◌, map, any, find, leb,
  if◌then◌else◌, not,
}
use bunny_api_proxy.MockBunny.Types.{
  Record, Zone, State, ScanRecord, Response, respond, api_error, scan_status, zone_not_found,
  bad_body, with_zone_id, with_zone, with_body,
}
use bunny_api_proxy.MockBunny.Zones.{has_domain}

-- `scanCallCount[id]`, 0 for a missing key
abbrev pub count_or_zero : Option (ℤ × ℕ) → ℕ
count_or_zero none = 0
count_or_zero (some (id, n)) = n

abbrev pub is_for : ℤ → ℤ × ℕ → Bool
is_for id (key, n) = key ==ℤ id

abbrev pub scan_calls : ℤ → State → ℕ
scan_calls id s = count_or_zero (find (is_for id) s.scan_call_count)

abbrev pub is_triggered : ℤ → State → Bool
is_triggered id s = any (λ key. key ==ℤ id) s.scan_triggered

abbrev pub set_scan : Option Zone → State → State
set_scan none s = s
set_scan (some zone) s = record s {
  scan_triggered = zone.id ∷ s.scan_triggered;
  scan_call_count = (zone.id, 0) ∷ s.scan_call_count;
}

-- Of two zones with one domain the first in the list is taken; the source's map has no order.
unfoldable pub handle_trigger_scan : Option String → State → Response × State
handle_trigger_scan body = with_body body bad_body λ domain s.
    if domain == ""
    then (respond 400 (api_error "validation_error" "Domain" "Domain is required"), s)
    else (respond 200 (scan_status 1 []), set_scan (find (has_domain domain) s.zones) s)

abbrev pub scanned : Record → ScanRecord
scanned r = record { name = r.name; record_type = r.record_type; ttl = r.ttl; value = r.value }

abbrev pub scan_answer : (calls : ℕ) → Zone → Response
scan_answer calls zone =
    if leb calls 1
    then respond 200 (scan_status 1 [])
    else respond 200 (scan_status 2 (map scanned zone.records))

unfoldable pub handle_get_scan_result : String → State → Response × State
handle_get_scan_result id_text = with_zone_id id_text λ id. with_zone id zone_not_found λ zone s.
    if not (is_triggered id s)
    then (respond 200 (scan_status 0 []), s)
    else let calls = suc (scan_calls id s) in
      (scan_answer calls zone, record s { scan_call_count = (id, calls) ∷ s.scan_call_count })
