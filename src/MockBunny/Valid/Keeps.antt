-- ===== src/MockBunny/Valid/Keeps.antt =====
-- The handlers on zones, the import and the scans of the simulated bunny.net (internal/testutil/mockbunny)
-- keep its invariant.
use text.Mathlib.Text.{starts_with}
use bunny_api_proxy.Base.{
  ℕ, ℤ, String, ◌==◌, ◌≡◌, refl, true, false, not, ◌||◌, Option, none, some, Option-cases, inl, inr,
  List, [], ◌∷◌, any, find, if-elim, All-select, Unique-select,
}
use bunny_api_proxy.Go.Trim.{trim_space}
use bunny_api_proxy.Go.ParseInt.{parse_int}
use bunny_api_proxy.MockBunny.Types.{
  Zone, State, Response, change_zone, zone_at, with_id, with_zone, with_body,
}
use bunny_api_proxy.MockBunny.Zones.{
  ZoneSettings, handle_list_zones, handle_create_zone, handle_check_availability, handle_get_zone,
  handle_delete_zone, handle_enable_dnssec, handle_disable_dnssec, handle_issue_certificate,
  handle_get_statistics, handle_update_zone, handle_admin_create_zone, apply_settings, set_dnssec,
  has_domain, well_known_unavailable_domains,
}
use bunny_api_proxy.MockBunny.Records.{touch_zone, modified, short_input}
use bunny_api_proxy.MockBunny.Import.{
  handle_import_records, handle_export_records, import_lines, import_line, import_entry, lines,
  Progress, read_parts, fields,
}
use bunny_api_proxy.MockBunny.Scan.{
  handle_trigger_scan, handle_get_scan_result, set_scan, is_triggered,
}
use bunny_api_proxy.MockBunny.Valid.{
  IsSound, HoldsRecords, zone_id, change_zone-IsSound, add_zone-IsSound, add_record-IsSound,
}

abbrev pub Step : Type 0
Step = State → Response × State

abbrev pub Keeps : Step → Type 0
Keeps step = (s : State) → IsSound s → IsSound (step s).1

pub with_id-Keeps :
    (text : String) (invalid : Response) (k : ℤ → Step)
    → ((id : ℤ) → Keeps (k id))
    → Keeps (with_id text invalid k)
with_id-Keeps text invalid k h s v = elim (Option-cases (parse_int text)) [
  | inl e ↦ rw (e, with_id) v
  | inr (id, e) ↦ rw (e, with_id) (h id s v)
]

pub with_zone-Keeps :
    (id : ℤ) (missing : Response) (k : Zone → Step)
    → ((z : Zone) → Keeps (k z))
    → Keeps (with_zone id missing k)
with_zone-Keeps id missing k h s v = elim (Option-cases (zone_at id s.zones)) [
  | inl e ↦ rw (e, with_zone) v
  | inr (z, e) ↦ rw (e, with_zone) (h z s v)
]

pub with_body-Keeps :
    {A : Type 0} (body : Option A) (invalid : Response) (k : A → Step)
    → ((a : A) → Keeps (k a))
    → Keeps (with_body body invalid k)
with_body-Keeps none invalid k h s v = v
with_body-Keeps (some a) invalid k h s v = h a s v

-- A change of the zone that keeps its id and its records.
pub change-IsSound :
    (id : ℤ) (f : Zone → Zone) (s : State)
    → ((z : Zone) → (f z).id ≡ z.id)
    → ((n : ℕ) (z : Zone) → HoldsRecords n z → HoldsRecords n (f z))
    → IsSound s
    → IsSound (record s { zones = change_zone id f s.zones })
change-IsSound id f s same keep v = change_zone-IsSound s id f same (keep s.next_record_id) v

pub touch_zone-IsSound : (id : ℤ) (now : ℕ) (s : State) → IsSound s → IsSound (touch_zone id now s)
touch_zone-IsSound id now s v = change_zone-IsSound s id (modified now) (λ z. refl) (λ z h. h) v

import_entry-IsSound :
    (id : ℤ) (entry : Option (ℤ × String × String × ℤ)) (p : Progress)
    → IsSound p.2
    → IsSound (import_entry id entry p).2
import_entry-IsSound id none p v = v
import_entry-IsSound id (some (type, name, content, ttl)) p v =
    add_record-IsSound id (short_input type name content ttl) p.2 v

import_lines-IsSound :
    (to_upper : String → String) (id : ℤ) (texts : List String) (p : Progress)
    → IsSound p.2
    → IsSound (import_lines to_upper id texts p).2
unfolding import_lines
import_lines-IsSound to_upper id [] p v = v
import_lines-IsSound to_upper id (line ∷ rest) p v =
    import_lines-IsSound to_upper id rest (import_line to_upper id line p) (
      let text = trim_space line in
      let entry = read_parts to_upper (fields text) in
      if-elim (λ (q : Progress). IsSound q.2) (text == "" || starts_with text ";") p
        (import_entry id entry p) (λ e. v) (λ e. import_entry-IsSound id entry p v))

pub handle_list_zones-Keeps :
    (page per_page search : String) → Keeps (handle_list_zones page per_page search)
unfolding handle_list_zones
handle_list_zones-Keeps page per_page search s v = v

pub handle_create_zone-Keeps :
    (body : Option String) (now : ℕ) → Keeps (handle_create_zone body now)
unfolding handle_create_zone
handle_create_zone-Keeps body now = with_body-Keeps body _ _ λ domain s v.
    if-elim (λ (r : Response × State). IsSound r.1) (domain == "") _ _ (λ e. v)
      λ e.
        if-elim (λ (r : Response × State). IsSound r.1) (any (has_domain domain) s.zones) _ _
          (λ e. v) (λ e. add_zone-IsSound domain now s v)

pub handle_delete_zone-Keeps : (id_text : String) → Keeps (handle_delete_zone id_text)
unfolding handle_delete_zone
handle_delete_zone-Keeps id_text = with_id-Keeps id_text _ _ λ id. with_zone-Keeps id _ _ λ z s v.
    record {
      ids = Unique-select zone_id _ s.zones v.ids;
      issued = All-select _ _ s.zones v.issued;
      records = All-select _ _ s.zones v.records;
    }

pub handle_import_records-Keeps :
    (to_upper : String → String) (id_text : String) (body : Option String) (now : ℕ)
    → Keeps (handle_import_records to_upper id_text body now)
unfolding handle_import_records
handle_import_records-Keeps to_upper id_text none now =
    with_id-Keeps id_text _ _ λ id. with_zone-Keeps id _ _ λ z s v. v
handle_import_records-Keeps to_upper id_text (some text) now = with_id-Keeps id_text _ _ λ id.
    with_zone-Keeps id _ _ λ z s v.
      touch_zone-IsSound id now _ (import_lines-IsSound to_upper id (lines text) (0, 0, s) v)

pub handle_update_zone-Keeps :
    (id_text : String) (body : Option ZoneSettings) (now : ℕ)
    → Keeps (handle_update_zone id_text body now)
unfolding handle_update_zone
handle_update_zone-Keeps id_text body now = with_id-Keeps id_text _ _ λ id.
    with_body-Keeps body _ _ λ req.
      with_zone-Keeps id _ _
        λ z s v. change-IsSound id (apply_settings req now) s (λ z. refl) (λ n z h. h) v

pub handle_dnssec-Keeps :
    (id_text : String)
    → Keeps (handle_enable_dnssec id_text) × Keeps (handle_disable_dnssec id_text)
unfolding handle_enable_dnssec handle_disable_dnssec
handle_dnssec-Keeps id_text = (
  with_id-Keeps id_text _ _ λ id.
      with_zone-Keeps id _ _
        (λ z s v. change-IsSound id (set_dnssec true) s (λ z. refl) (λ n z h. h) v),
  with_id-Keeps id_text _ _ λ id.
      with_zone-Keeps id _ _
        (λ z s v. change-IsSound id (set_dnssec false) s (λ z. refl) (λ n z h. h) v),
)

pub handle_trigger_scan-Keeps : (body : Option String) → Keeps (handle_trigger_scan body)
unfolding handle_trigger_scan
handle_trigger_scan-Keeps body = with_body-Keeps body _ _ λ domain s v.
    if-elim (λ (r : Response × State). IsSound r.1) (domain == "") _ _ (λ e. v)
      (λ e. scan_set (find (has_domain domain) s.zones) s v)
  where
    scan_set : (z : Option Zone) (s : State) → IsSound s → IsSound (set_scan z s)
    scan_set none s v = v
    scan_set (some z) s v = record { ids = v.ids; issued = v.issued; records = v.records }

pub handle_get_scan_result-Keeps : (id_text : String) → Keeps (handle_get_scan_result id_text)
unfolding handle_get_scan_result
handle_get_scan_result-Keeps id_text = with_id-Keeps id_text _ _ λ id.
    with_zone-Keeps id _ _ λ z s v.
      if-elim (λ (r : Response × State). IsSound r.1) (not (is_triggered id s)) _ _ (λ e. v)
        (λ e. record { ids = v.ids; issued = v.issued; records = v.records })

pub handle_admin_create_zone-Keeps :
    (body : Option String) (now : ℕ) → Keeps (handle_admin_create_zone body now)
unfolding handle_admin_create_zone
handle_admin_create_zone-Keeps body now = with_body-Keeps body _ _ λ domain s v.
    if-elim (λ (r : Response × State). IsSound r.1) (domain == "") _ _ (λ e. v)
      (λ e. add_zone-IsSound domain now s v)

pub check_availability-Keeps : (body : Option String) → Keeps (handle_check_availability body)
unfolding handle_check_availability
check_availability-Keeps body = with_body-Keeps body _ _ λ name s v.
    if-elim (λ (r : Response × State). IsSound r.1) (name == "") _ _ (λ e. v)
      λ e.
        if-elim (λ (r : Response × State). IsSound r.1)
          (any (λ d. d == name) well_known_unavailable_domains) _ _ (λ e. v) (λ e. v)

-- The handlers that only look.
pub look-Keeps :
    (id_text : String) (body : Option String)
    → Keeps (handle_get_zone id_text)
      × Keeps (handle_export_records id_text)
      × Keeps (handle_get_statistics id_text)
      × Keeps (handle_issue_certificate id_text body)
unfolding handle_get_zone handle_export_records handle_get_statistics handle_issue_certificate
look-Keeps id_text body = (
  with_id-Keeps id_text _ _ (λ id. with_zone-Keeps id _ _ (λ z s v. v)),
  with_id-Keeps id_text _ _ (λ id. with_zone-Keeps id _ _ (λ z s v. v)),
  with_id-Keeps id_text _ _ (λ id. with_zone-Keeps id _ _ (λ z s v. v)),
  with_id-Keeps id_text _ _
      (λ id. with_body-Keeps body _ _ (λ domain. with_zone-Keeps id _ _ (λ z s v. v))),
)
