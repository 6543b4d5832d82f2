-- ===== src/MockBunny/Valid/Records.antt =====
-- The handlers on records of the simulated bunny.net (internal/testutil/mockbunny) keep its invariant.
use bunny_api_proxy.Base.{
  ℕ, ℤ, pos, ◌==ℤ◌, String, ◌==◌, refl, not, ◌&&◌, ◌||◌, Option, List, any, if-elim,
}
use bunny_api_proxy.MockBunny.Types.{
  Record, Zone, State, Response, respond, one_record, api_error, zone_not_found, change_zone,
}
use bunny_api_proxy.MockBunny.Records.{
  RecordInput, new_record, handle_add_record, handle_update_record, handle_delete_record,
  handle_admin_create_record, touch_zone, add_record, update_record, with_records, change_record,
  remove_record, is_record, short_input,
}
use bunny_api_proxy.MockBunny.Valid.{
  IsSound, HoldsRecords, add_record-IsSound, change_record-HoldsRecords, remove_record-HoldsRecords,
}
use bunny_api_proxy.MockBunny.Valid.Keeps.{
  Keeps, with_id-Keeps, with_zone-Keeps, with_body-Keeps, change-IsSound, touch_zone-IsSound,
}

pub handle_add_record-Keeps :
    (zone_text : String) (body : Option RecordInput) (now : ℕ)
    → Keeps (handle_add_record zone_text body now)
unfolding handle_add_record
handle_add_record-Keeps zone_text body now = with_id-Keeps zone_text _ _ λ id.
    with_body-Keeps body _ _ λ req s v.
      if-elim (λ (r : Response × State). IsSound r.1) (req.value == "") _ _ (λ e. v)
        λ e.
          if-elim (λ (r : Response × State). IsSound r.1)
            (req.name == "" && not (req.record_type ==ℤ pos 4) && not (req.record_type ==ℤ pos 9)) _
            _ (λ e. v)
            λ e.
              with_zone-Keeps id zone_not_found
                (λ z s. (
                  respond 201 (one_record (new_record (pos s.next_record_id) req)),
                  touch_zone id now (add_record id req s),
                ))
                (λ z s v.
                  touch_zone-IsSound id now (add_record id req s) (add_record-IsSound id req s v))
                s v

-- A change of the records of a zone.
records-IsSound :
    (id : ℤ) (f : List Record → List Record) (now : ℕ) (s : State)
    → ((n : ℕ) (z : Zone) → HoldsRecords n z → HoldsRecords n (with_records f z))
    → IsSound s
    → IsSound (touch_zone id now (record s { zones = change_zone id (with_records f) s.zones }))
records-IsSound id f now s keep v =
    touch_zone-IsSound id now (record s { zones = change_zone id (with_records f) s.zones })
      (change-IsSound id (with_records f) s (λ z. refl) keep v)

pub handle_update_record-Keeps :
    (zone_text id_text : String) (body : Option RecordInput) (now : ℕ)
    → Keeps (handle_update_record zone_text id_text body now)
unfolding handle_update_record
handle_update_record-Keeps zone_text id_text body now = with_id-Keeps zone_text _ _ λ zone.
    with_id-Keeps id_text _ _ λ id. with_body-Keeps body _ _ λ req.
      with_zone-Keeps zone _ _ λ z s v.
        if-elim (λ (r : Response × State). IsSound r.1) (any (is_record id) z.records) _ _
          (λ e.
            records-IsSound zone (change_record id (update_record req)) now s
              (λ n z. change_record-HoldsRecords n id (update_record req) z (λ r. refl)) v)
          (λ e. v)

pub handle_delete_record-Keeps :
    (zone_text id_text : String) (now : ℕ) → Keeps (handle_delete_record zone_text id_text now)
unfolding handle_delete_record
handle_delete_record-Keeps zone_text id_text now = with_id-Keeps zone_text _ _ λ zone.
    with_id-Keeps id_text _ _ λ id. with_zone-Keeps zone _ _ λ z s v.
      if-elim (λ (r : Response × State). IsSound r.1) (any (is_record id) z.records) _ _
        (λ e.
          records-IsSound zone (remove_record id) now s (λ n z. remove_record-HoldsRecords n id z)
            v)
        (λ e. v)

pub handle_admin_create_record-Keeps :
    (zone_text : String) (body : Option RecordInput)
    → Keeps (handle_admin_create_record zone_text body)
unfolding handle_admin_create_record
handle_admin_create_record-Keeps zone_text body = with_id-Keeps zone_text _ _ λ zone.
    with_body-Keeps body _ _ λ req s v.
      let input = short_input req.record_type req.name req.value req.ttl in
      if-elim (λ (r : Response × State). IsSound r.1) (req.name == "" || req.value == "") _ _
        (λ e. v)
        λ e.
          with_zone-Keeps zone (respond 404 (api_error "ZONE_NOT_FOUND" "zoneId" "Zone not found"))
            (λ z s. (
              respond 201 (one_record (new_record (pos s.next_record_id) input)),
              add_record zone input s,
            ))
            (λ z s v. add_record-IsSound zone input s v) s v
