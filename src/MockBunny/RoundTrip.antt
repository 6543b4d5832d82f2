-- ===== src/MockBunny/RoundTrip.antt =====
-- Adding and deleting a record of the simulated bunny.net (internal/testutil/mockbunny/handlers.go).
use bunny_api_proxy.Base.{
  ℕ, ◌<◌, ◌^◌, ℤ, pos, ◌==ℤ◌, ==ℤ_iff, String, ◌==◌, ◌≡◌, ◌≢◌, refl, ap, ◌∙◌, true, false,
  Bool-cases, inl, inr, some, List, [], ◌∷◌, ◌++◌, any, All, All-mono, All-Member, find-some, arith,
}
use bunny_api_proxy.Go.ParseInt.{parse_int}
use bunny_api_proxy.Go.FormatInt.{format_int, parse_int-format_int}
use bunny_api_proxy.MockBunny.Types.{
  Record, Zone, State, respond, one_record, one_zone, no_body, has_id, zone_at, change_zone,
  with_id, with_zone,
}
use bunny_api_proxy.MockBunny.Zones.{handle_get_zone}
use bunny_api_proxy.MockBunny.Records.{
  RecordInput, new_record, append_record, modified, with_records, add_record, touch_zone, is_record,
  remove_record, handle_add_record, handle_delete_record,
}
use bunny_api_proxy.MockBunny.Valid.{IsSound, IsIssued-fresh, HoldsRecords}

zone_at-change_zone :
    (id : ℤ) (f : Zone → Zone) (zones : List Zone) (z : Zone)
    → ((y : Zone) → (f y).id ≡ y.id)
    → zone_at id zones ≡ some z
    → zone_at id (change_zone id f zones) ≡ some (f z)
unfolding change_zone
zone_at-change_zone id f [] z same h = cc
zone_at-change_zone id f (y ∷ zones) z same h = elim (Bool-cases (has_id id y)) [
  | inl e ↦
      let e' : has_id id (f y) ≡ true = ap (λ i. i ==ℤ id) (same y) ∙ e in
      let there : y ≡ z = ground arith in rw (e, e', change_zone) (ap (λ x. some (f x)) there)
  | inr e ↦
      let rest : zone_at id zones ≡ some z = ground arith in
      rw (e, change_zone) (rw e (zone_at-change_zone id f zones z same rest))
]

-- A record whose id no other has is taken out again from the end.
remove_record-append :
    (id : ℤ) (records : List Record) (r : Record)
    → All (λ y. y.id ≢ id) records
    → r.id ≡ id
    → remove_record id (records ++ r ∷ []) ≡ records
unfolding remove_record
remove_record-append id [] r h e = rw ((==ℤ_iff r.id id).1 e, remove_record) refl
remove_record-append id (y ∷ records) r (n, h) e = elim (Bool-cases (is_record id y)) [
  | inl f ↦ absurd (n ((==ℤ_iff y.id id).0 f))
  | inr f ↦ rw (f, remove_record) (ap (◌∷◌ y) (remove_record-append id records r h e))
]

any_append-last :
    (id : ℤ) (records : List Record) (r : Record)
    → r.id ≡ id
    → any (is_record id) (records ++ r ∷ []) ≡ true
any_append-last id [] r e = rw ((==ℤ_iff r.id id).1 e) refl
any_append-last id (y ∷ records) r e = ground (arith, any_append-last id records r e)

module _ (zone_text : String) (id : ℤ) (parsed : parse_int zone_text ≡ some id) where
  handle_get_zone_found :
      (s : State) (z : Zone)
      → zone_at id s.zones ≡ some z
      → (handle_get_zone zone_text s).0 ≡ respond 200 (one_zone z)
  unfolding handle_get_zone
  handle_get_zone_found s z found = rw (parsed, found, handle_get_zone, with_id, with_zone) refl

  handle_add_record_added :
      (req : RecordInput) (now : ℕ) (s : State) (z : Zone)
      → zone_at id s.zones ≡ some z
      → (req.value == "") ≡ false
      → (req.name == "") ≡ false
      → handle_add_record zone_text (some req) now s ≡ (
        respond 201 (one_record (new_record (pos s.next_record_id) req)),
        touch_zone id now (add_record id req s),
      )
  unfolding handle_add_record
  handle_add_record_added req now s z found filled named =
      rw (parsed, filled, named, found, handle_add_record, with_id, with_zone) refl

  handle_delete_record_deleted :
      (id_text : String) (record_id : ℤ) (now : ℕ) (s : State) (z : Zone)
      → parse_int id_text ≡ some record_id
      → zone_at id s.zones ≡ some z
      → any (is_record record_id) z.records ≡ true
      → handle_delete_record zone_text id_text now s ≡ (
        respond 204 no_body,
        touch_zone id now
            (record s { zones = change_zone id (with_records (remove_record record_id)) s.zones }),
      )
  unfolding handle_delete_record
  handle_delete_record_deleted id_text record_id now s z read found has =
      rw (parsed, read, found, has, handle_delete_record, with_id, with_zone) refl

-- In a well-formed state whose counter of records is an int64, a record with a name and a value that is
-- added to an existing zone is answered 201 with a new id, and the zone then shows it behind its other
-- records; deleting it by that id is answered 204, and the zone has its records as before.
pub add-delete :
    (zone_text : String) (id : ℤ) (z : Zone) (req : RecordInput) (now now' : ℕ) (s : State)
    → IsSound s
    → s.next_record_id < 2 ^ 63
    → parse_int zone_text ≡ some id
    → zone_at id s.zones ≡ some z
    → (req.value == "") ≡ false
    → (req.name == "") ≡ false
    → let r = new_record (pos s.next_record_id) req in
      let added = handle_add_record zone_text (some req) now s in
      let deleted = handle_delete_record zone_text (format_int r.id) now' added.1 in
      (added.0 ≡ respond 201 (one_record r))
      × ((handle_get_zone zone_text added.1).0
          ≡ respond 200
              (one_zone (record z { records = z.records ++ r ∷ []; date_modified = now })))
      × (deleted.0 ≡ respond 204 no_body)
      × ((handle_get_zone zone_text deleted.1).0
          ≡ respond 200 (one_zone (record z { date_modified = now' })))
unfolding add_record
add-delete zone_text id z req now now' s v small parsed found filled named =
    let r = new_record (pos s.next_record_id) req in
    let z1 = modified now (append_record r z) in
    let s1 = touch_zone id now (add_record id req s) in
    let added = handle_add_record_added zone_text id parsed req now s z found filled named in
    let found1 : zone_at id s1.zones ≡ some z1 =
      zone_at-change_zone id (modified now) (add_record id req s).zones (append_record r z)
        (λ y. refl) (zone_at-change_zone id (append_record r) s.zones z (λ y. refl) found) in
    let fresh = find-some (has_id id) s.zones z found in
    let others : All (λ y. y.id ≢ pos s.next_record_id) z.records =
      All-mono _ _ z.records (λ y. IsIssued-fresh s.next_record_id y.id)
        (All-Member (HoldsRecords s.next_record_id) s.zones z v.records fresh.1).1 in
    let deleted =
      handle_delete_record_deleted zone_text id parsed (format_int r.id) r.id now' s1 z1
        (parse_int-format_int r.id small) found1 (any_append-last r.id z.records r refl) in
    let z2 = with_records (remove_record r.id) z1 in
    let found2 =
      zone_at-change_zone id (modified now')
        (change_zone id (with_records (remove_record r.id)) s1.zones) z2 (λ y. refl)
        (zone_at-change_zone id (with_records (remove_record r.id)) s1.zones z1 (λ y. refl)
          found1) in
    let restored : remove_record r.id (z.records ++ r ∷ []) ≡ z.records =
      remove_record-append r.id z.records r others refl in
    let s2 =
      touch_zone id now'
        (record s1 { zones = change_zone id (with_records (remove_record r.id)) s1.zones }) in
    rw (added, deleted)
      (
        refl,
        handle_get_zone_found zone_text id parsed s1 z1 found1,
        refl,
        handle_get_zone_found zone_text id parsed s2 (modified now' z2) found2
            ∙ ap (λ l. respond 200 (one_zone (record z { records = l; date_modified = now' })))
                restored,
      )
