-- ===== src/MockBunny/Seeds.antt =====
-- The Go interface of the simulated bunny.net (internal/testutil/mockbunny/server.go): zones that a test
-- puts in, and copies of the state. A caller that keeps the records it has given is left out, and so are the
-- fields of a record that Types leaves out.
use bunny_api_proxy.Base.{
  ℕ, suc, ◌+◌, ◌≤◌, ◌<◌, ℤ, pos, negsuc, String, ◌≢◌, refl, true, Option, List, [], ◌∷◌, All,
  All-mono, Unique, length, arith,
}
use bunny_api_proxy.MockBunny.Types.{Record, Zone, State, zone_at, change_zone}
use bunny_api_proxy.MockBunny.Zones.{add_zone}
use bunny_api_proxy.MockBunny.Records.{modified, with_records}
use bunny_api_proxy.MockBunny.Valid.{
  IsIssued, record_id, IsSound, change_zone-IsSound, add_zone-IsSound,
}

-- The records take the next ids.
unfoldable pub number_records : ℕ → List Record → List Record
number_records n [] = []
number_records n (r ∷ records) =
    record r { id = pos n; auto_ssl_issuance = true } ∷ number_records (suc n) records

abbrev pub fill_zone : (now : ℕ) → List Record → Zone → Zone
fill_zone now records zone = modified now (with_records (λ _. records) zone)

-- The zone is added at `now`, and filled at `later`.
unfoldable pub add_zone_with_records : String → List Record → (now later : ℕ) → State → ℤ × State
unfolding number_records
add_zone_with_records domain records now later s =
    let (zone, s') = add_zone domain now s in
    let numbered = number_records s'.next_record_id records in
    (
      zone.id,
      record s' {
        zones = change_zone zone.id (fill_zone later numbered) s'.zones;
        next_record_id = s'.next_record_id + length records;
      },
    )

-- GetZone; `none` is nil
unfoldable pub get_zone : ℤ → State → Option Zone
get_zone id s = zone_at id s.zones

unfoldable pub get_state : State → List Zone
get_state s = s.zones

abbrev IsFrom : ℕ → ℕ → ℤ → Type 0
IsFrom n m (pos k) = (n ≤ k) × (k < m)
IsFrom n m (negsuc k) = ⊥

IsFrom-wider : (n m : ℕ) (i : ℤ) → IsFrom (suc n) m i → IsFrom n m i
IsFrom-wider n m (pos k) h = ground arith
IsFrom-wider n m (negsuc k) h = h

IsFrom-ne : (n m : ℕ) (i : ℤ) → IsFrom (suc n) m i → pos n ≢ i
IsFrom-ne n m (pos k) h e = ground (arith, e)
IsFrom-ne n m (negsuc k) h e = h

IsFrom-IsIssued : (n m : ℕ) (i : ℤ) → IsFrom n m i → IsIssued m i
IsFrom-IsIssued n m (pos k) h = h.1
IsFrom-IsIssued n m (negsuc k) h = h

number_records-IsFrom :
    (n m : ℕ) (records : List Record)
    → n + length records ≤ m
    → All (λ r. IsFrom n m r.id) (number_records n records)
      × Unique record_id (number_records n records)
unfolding number_records
number_records-IsFrom n m [] le = (tt, tt)
number_records-IsFrom n m (r ∷ records) le =
    let (from, unique) = number_records-IsFrom (suc n) m records (omega arith) in
    (
      ((omega arith, omega arith), All-mono _ _ _ (λ x. IsFrom-wider n m x.id) from),
      (All-mono _ _ _ (λ x. IsFrom-ne n m x.id) from, unique),
    )

IsIssued-le : (n m : ℕ) (i : ℤ) → n ≤ m → IsIssued n i → IsIssued m i
IsIssued-le n m (pos k) le h = omega arith
IsIssued-le n m (negsuc k) le h = h

more_records-IsSound :
    (m : ℕ) (s : State)
    → s.next_record_id ≤ m
    → IsSound s
    → IsSound (record s { next_record_id = m })
more_records-IsSound m s le v = record {
  ids = v.ids;
  issued = v.issued;
  records =
      All-mono _ _ s.zones
        (λ z h. (h.0, All-mono _ _ z.records (λ r. IsIssued-le s.next_record_id m r.id le) h.1))
        v.records;
}

-- A zone that a test puts in with its records keeps the state sound, whatever ids the records bring:
-- ids stay unique and below the counters.
pub add_zone_with_records-IsSound :
    (domain : String) (records : List Record) (now later : ℕ) (s : State)
    → IsSound s
    → IsSound (add_zone_with_records domain records now later s).1
unfolding add_zone_with_records
add_zone_with_records-IsSound domain records now later s v =
    let (zone, s') = add_zone domain now s in
    let m = s'.next_record_id + length records in
    let (from, unique) = number_records-IsFrom s'.next_record_id m records (omega arith) in
    change_zone-IsSound (record s' { next_record_id = m }) zone.id
      (fill_zone later (number_records s'.next_record_id records)) (λ z. refl)
      (λ z h. (unique, All-mono _ _ _ (λ r. IsFrom-IsIssued s'.next_record_id m r.id) from))
      (more_records-IsSound m s' (omega arith) (add_zone-IsSound domain now s v))
