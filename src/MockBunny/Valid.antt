-- ===== src/MockBunny/Valid.antt =====
-- The invariant of the state of the simulated bunny.net (internal/testutil/mockbunny).
pub mod Keeps
pub mod Records
pub mod Runs
use bunny_api_proxy.Base.{
  ℕ, String, zero, suc, ◌+◌, ◌<◌, ℤ, pos, negsuc, ◌≡◌, ◌≢◌, refl, sym, ap, subst, Bool, true, false,
  Bool-cases, inl, inr, not, List, [], ◌∷◌, ◌++◌, All, All-mono, All-append, All-select, Unique,
  Unique-select, Unique-append, select, arith,
}
use bunny_api_proxy.MockBunny.Types.{Record, Zone, State, new_state, has_id, change_zone}
use bunny_api_proxy.MockBunny.Zones.{add_zone}
use bunny_api_proxy.MockBunny.Records.{
  RecordInput, new_record, append_record, add_record, change_record, remove_record, is_record,
  with_records,
}

-- An id that a counter has issued.
abbrev pub IsIssued : ℕ → ℤ → Type 0
IsIssued n (pos k) = k < n
IsIssued n (negsuc k) = ⊥

abbrev pub zone_id : Zone → ℤ
zone_id z = z.id

abbrev pub record_id : Record → ℤ
record_id r = r.id

abbrev pub HoldsRecords : ℕ → Zone → Type 0
HoldsRecords n z = Unique record_id z.records × All (λ r. IsIssued n r.id) z.records

pub record IsSound (s : State) : Type 0 where
  pub ids : Unique zone_id s.zones
  pub issued : All (λ z. IsIssued s.next_zone_id z.id) s.zones
  pub records : All (HoldsRecords s.next_record_id) s.zones

pub new_state-IsSound : IsSound new_state
new_state-IsSound = record { ids = tt; issued = tt; records = tt }

IsIssued-suc : (n : ℕ) (i : ℤ) → IsIssued n i → IsIssued (suc n) i
IsIssued-suc n (pos k) h = omega arith
IsIssued-suc n (negsuc k) h = h

pub IsIssued-fresh : (n : ℕ) (i : ℤ) → IsIssued n i → i ≢ pos n
IsIssued-fresh n i h e = let h' : IsIssued n (pos n) = subst (IsIssued n) e h in omega (arith, h')

HoldsRecords-suc : (n : ℕ) (z : Zone) → HoldsRecords n z → HoldsRecords (suc n) z
HoldsRecords-suc n z (u, h) = (u, All-mono _ _ z.records (λ r. IsIssued-suc n r.id) h)

-- What holds of the zones after a change in place.
pub All-change_zone :
    (P Q : Zone → Type 0) (id : ℤ) (f : Zone → Zone) (zones : List Zone)
    → ((z : Zone) → P z → Q z)
    → ((z : Zone) → P z → Q (f z))
    → All P zones
    → All Q (change_zone id f zones)
unfolding change_zone
All-change_zone P Q id f [] stay change h = tt
All-change_zone P Q id f (z ∷ zones) stay change (p, h) = elim (Bool-cases (has_id id z)) [
  | inl e ↦ rw (e, change_zone) (change z p, All-change_zone P Q id f zones stay change h)
  | inr e ↦ rw (e, change_zone) (stay z p, All-change_zone P Q id f zones stay change h)
]

Unique-change_zone :
    (id : ℤ) (f : Zone → Zone) (zones : List Zone)
    → ((z : Zone) → (f z).id ≡ z.id)
    → Unique zone_id zones
    → Unique zone_id (change_zone id f zones)
unfolding change_zone
Unique-change_zone id f [] same h = tt
Unique-change_zone id f (z ∷ zones) same (d, h) =
    let other : All (λ y. z.id ≢ y.id) (change_zone id f zones) =
      All-change_zone (λ y. z.id ≢ y.id) (λ y. z.id ≢ y.id) id f zones (λ y n. n)
        (λ y n. subst (λ (i : ℤ). z.id ≢ i) (sym (same y)) n) d in
    let rest = Unique-change_zone id f zones same h in
    elim (Bool-cases (has_id id z)) [
      | inl e ↦
          rw (e, change_zone)
            (
              subst (λ (i : ℤ). All (λ y. i ≢ y.id) (change_zone id f zones)) (sym (same z)) other,
              rest,
            )
      | inr e ↦ rw (e, change_zone) (other, rest)
    ]

pub change_zone-IsSound :
    (s : State) (id : ℤ) (f : Zone → Zone)
    → ((z : Zone) → (f z).id ≡ z.id)
    → ((z : Zone) → HoldsRecords s.next_record_id z → HoldsRecords s.next_record_id (f z))
    → IsSound s
    → IsSound (record s { zones = change_zone id f s.zones })
change_zone-IsSound s id f same keep v = record {
  ids = Unique-change_zone id f s.zones same v.ids;
  issued =
      All-change_zone _ _ id f s.zones (λ z h. h)
        (λ z. subst (IsIssued s.next_zone_id) (sym (same z))) v.issued;
  records = All-change_zone _ _ id f s.zones (λ z h. h) keep v.records;
}

pub add_zone-IsSound :
    (domain : String) (now : ℕ) (s : State) → IsSound s → IsSound (add_zone domain now s).1
unfolding add_zone
add_zone-IsSound domain now s v = record {
  ids =
      Unique-append zone_id s.zones _ v.ids
        (All-mono _ _ s.zones (λ z. IsIssued-fresh s.next_zone_id z.id) v.issued);
  issued =
      All-append _ s.zones _ (All-mono _ _ s.zones (λ z. IsIssued-suc s.next_zone_id z.id) v.issued)
        (omega arith, tt);
  records = All-append (HoldsRecords s.next_record_id) s.zones _ v.records ((tt, tt), tt);
}

append_record-HoldsRecords :
    (n : ℕ) (req : RecordInput) (z : Zone)
    → HoldsRecords n z
    → HoldsRecords (suc n) (append_record (new_record (pos n) req) z)
append_record-HoldsRecords n req z (u, h) = (
  Unique-append record_id z.records _ u (All-mono _ _ z.records (λ r. IsIssued-fresh n r.id) h),
  All-append _ z.records _ (All-mono _ _ z.records (λ r. IsIssued-suc n r.id) h) (omega arith, tt),
)

pub add_record-IsSound :
    (zone_id : ℤ) (req : RecordInput) (s : State) → IsSound s → IsSound (add_record zone_id req s)
unfolding add_record
add_record-IsSound id req s v = record {
  ids = Unique-change_zone id _ s.zones (λ z. refl) v.ids;
  issued = All-change_zone _ _ id _ s.zones (λ z h. h) (λ z h. h) v.issued;
  records =
      All-change_zone _ _ id _ s.zones (λ z. HoldsRecords-suc s.next_record_id z)
        (λ z. append_record-HoldsRecords s.next_record_id req z) v.records;
}

pub All-change_record :
    (P : Record → Type 0) (id : ℤ) (f : Record → Record) (records : List Record)
    → ((r : Record) → P r → P (f r))
    → All P records
    → All P (change_record id f records)
unfolding change_record
All-change_record P id f [] keep h = tt
All-change_record P id f (r ∷ records) keep (p, h) = elim (Bool-cases (is_record id r)) [
  | inl e ↦ rw (e, change_record) (keep r p, h)
  | inr e ↦ rw (e, change_record) (p, All-change_record P id f records keep h)
]

Unique-change_record :
    (id : ℤ) (f : Record → Record) (records : List Record)
    → ((r : Record) → (f r).id ≡ r.id)
    → Unique record_id records
    → Unique record_id (change_record id f records)
unfolding change_record
Unique-change_record id f [] same h = tt
Unique-change_record id f (r ∷ records) same (d, h) = elim (Bool-cases (is_record id r)) [
  | inl e ↦
      rw (e, change_record) (subst (λ (i : ℤ). All (λ y. i ≢ y.id) records) (sym (same r)) d, h)
  | inr e ↦
      rw (e, change_record)
        (
          All-change_record (λ y. r.id ≢ y.id) id f records
              (λ y n. subst (λ (i : ℤ). r.id ≢ i) (sym (same y)) n) d,
          Unique-change_record id f records same h,
        )
]

pub change_record-HoldsRecords :
    (n : ℕ) (id : ℤ) (f : Record → Record) (z : Zone)
    → ((r : Record) → (f r).id ≡ r.id)
    → HoldsRecords n z
    → HoldsRecords n (with_records (change_record id f) z)
change_record-HoldsRecords n id f z same (u, h) = (
  Unique-change_record id f z.records same u,
  All-change_record (λ r. IsIssued n r.id) id f z.records (λ r. subst (IsIssued n) (sym (same r)))
      h,
)

All-remove_record :
    (P : Record → Type 0) (id : ℤ) (records : List Record)
    → All P records
    → All P (remove_record id records)
unfolding remove_record
All-remove_record P id [] h = tt
All-remove_record P id (r ∷ records) (p, h) = elim (Bool-cases (is_record id r)) [
  | inl e ↦ rw (e, remove_record) h
  | inr e ↦ rw (e, remove_record) (p, All-remove_record P id records h)
]

Unique-remove_record :
    (id : ℤ) (records : List Record)
    → Unique record_id records
    → Unique record_id (remove_record id records)
unfolding remove_record
Unique-remove_record id [] h = tt
Unique-remove_record id (r ∷ records) (d, h) = elim (Bool-cases (is_record id r)) [
  | inl e ↦ rw (e, remove_record) h
  | inr e ↦
      rw (e, remove_record)
        (All-remove_record (λ y. r.id ≢ y.id) id records d, Unique-remove_record id records h)
]

pub remove_record-HoldsRecords :
    (n : ℕ) (id : ℤ) (z : Zone)
    → HoldsRecords n z
    → HoldsRecords n (with_records (remove_record id) z)
remove_record-HoldsRecords n id z (u, h) =
    (Unique-remove_record id z.records u, All-remove_record (λ r. IsIssued n r.id) id z.records h)
