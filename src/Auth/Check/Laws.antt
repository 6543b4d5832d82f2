-- ===== src/Auth/Check/Laws.antt =====
-- What `CheckPermission` and its companions of internal/auth/auth.go decide.
use bunny_api_proxy.Base.{
  ℤ, pos, ==ℤ_iff, String, ◌==◌, eq_iff, eq_refl, ◌≡◌, ◌≢◌, ◌↔◌, ◌⊎◌, inl, inr, refl, ap, subst,
  true, false, some, List, [], ◌∷◌, ◌++◌, arith, find, find-append, any, any_of_Member, any-true,
  Member, All, Bool-cases, Option-cases,
}
use bunny_api_proxy.Storage.Types.{Permission}
use bunny_api_proxy.Storage.Permissions.{is_empty, rejects}
use bunny_api_proxy.Auth.Types.{
  Action, list_zones, get_zone, is_list_zones, is_get_zone, action_name, Request, KeyInfo,
}
use bunny_api_proxy.Auth.Check.{
  is_for_zone, contains, needs_type, permits, check_zone, check_permission,
  has_all_zones_permission, zone_ids, get_permitted_zone_ids, is_record_type_permitted,
  get_permitted_record_types,
}

-- `p` is the first permission of the list for the zone.
abbrev pub FirstFor : ℤ → Permission → List Permission → Type 0
FirstFor zone_id p [] = ⊥
FirstFor zone_id p (q ∷ qs) =
    ((q ≡ p) × (q.zone_id ≡ zone_id)) ⊎ ((q.zone_id ≢ zone_id) × FirstFor zone_id p qs)

-- When a list of permissions lets a request through, as the documentation says it.
pub data Permitted (ps : List Permission) (req : Request) : Type 0 where
  listing : req.action ≡ list_zones → Permitted ps req
  reading : (p : Permission) → FirstFor req.zone_id p ps → req.action ≡ get_zone → Permitted ps req
  acting :
      (p : Permission)
      → FirstFor req.zone_id p ps
      → Member (action_name req.action) p.allowed_actions
      → (needs_type req.action ≡ true → Member req.record_type p.record_types)
      → Permitted ps req

pub contains_iff : (s : String) (l : List String) → (contains s l ≡ true) ↔ Member s l
contains_iff s l = (
  λ h.
      let r = any-true (λ a. a == s) l h in
      subst (λ (x : String). Member x l) ((eq_iff r.0 s).0 r.2) r.1,
  λ m. any_of_Member (λ a. a == s) l s m (eq_refl s),
)

find-FirstFor :
    (z : ℤ) (p : Permission) (ps : List Permission)
    → find (is_for_zone z) ps ≡ some p
    → FirstFor z p ps
find-FirstFor z p [] h = cc
find-FirstFor z p (q ∷ qs) h = elim (Bool-cases (is_for_zone z q)) [
  | inl e ↦ inl (ground arith, (==ℤ_iff q.zone_id z).0 e)
  | inr e ↦ inr (λ x. ground (arith, ==ℤ_iff q.zone_id z), find-FirstFor z p qs (ground arith))
]

pub FirstFor-find :
    (z : ℤ) (p : Permission) (ps : List Permission)
    → FirstFor z p ps
    → find (is_for_zone z) ps ≡ some p
FirstFor-find z p [] h = absurd h
FirstFor-find z p (q ∷ qs) (inl (e, k)) = rw ((==ℤ_iff q.zone_id z).1 k) (ap some e)
FirstFor-find z p (q ∷ qs) (inr (n, h)) = elim (Bool-cases (is_for_zone z q)) [
  | inl e ↦ absurd (n ((==ℤ_iff q.zone_id z).0 e))
  | inr e ↦ rw e (FirstFor-find z p qs h)
]

permits-Permitted :
    (p : Permission) (ps : List Permission) (req : Request)
    → FirstFor req.zone_id p ps
    → permits p req ≡ true
    → Permitted ps req
permits-Permitted p ps req first h =
    acting p first ((contains_iff _ p.allowed_actions).0 (ground arith))
      λ n. (contains_iff req.record_type p.record_types).0 (ground arith)

is_list_zones-eq : (a : Action) → is_list_zones a ≡ true → a ≡ list_zones
is_list_zones-eq list_zones h = refl
is_list_zones-eq _ h = cc

is_get_zone-eq : (a : Action) → is_get_zone a ≡ true → a ≡ get_zone
is_get_zone-eq get_zone h = refl
is_get_zone-eq _ h = cc

found-Permitted :
    (p : Permission) (ps : List Permission) (req : Request)
    → FirstFor req.zone_id p ps
    → check_zone (some p) req ≡ true
    → Permitted ps req
found-Permitted p ps req first h = elim (Bool-cases (is_get_zone req.action)) [
  | inl g ↦ reading p first (is_get_zone-eq req.action g)
  | inr g ↦ permits-Permitted p ps req first (rw g at h)
]

check_permission_sound :
    (k : KeyInfo) (req : Request) → check_permission k req ≡ true → Permitted k.permissions req
unfolding check_permission
check_permission_sound k req h = elim (Bool-cases (is_list_zones req.action)) [
  | inl l ↦ listing (is_list_zones-eq req.action l)
  | inr l ↦ elim (Option-cases (find (is_for_zone req.zone_id) k.permissions)) [
    | inl e ↦ ground arith
    | inr (p, e) ↦
        found-Permitted p k.permissions req (find-FirstFor req.zone_id p k.permissions e)
          (ground arith)
  ]
]

check_permission_complete :
    (k : KeyInfo) (req : Request) → Permitted k.permissions req → check_permission k req ≡ true
unfolding check_permission
check_permission_complete k req (listing e) = rw (ap is_list_zones e)
check_permission_complete k req (reading p first e) =
    ground (arith, ap is_get_zone e, FirstFor-find req.zone_id p k.permissions first)
check_permission_complete k req (acting p first allowed typed) = ground (
  arith,
  FirstFor-find req.zone_id p k.permissions first,
  (contains_iff (action_name req.action) p.allowed_actions).1 allowed,
  λ (n : needs_type req.action ≡ true). (contains_iff req.record_type p.record_types).1 (typed n),
)

pub check_permission_iff :
    (k : KeyInfo) (req : Request) → (check_permission k req ≡ true) ↔ Permitted k.permissions req
check_permission_iff k req = (check_permission_sound k req, check_permission_complete k req)

-- A permission that stands behind another one for the zone of the request is never consulted: with
-- any list of further permissions the answer is the same.
pub check_permission-shadowed :
    (id : ℤ) (name : String) (ps qs : List Permission) (p : Permission) (req : Request)
    → FirstFor req.zone_id p ps
    → check_permission (record { key_id = id; key_name = name; permissions = ps ++ qs }) req
      ≡ check_permission (record { key_id = id; key_name = name; permissions = ps }) req
unfolding check_permission
check_permission-shadowed id name ps qs p req first =
    let e : find (is_for_zone req.zone_id) ps ≡ some p = FirstFor-find req.zone_id p ps first in
    rw (e, find-append (is_for_zone req.zone_id) ps qs p e)

-- The wildcard zone 0 that the listing and filtering code knows.
abbrev pub IsChecked : List Permission → Type 0
IsChecked ps = All (λ p. rejects p ≡ false) ps

not_wildcard : (p : Permission) → rejects p ≡ false → is_for_zone (pos 0) p ≡ false
not_wildcard p h = ground (arith, ==ℤ_iff p.zone_id (pos 0))

any-not_wildcard : (ps : List Permission) → IsChecked ps → any (is_for_zone (pos 0)) ps ≡ false
any-not_wildcard [] h = refl
any-not_wildcard (p ∷ ps) (q, h) = rw (not_wildcard p q) (any-not_wildcard ps h)

-- A key whose permissions have passed the validation of the store never has all zones: it sees the
-- zones of its permissions, in order, and no others.
pub get_permitted_zone_ids-IsChecked :
    (k : KeyInfo)
    → IsChecked k.permissions
    → (has_all_zones_permission (some k) ≡ false)
      × (get_permitted_zone_ids (some k) ≡ some (zone_ids k.permissions))
unfolding has_all_zones_permission get_permitted_zone_ids
get_permitted_zone_ids-IsChecked k h =
    let e : any (is_for_zone (pos 0)) k.permissions ≡ false = any-not_wildcard k.permissions h in
    (e, rw e)

needs_type-test :
    (a : Action) → needs_type a ≡ true → (is_list_zones a ≡ false) × (is_get_zone a ≡ false)
needs_type-test list_zones h = cc
needs_type-test get_zone h = cc
needs_type-test _ h = (refl, refl)

is_empty_of_Member : (s : String) (l : List String) → Member s l → is_empty l ≡ false
is_empty_of_Member s [] m = absurd m
is_empty_of_Member s (x ∷ l) m = refl

permits-contains :
    (p : Permission) (req : Request)
    → needs_type req.action ≡ true
    → permits p req ≡ true
    → contains req.record_type p.record_types ≡ true
permits-contains p req typed h = ground arith

-- The two ways of the package to ask for a record type agree where both apply: a key that may add
-- or update a record of a type in a zone finds that type among those that it may see there, and
-- the filter for the zone restricts it to a list that holds the type.
pub check_permission-is_record_type_permitted :
    (k : KeyInfo) (req : Request)
    → needs_type req.action ≡ true
    → check_permission k req ≡ true
    → (is_record_type_permitted (some k) req.zone_id req.record_type ≡ true)
      × (types : List String) × (get_permitted_record_types (some k) req.zone_id ≡ some types)
      × Member req.record_type types
unfolding check_permission is_record_type_permitted get_permitted_record_types
check_permission-is_record_type_permitted k req typed h =
    let t = needs_type-test req.action typed in
    elim (Option-cases (find (is_for_zone req.zone_id) k.permissions)) [
      | inl e ↦ ground arith
      | inr (p, e) ↦
          let c : contains req.record_type p.record_types ≡ true =
            permits-contains p req typed (rw (t.0, e, t.1) at h) in
          let m = (contains_iff req.record_type p.record_types).0 c in
          let n = is_empty_of_Member req.record_type p.record_types m in
          (rw (e, n) c, p.record_types, rw (e, n), m)
    ]
