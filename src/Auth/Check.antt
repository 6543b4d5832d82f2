-- ===== src/Auth/Check.antt =====
-- internal/auth/auth.go: the permission of a key for a request.
pub mod Laws
use bunny_api_proxy.Base.{
  ℤ, pos, ◌==ℤ◌, String, ◌==◌, Bool, true, false, not, Option, none, some, List, [], ◌∷◌, find, any,
  if◌then◌else◌,
}
use bunny_api_proxy.Storage.Types.{Permission}
use bunny_api_proxy.Storage.Permissions.{is_empty}
use bunny_api_proxy.Auth.Types.{
  Action, add_record, update_record, is_list_zones, is_get_zone, action_name, Request, KeyInfo,
}

abbrev pub is_for_zone : ℤ → Permission → Bool
is_for_zone zone_id p = p.zone_id ==ℤ zone_id

abbrev pub contains : String → List String → Bool
contains s = any (λ a. a == s)

abbrev pub needs_type : Action → Bool
needs_type add_record = true
needs_type update_record = true
needs_type _ = false

-- The rest of `CheckPermission`, once the permission of the zone is found and the action is not
-- `get_zone`.
abbrev pub permits : Permission → Request → Bool
permits p req =
    if not (contains (action_name req.action) p.allowed_actions)
    then false
    else if needs_type req.action
    then contains req.record_type p.record_types
    else true

abbrev pub check_zone : Option Permission → Request → Bool
check_zone none req = false
check_zone (some p) req = if is_get_zone req.action then true else permits p req

-- `true` is `nil`, and `false` is `ErrForbidden`.
unfoldable pub check_permission : KeyInfo → Request → Bool
check_permission key_info req =
    if is_list_zones req.action
    then true
    else check_zone (find (is_for_zone req.zone_id) key_info.permissions) req

-- A nil `*KeyInfo` is `none`.
unfoldable pub has_all_zones_permission : Option KeyInfo → Bool
has_all_zones_permission none = false
has_all_zones_permission (some k) = any (is_for_zone (pos 0)) k.permissions

abbrev pub zone_ids : List Permission → List ℤ
zone_ids [] = []
zone_ids (p ∷ ps) = p.zone_id ∷ zone_ids ps

-- A nil slice, which means all zones, is `none`.
unfoldable pub get_permitted_zone_ids : Option KeyInfo → Option (List ℤ)
get_permitted_zone_ids none = none
get_permitted_zone_ids (some k) =
    if any (is_for_zone (pos 0)) k.permissions then none else some (zone_ids k.permissions)

abbrev pub or_wildcard : Option Permission → ℤ → List Permission → Option Permission
or_wildcard (some p) zone_id ps = some p
or_wildcard none zone_id ps =
    if not (zone_id ==ℤ pos 0) then find (is_for_zone (pos 0)) ps else none

unfoldable pub find_zone_permission : Option KeyInfo → ℤ → Option Permission
find_zone_permission none zone_id = none
find_zone_permission (some k) zone_id =
    or_wildcard (find (is_for_zone zone_id) k.permissions) zone_id k.permissions

abbrev pub type_permitted : Option Permission → String → Bool
type_permitted none record_type = false
type_permitted (some p) record_type =
    if is_empty p.record_types then true else contains record_type p.record_types

-- A nil `keyInfo` has no permission, so the test for nil at the head adds nothing.
unfoldable pub is_record_type_permitted : Option KeyInfo → ℤ → String → Bool
unfolding find_zone_permission
is_record_type_permitted k zone_id record_type =
    type_permitted (find_zone_permission k zone_id) record_type

abbrev pub restricted_types : Option Permission → Option (List String)
restricted_types none = none
restricted_types (some p) = if is_empty p.record_types then none else some p.record_types

unfoldable pub get_permitted_record_types : Option KeyInfo → ℤ → Option (List String)
unfolding find_zone_permission
get_permitted_record_types k zone_id = restricted_types (find_zone_permission k zone_id)
