-- ===== src/Proxy/Filters.antt =====
-- What a scoped key sees of the zones and records of the account (internal/proxy/handler.go).
use bunny_api_proxy.Base.{
  ℤ, ◌==ℤ◌, ==ℤ_iff, ==ℤ_refl, String, ◌==◌, ◌≡◌, ◌↔◌, refl, sym, ap, subst, true, false, some,
  List, Member, Member-select, select_of_Member, any-true, any_of_Member, select, length,
}
use bunny_api_proxy.Storage.Types.{Permission}
use bunny_api_proxy.Storage.Permissions.{is_empty}
use bunny_api_proxy.Go.ParseInt.{parse_int}
use bunny_api_proxy.Auth.Types.{KeyInfo}
use bunny_api_proxy.Auth.Check.{zone_ids, get_permitted_record_types}
use bunny_api_proxy.Auth.Check.Laws.{
  FirstFor, IsChecked, contains_iff, FirstFor-find, get_permitted_zone_ids-IsChecked,
}
use bunny_api_proxy.Auth.Parse.{map_record_type_to_string}
use bunny_api_proxy.Auth.Context.{Context}
use bunny_api_proxy.Auth.Middleware.{get_key_info}
use bunny_api_proxy.Proxy.Types.{
  Record, Zone, ListZonesResponse, ok, BunnyClient, zone_list, record_list, respond,
}
use bunny_api_proxy.Proxy.Handlers.{
  has_type, filter_records_by_permission, has_zone_id, restrict, filter_zones, number_of,
  handle_list_zones, handle_list_records,
}

has_zone_id_iff : (ids : List ℤ) (z : Zone) → (has_zone_id ids z ≡ true) ↔ Member z.id ids
has_zone_id_iff ids z = (
  λ h.
      let (id, m, e) = any-true (λ i. i ==ℤ z.id) ids h in
      subst (λ (x : ℤ). Member x ids) ((==ℤ_iff id z.id).0 e) m,
  λ m. any_of_Member (λ i. i ==ℤ z.id) ids z.id m (==ℤ_refl z.id),
)

-- What a list of zones shows to a key: the zones of its permissions that the account has.
pub record Shows (k : KeyInfo) (result shown : ListZonesResponse) : Type 0 where
  pub zones :
      (z : Zone)
      → Member z shown.items ↔ (Member z result.items × Member z.id (zone_ids k.permissions))
  pub total : shown.total_items ≡ length shown.items
  pub last_page : shown.has_more_items ≡ false

filter_zones-Shows :
    (k : KeyInfo) (result : ListZonesResponse)
    → IsChecked k.permissions
    → Shows k result (filter_zones (some k) result)
unfolding filter_zones
filter_zones-Shows k result c =
    let (no_wildcard, ids) = get_permitted_zone_ids-IsChecked k c in
    rw (no_wildcard, ids) (shows (zone_ids k.permissions) refl)
  where
    shows : (ids : List ℤ) → ids ≡ zone_ids k.permissions → Shows k result (restrict ids result)
    shows ids e = record {
      zones = λ z. (
        λ m.
            let (n, h) = Member-select (has_zone_id ids) result.items z m in
            (n, subst (λ (l : List ℤ). Member z.id l) e ((has_zone_id_iff ids z).0 h)),
        λ (n, h).
            select_of_Member (has_zone_id ids) result.items z n
              ((has_zone_id_iff ids z).1 (subst (λ (l : List ℤ). Member z.id l) (sym e) h)),
      );
      total = refl;
      last_page = refl;
    }

-- Where the query is well-formed and bunny.net answers, `HandleListZones` answers 200, and a scoped
-- key with validated permissions is shown those zones of the answer that its permissions name, and
-- no others, with their number as the total and no further pages.
pub handle_list_zones-Shows :
    {W : Type 0} (client : BunnyClient W) (ctx : Context) (k : KeyInfo)
    (page per_page query : String) (p n : ℤ) (result : ListZonesResponse) (w w' : W)
    → get_key_info ctx ≡ some k
    → IsChecked k.permissions
    → number_of page ≡ some p
    → number_of per_page ≡ some n
    → client.list_zones (record { page = p; per_page = n; search = query }) w ≡ (ok result, w')
    → (shown : ListZonesResponse) × (handle_list_zones client ctx page per_page query w
        ≡ (respond 200 (zone_list shown), w'))
      × Shows k result shown
unfolding handle_list_zones
handle_list_zones-Shows client ctx k page per_page query p n result w w' key c ep en answer = (
  filter_zones (some k) result,
  rw (ep, en, ap (λ x. x.0) answer, ap (λ x. x.1) answer, key, handle_list_zones) refl,
  filter_zones-Shows k result c,
)

-- Where bunny.net answers, `HandleListRecords` answers 200, and a scoped key whose first permission
-- for the zone lists record types is shown the zone's records of those types, and no others.
pub handle_list_records-Member :
    {W : Type 0} (client : BunnyClient W) (ctx : Context) (k : KeyInfo) (p : Permission)
    (id_text : String) (id : ℤ) (zone : Zone) (w w' : W)
    → get_key_info ctx ≡ some k
    → FirstFor id p k.permissions
    → is_empty p.record_types ≡ false
    → (id_text == "") ≡ false
    → parse_int id_text ≡ some id
    → client.get_zone id w ≡ (ok zone, w')
    → (shown : List Record) × (handle_list_records client ctx id_text w
        ≡ (respond 200 (record_list shown), w'))
      × ((r : Record)
          → Member r shown ↔ (
              Member r zone.records
              × Member (map_record_type_to_string r.record_type) p.record_types))
unfolding handle_list_records filter_records_by_permission get_permitted_record_types
handle_list_records-Member client ctx k p id_text id zone w w' key first typed given parsed answer =
    (
      select (has_type p.record_types) zone.records,
      rw
          (
            given,
            parsed,
            ap (λ x. x.0) answer,
            ap (λ x. x.1) answer,
            key,
            FirstFor-find id p k.permissions first,
            typed,
            handle_list_records,
          )
          refl,
      λ r. (
        λ m.
            let (n, h) = Member-select (has_type p.record_types) zone.records r m in
            (n, (contains_iff _ p.record_types).0 h),
        λ (n, h).
            select_of_Member (has_type p.record_types) zone.records r n
              ((contains_iff _ p.record_types).1 h),
      ),
    )
