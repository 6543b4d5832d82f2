-- ===== src/Proxy/Router/Calls.antt =====
-- Each handler of internal/proxy makes at most one call of the client, for the zone in its path.
use bunny_api_proxy.Base.{
  ℤ, String, ◌==◌, ◌≡◌, refl, Bool, true, false, Option, none, some, List, [], ◌∷◌, ◌⊎◌, inl, inr,
  if-elim, Bool-cases, Option-cases,
}
use bunny_api_proxy.Go.ParseInt.{parse_int}
use bunny_api_proxy.Auth.Context.{Context, is_admin_from_context}
use bunny_api_proxy.Bunny.Client.{Library, Client}
use bunny_api_proxy.Bunny.Client.Operations.{new_client}
use bunny_api_proxy.Bunny.Client.Calls.{
  Call, perform, zone_of, to_list_zones, to_create_zone, to_get_zone, to_delete_zone,
  to_update_zone, to_check_zone_availability, to_import_records, to_export_records,
  to_enable_dnssec, to_disable_dnssec, to_issue_certificate, to_get_zone_statistics,
  to_trigger_dns_scan, to_get_dns_scan_result, to_add_record, to_update_record, to_delete_record,
}
use bunny_api_proxy.Proxy.Types.{Response}
use bunny_api_proxy.Proxy.Handlers.{
  number_of, with_id, with_body, with_text, handle_list_zones, handle_create_zone, handle_get_zone,
  handle_delete_zone, handle_update_zone, handle_check_availability, handle_import_records,
  handle_export_records, handle_enable_dnssec, handle_disable_dnssec, handle_issue_certificate,
  handle_get_statistics, handle_trigger_scan, handle_get_scan_result, handle_list_records,
  handle_add_record, handle_update_record, handle_delete_record, require_admin,
}
use bunny_api_proxy.Proxy.Router.{
  Endpoint, Segment, literal, zone_param, record_param, Params, Input, route_for, handle,
  serve_route,
}

-- The parameters of a pattern are read as numbers, which the zone is one of.
abbrev pub IsRead : List Segment → Params → Option ℤ → Type 0
IsRead [] p z = Unit
IsRead (literal t ∷ ss) p z = IsRead ss p z
IsRead (zone_param ∷ ss) p z =
    ((id : ℤ) × (z ≡ some id) × (parse_int p.zone_id ≡ some id)) × IsRead ss p z
IsRead (record_param ∷ ss) p z = ((id : ℤ) × (parse_int p.record_id ≡ some id)) × IsRead ss p z

-- The record of a call is the one that the path names.
abbrev pub ReadsRecord : Call → Params → Type 0
ReadsRecord (to_update_record id record_id req) p = parse_int p.record_id ≡ some record_id
ReadsRecord (to_delete_record id record_id) p = parse_int p.record_id ≡ some record_id
ReadsRecord _ p = Unit

-- Whether a call is the one of an endpoint's handler; the records are listed from the whole zone.
abbrev pub serves : Call → Endpoint → Bool
serves (to_list_zones opts) Endpoint.list_zones = true
serves (to_create_zone domain) Endpoint.create_zone = true
serves (to_get_zone id) Endpoint.get_zone = true
serves (to_get_zone id) Endpoint.list_records = true
serves (to_delete_zone id) Endpoint.delete_zone = true
serves (to_update_zone id req) Endpoint.update_zone = true
serves (to_check_zone_availability name) Endpoint.check_availability = true
serves (to_import_records id body content_type) Endpoint.import_records = true
serves (to_export_records id) Endpoint.export_records = true
serves (to_enable_dnssec id) Endpoint.enable_dnssec = true
serves (to_disable_dnssec id) Endpoint.disable_dnssec = true
serves (to_issue_certificate id domain) Endpoint.issue_certificate = true
serves (to_get_zone_statistics id date_from date_to) Endpoint.get_statistics = true
serves (to_trigger_dns_scan domain) Endpoint.trigger_scan = true
serves (to_get_dns_scan_result id) Endpoint.get_scan_result = true
serves (to_add_record id req) Endpoint.add_record = true
serves (to_update_record id record_id req) Endpoint.update_record = true
serves (to_delete_record id record_id) Endpoint.delete_record = true
serves _ _ = false

module _ {W : Type 0} (P : W → W → Type 0) (stays : (w : W) → P w w) where
  with_id-elim :
      (id_text missing invalid : String) (k : ℤ → W → Response × W)
      → ((id : ℤ) → parse_int id_text ≡ some id → (w : W) → P w (k id w).1)
      → (w : W) → P w (with_id id_text missing invalid k w).1
  with_id-elim id_text missing invalid k h w =
      if-elim (λ (r : Response × W). P w r.1) (id_text == "") _ _ (λ e. stays w)
        λ e. elim (Option-cases (parse_int id_text)) [
          | inl bad ↦ rw bad (stays w)
          | inr (id, read) ↦ rw read (h id read w)
        ]

  with_body-elim :
      (body : Option String) (k : String → W → Response × W)
      → ((req : String) (w : W) → P w (k req w).1)
      → (w : W) → P w (with_body body k w).1
  with_body-elim none k h w = stays w
  with_body-elim (some req) k h w = h req w

  with_text-elim :
      (given missing : String) (k : W → Response × W)
      → ((w : W) → P w (k w).1)
      → (w : W) → P w (with_text given missing k w).1
  with_text-elim given missing k h w =
      if-elim (λ (r : Response × W). P w r.1) (given == "") _ _ (λ e. stays w) (λ e. h w)

module _ {W : Type 0} (lib : Library W) (c : Client) (ctx : Context) (i : Input) (p : Params) where
  -- What is upstream is left alone, or changed by the call of an endpoint.
  abbrev pub CallsFor : Endpoint → W → W → Type 0
  CallsFor e w w' =
      (w' ≡ w)
      ⊎ ((call : Call) × (serves call e ≡ true)
          × IsRead (route_for e).pattern p (zone_of call)
          × ReadsRecord call p
          × (w' ≡ (perform lib c call w).1))

  list_zones-CallsFor :
      (w : W)
      → CallsFor Endpoint.list_zones w
          (handle_list_zones (new_client lib c) ctx i.page i.per_page i.search w).1
  unfolding handle_list_zones new_client perform
  list_zones-CallsFor w = elim (Option-cases (number_of i.page)) [
    | inl e ↦ rw (e, handle_list_zones) (inl refl)
    | inr (n, e) ↦ elim (Option-cases (number_of i.per_page)) [
      | inl f ↦ rw (e, f, handle_list_zones) (inl refl)
      | inr (m, f) ↦
          rw (e, f, handle_list_zones)
            (inr (
              to_list_zones (record { page = n; per_page = m; search = i.search }),
              refl,
              tt,
              tt,
              refl,
            ))
    ]
  ]

  handle-CallsFor : (e : Endpoint) (w : W) → CallsFor e w (handle (new_client lib c) ctx i p e w).1
  unfolding handle handle_create_zone handle_get_zone handle_delete_zone handle_update_zone
      handle_check_availability handle_import_records handle_export_records handle_enable_dnssec
      handle_disable_dnssec handle_issue_certificate handle_get_statistics handle_trigger_scan
      handle_get_scan_result handle_list_records handle_add_record handle_update_record
      handle_delete_record new_client perform
  handle-CallsFor Endpoint.list_zones = list_zones-CallsFor
  handle-CallsFor Endpoint.create_zone =
      with_body-elim (CallsFor Endpoint.create_zone) (λ w. inl refl) i.body_domain _
        λ d.
          with_text-elim (CallsFor Endpoint.create_zone) (λ w. inl refl) d _ _
            (λ w. inr (to_create_zone d, refl, tt, tt, refl))
  handle-CallsFor Endpoint.check_availability =
      with_body-elim (CallsFor Endpoint.check_availability) (λ w. inl refl) i.body_name _
        λ d.
          with_text-elim (CallsFor Endpoint.check_availability) (λ w. inl refl) d _ _
            (λ w. inr (to_check_zone_availability d, refl, tt, tt, refl))
  handle-CallsFor Endpoint.trigger_scan =
      with_body-elim (CallsFor Endpoint.trigger_scan) (λ w. inl refl) i.body_domain _
        λ d.
          with_text-elim (CallsFor Endpoint.trigger_scan) (λ w. inl refl) d _ _
            (λ w. inr (to_trigger_dns_scan d, refl, tt, tt, refl))
  handle-CallsFor Endpoint.get_zone =
      with_id-elim (CallsFor Endpoint.get_zone) (λ w. inl refl) p.zone_id _ _ _
        λ id r w. inr (to_get_zone id, refl, ((id, refl, r), tt), tt, refl)
  handle-CallsFor Endpoint.delete_zone =
      with_id-elim (CallsFor Endpoint.delete_zone) (λ w. inl refl) p.zone_id _ _ _
        λ id r w. inr (to_delete_zone id, refl, ((id, refl, r), tt), tt, refl)
  handle-CallsFor Endpoint.update_zone =
      with_id-elim (CallsFor Endpoint.update_zone) (λ w. inl refl) p.zone_id _ _ _
        λ id r.
          with_body-elim (CallsFor Endpoint.update_zone) (λ w. inl refl) i.body_document _
            λ d w. inr (to_update_zone id d, refl, ((id, refl, r), tt), tt, refl)
  handle-CallsFor Endpoint.import_records =
      with_id-elim (CallsFor Endpoint.import_records) (λ w. inl refl) p.zone_id _ _ _
        λ id r w.
          inr (to_import_records id i.body_text i.content_type, refl, ((id, refl, r), tt), tt, refl)
  handle-CallsFor Endpoint.export_records =
      with_id-elim (CallsFor Endpoint.export_records) (λ w. inl refl) p.zone_id _ _ _
        λ id r w. inr (to_export_records id, refl, ((id, refl, r), tt), tt, refl)
  handle-CallsFor Endpoint.enable_dnssec =
      with_id-elim (CallsFor Endpoint.enable_dnssec) (λ w. inl refl) p.zone_id _ _ _
        λ id r w. inr (to_enable_dnssec id, refl, ((id, refl, r), tt), tt, refl)
  handle-CallsFor Endpoint.disable_dnssec =
      with_id-elim (CallsFor Endpoint.disable_dnssec) (λ w. inl refl) p.zone_id _ _ _
        λ id r w. inr (to_disable_dnssec id, refl, ((id, refl, r), tt), tt, refl)
  handle-CallsFor Endpoint.issue_certificate =
      with_id-elim (CallsFor Endpoint.issue_certificate) (λ w. inl refl) p.zone_id _ _ _
        λ id r.
          with_body-elim (CallsFor Endpoint.issue_certificate) (λ w. inl refl) i.body_domain _
            λ d w. inr (to_issue_certificate id d, refl, ((id, refl, r), tt), tt, refl)
  handle-CallsFor Endpoint.get_statistics =
      with_id-elim (CallsFor Endpoint.get_statistics) (λ w. inl refl) p.zone_id _ _ _
        λ id r w.
          inr (to_get_zone_statistics id i.date_from i.date_to, refl, ((id, refl, r), tt), tt, refl)
  handle-CallsFor Endpoint.get_scan_result =
      with_id-elim (CallsFor Endpoint.get_scan_result) (λ w. inl refl) p.zone_id _ _ _
        λ id r w. inr (to_get_dns_scan_result id, refl, ((id, refl, r), tt), tt, refl)
  handle-CallsFor Endpoint.list_records =
      with_id-elim (CallsFor Endpoint.list_records) (λ w. inl refl) p.zone_id _ _ _
        λ id r w. inr (to_get_zone id, refl, ((id, refl, r), tt), tt, refl)
  handle-CallsFor Endpoint.add_record =
      with_id-elim (CallsFor Endpoint.add_record) (λ w. inl refl) p.zone_id _ _ _
        λ id r.
          with_body-elim (CallsFor Endpoint.add_record) (λ w. inl refl) i.body_document _
            λ d w. inr (to_add_record id d, refl, ((id, refl, r), tt), tt, refl)
  handle-CallsFor Endpoint.update_record =
      with_id-elim (CallsFor Endpoint.update_record) (λ w. inl refl) p.zone_id _ _ _
        λ id r.
          with_id-elim (CallsFor Endpoint.update_record) (λ w. inl refl) p.record_id _ _ _
            λ n s.
              with_body-elim (CallsFor Endpoint.update_record) (λ w. inl refl) i.body_document _
                λ d w. inr (to_update_record id n d, refl, ((id, refl, r), ((n, s), tt)), s, refl)
  handle-CallsFor Endpoint.delete_record =
      with_id-elim (CallsFor Endpoint.delete_record) (λ w. inl refl) p.zone_id _ _ _
        λ id r.
          with_id-elim (CallsFor Endpoint.delete_record) (λ w. inl refl) p.record_id _ _ _
            λ n s w. inr (to_delete_record id n, refl, ((id, refl, r), ((n, s), tt)), s, refl)

  -- A route that is reserved for admins makes no call without admin rights.
  pub serve_route-CallsFor :
      (e : Endpoint) (w : W)
      → let w' = (serve_route (new_client lib c) ctx i p e w).1 in
        (w' ≡ w)
        ⊎ (((route_for e).is_admin ≡ false) ⊎ (is_admin_from_context ctx ≡ true)) × CallsFor e w w'
  unfolding serve_route require_admin
  serve_route-CallsFor e w = elim (Bool-cases (route_for e).is_admin) [
    | inr free ↦ rw free (inr (inl refl, handle-CallsFor e w))
    | inl closed ↦ elim (Bool-cases (is_admin_from_context ctx)) [
      | inl admin ↦ rw (closed, admin) (inr (inr refl, handle-CallsFor e w))
      | inr scoped ↦ rw (closed, scoped) (inl refl)
    ]
  ]
