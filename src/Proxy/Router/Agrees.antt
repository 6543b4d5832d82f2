-- ===== src/Proxy/Router/Agrees.antt =====
-- chi's route and `ParseRequest`'s action are found by different code from the same path: they agree
-- where a handler goes on to call the client.
use Prim.Native.String.{◌++◌}
use text.Mathlib.TextLemmas.{
  cons-append, append-nil, append_assoc, append_cancel_left, append-eq-nil_iff,
}
use bunny_api_proxy.Base.{
  ℤ, String, ◌==◌, eq_iff, ◌≡◌, refl, sym, ap, ◌∙◌, subst, Bool, true, false, Option, none, some,
  List, [], ◌∷◌, ◌⊎◌, inl, inr, arith,
}
use bunny_api_proxy.Go.ParseInt.{parse_int}
use bunny_api_proxy.Go.Pattern.{lit, digits, Pattern, match, strip_prefix}
use bunny_api_proxy.Auth.Types.{
  Action, is_admin_only, Method, get, post, put, delete, other, HttpRequest, Request,
}
use bunny_api_proxy.Auth.Parse.{first}
use bunny_api_proxy.Auth.Parse.Endpoint.{method_of, below_zone, route_of, has_zone}
use bunny_api_proxy.Auth.Parse.Sound.{ZoneIs, IsDescribed}
use bunny_api_proxy.Proxy.Router.{Endpoint, Params, route_for, fill}
use bunny_api_proxy.Proxy.Router.Calls.{IsRead}
use bunny_api_proxy.Proxy.Router.Paths.{
  KeepsPlain, IsRoutePath, IsRoutePath-plain, IsRoutePath-nil, IsNumber, parse_int-IsNumber,
  IsNumber-plain, is_plain, strip_prefix-append, starts_digit, match-number,
}

-- The actions that are not reserved for admins, by their method.
abbrev OfMethod : Method → Action → Type 0
OfMethod get a = (a ≡ Action.list_zones) ⊎ (a ≡ Action.get_zone) ⊎ (a ≡ Action.list_records)
OfMethod post a = (a ≡ Action.add_record) ⊎ (a ≡ Action.update_record)
OfMethod delete a = a ≡ Action.delete_record
OfMethod put a = ⊥
OfMethod other a = ⊥

OfMethod-method_of : (a : Action) → is_admin_only a ≡ false → OfMethod (method_of a) a
OfMethod-method_of Action.list_zones h = inl refl
OfMethod-method_of Action.get_zone h = inr (inl refl)
OfMethod-method_of Action.list_records h = inr (inr refl)
OfMethod-method_of Action.add_record h = inl refl
OfMethod-method_of Action.update_record h = inr refl
OfMethod-method_of Action.delete_record h = refl
OfMethod-method_of Action.create_zone h = ground arith
OfMethod-method_of Action.update_zone h = ground arith
OfMethod-method_of Action.check_availability h = ground arith
OfMethod-method_of Action.import_records h = ground arith
OfMethod-method_of Action.export_records h = ground arith
OfMethod-method_of Action.enable_dnssec h = ground arith
OfMethod-method_of Action.disable_dnssec h = ground arith
OfMethod-method_of Action.issue_certificate h = ground arith
OfMethod-method_of Action.get_statistics h = ground arith
OfMethod-method_of Action.trigger_dns_scan h = ground arith
OfMethod-method_of Action.get_dns_scan_result h = ground arith

starts_digit-append : (s t : String) → (s == "") ≡ false → starts_digit (s ++ t) ≡ starts_digit s
starts_digit-append String.[] t h = ground arith
starts_digit-append (String.◌∷◌ c s) t h = rw (cons-append c s t) refl

IsNumber-nonempty : (s : String) → IsNumber s → s ≡ "" → ⊥
IsNumber-nonempty String.[] h e = h
IsNumber-nonempty (String.◌∷◌ c s) h e = cc

some-ne-none {ℓ} : {A : Type ℓ} (o : Option A) (a : A) → o ≡ none → o ≡ some a → ⊥
some-ne-none o a e f = cc

-- A slash and more is no end of a path.
match-slash : (t : String) → (t ≡ "" → ⊥) → match [] ("/" ++ t) ≡ none
unfolding match
match-slash t h = ground (arith, eq_iff ("/" ++ t) "", eq_iff ("/" ++ t) "/", a, b)
  where
    a : "/" ++ t ≡ "" → ⊥
    a e = h (append-eq-nil_iff.0 e).1

    b : "/" ++ t ≡ "/" → ⊥
    b e = h (append_cancel_left "/" t "" e)

match-lit : (l : String) (ps : Pattern) (t : String) → match (lit l ∷ ps) (l ++ t) ≡ match ps t
unfolding match
match-lit l ps t = rw (strip_prefix-append l t, match) refl

-- A literal in front of a slash and more.
match-lit_slash : (l t : String) → (t ≡ "" → ⊥) → match (lit l ∷ []) ((l ++ "/") ++ t) ≡ none
match-lit_slash l t h =
    ap (match (lit l ∷ [])) (append_assoc l "/" t) ∙ match-lit l [] ("/" ++ t) ∙ match-slash t h

-- What `ParseRequest` has found of a path.
abbrev At : String → Action → ℤ → Type 0
At path a zone_id =
    (found : List String) × (match (route_of a) path ≡ some found)
    × ZoneIs (has_zone a) found zone_id

-- The action that a route is for, where it is not reserved for admins.
abbrev pub granted_action : Endpoint → Option Action
granted_action Endpoint.list_zones = some Action.list_zones
granted_action Endpoint.get_zone = some Action.get_zone
granted_action Endpoint.list_records = some Action.list_records
granted_action Endpoint.add_record = some Action.add_record
granted_action Endpoint.update_record = some Action.update_record
granted_action Endpoint.delete_record = some Action.delete_record
granted_action _ = none

module _ (zone_text : String) (zone_id id : ℤ) (read : parse_int zone_text ≡ some id) where
  abbrev ZoneAt : String → Action → Type 0
  ZoneAt tail a = At ("/dnszone/" ++ (zone_text ++ tail)) a zone_id

  below :
      (tail : String) (ps : Pattern)
      → starts_digit tail ≡ false
      → (found : List String) × (match (below_zone ps) ("/dnszone/" ++ (zone_text ++ tail))
          ≡ some found)
        × (parse_int (first found) ≡ some zone_id)
      → (id ≡ zone_id) × (rest : List String) × (match ps tail ≡ some rest)
  below tail ps plain (found, m, z) =
      let (rest, f, m') =
        match-number ps zone_text tail found (parse_int-IsNumber zone_text id read) plain
          (sym (match-lit "/dnszone/" (digits ∷ ps) (zone_text ++ tail)) ∙ m) in
      let z' : parse_int zone_text ≡ some zone_id = ap (λ l. parse_int (first l)) (sym f) ∙ z in
      (cc, rest, m')

  misses :
      (tail : String) (ps : Pattern)
      → starts_digit tail ≡ false
      → match ps tail ≡ none
      → (found : List String) × (match (below_zone ps) ("/dnszone/" ++ (zone_text ++ tail))
          ≡ some found)
        × (parse_int (first found) ≡ some zone_id)
      → ⊥
  misses tail ps plain missed h =
      let (_, rest, m) = below tail ps plain h in some-ne-none (match ps tail) rest missed m

  not_list : (tail : String) → ZoneAt tail Action.list_zones → ⊥
  not_list tail (found, m, _) =
      some-ne-none (match (lit "/dnszone" ∷ []) ("/dnszone/" ++ (zone_text ++ tail))) found
        (match-lit_slash "/dnszone" (zone_text ++ tail) λ e.
          IsNumber-nonempty zone_text (parse_int-IsNumber zone_text id read)
            (append-eq-nil_iff.0 e).0)
        m

  abbrev Agrees : Action → Action → Type 0
  Agrees expected a = (expected ≡ a) × (id ≡ zone_id)

  get_zone-Agrees : (a : Action) → OfMethod get a → ZoneAt "" a → Agrees Action.get_zone a
  unfolding match strip_prefix
  get_zone-Agrees a (inl e) h = absurd (not_list "" (subst (ZoneAt "") e h))
  get_zone-Agrees a (inr (inl e)) h = (sym e, (below "" [] refl (subst (ZoneAt "") e h)).0)
  get_zone-Agrees a (inr (inr e)) h =
      absurd (misses "" (lit "/records" ∷ []) refl refl (subst (ZoneAt "") e h))

  list_records-Agrees :
      (a : Action) → OfMethod get a → ZoneAt "/records" a → Agrees Action.list_records a
  unfolding match strip_prefix
  list_records-Agrees a (inl e) h = absurd (not_list "/records" (subst (ZoneAt "/records") e h))
  list_records-Agrees a (inr (inl e)) h =
      absurd (misses "/records" [] refl refl (subst (ZoneAt "/records") e h))
  list_records-Agrees a (inr (inr e)) h =
      (sym e, (below "/records" (lit "/records" ∷ []) refl (subst (ZoneAt "/records") e h)).0)

  add_record-Agrees :
      (a : Action) → OfMethod post a → ZoneAt "/records" a → Agrees Action.add_record a
  unfolding match strip_prefix
  add_record-Agrees a (inl e) h =
      (sym e, (below "/records" (lit "/records" ∷ []) refl (subst (ZoneAt "/records") e h)).0)
  add_record-Agrees a (inr e) h =
      absurd (
        misses "/records" (lit "/records/" ∷ digits ∷ []) refl refl (subst (ZoneAt "/records") e h))

  delete_zone-none : (a : Action) → OfMethod delete a → ZoneAt "" a → ⊥
  unfolding match strip_prefix
  delete_zone-none a e h =
      misses "" (lit "/records/" ∷ digits ∷ []) refl refl (subst (ZoneAt "") e h)

  module _ (record_text : String) (nonempty : record_text ≡ "" → ⊥) where
    abbrev record_tail : String
    record_tail = "/records/" ++ record_text

    update_record-Agrees :
        (a : Action) → OfMethod post a → ZoneAt record_tail a → Agrees Action.update_record a
    update_record-Agrees a (inl e) h = absurd (
        misses record_tail (lit "/records" ∷ []) (starts_digit-append "/records/" record_text refl)
          (match-lit_slash "/records" record_text nonempty) (subst (ZoneAt record_tail) e h))
    update_record-Agrees a (inr e) h = (
      sym e,
      (below record_tail (lit "/records/" ∷ digits ∷ [])
          (starts_digit-append "/records/" record_text refl) (subst (ZoneAt record_tail) e h)).0,
    )

    delete_record-Agrees :
        (a : Action) → OfMethod delete a → ZoneAt record_tail a → Agrees Action.delete_record a
    delete_record-Agrees a e h = (
      sym e,
      (below record_tail (lit "/records/" ∷ digits ∷ [])
          (starts_digit-append "/records/" record_text refl) (subst (ZoneAt record_tail) e h)).0,
    )

module _ (unescape : String → Option String) (keeps : KeepsPlain unescape) where
  -- The path of a zone's route, from the path that chi has.
  zone_path-path :
      (zone_text raw path : String) (id : ℤ)
      → parse_int zone_text ≡ some id
      → IsRoutePath unescape path ("/dnszone/" ++ (zone_text ++ raw))
      → (tail : String) × (path ≡ "/dnszone/" ++ (zone_text ++ tail))
        × IsRoutePath unescape tail raw
  zone_path-path zone_text raw path id read h =
      let (rest, e, k) =
        IsRoutePath-plain unescape keeps "/dnszone/" (zone_text ++ raw) path refl h in
      let (tail, f, l) =
        IsRoutePath-plain unescape keeps zone_text raw rest
          (IsNumber-plain zone_text (parse_int-IsNumber zone_text id read)) k in
      (tail, e ∙ ap (λ t. "/dnszone/" ++ t) f, l)

  literal-path : (l path : String) → is_plain l ≡ true → IsRoutePath unescape path l → path ≡ l
  literal-path l path plain h =
      let (rest, e, k) =
        IsRoutePath-plain unescape keeps l "" path plain
          (subst (IsRoutePath unescape path) (sym (append-nil l)) h) in
      e ∙ ap (λ t. l ++ t) (IsRoutePath-nil unescape keeps rest k) ∙ append-nil l

  record-path :
      (record_text path : String) (id : ℤ)
      → parse_int record_text ≡ some id
      → IsRoutePath unescape path ("/records/" ++ (record_text ++ ""))
      → path ≡ "/records/" ++ record_text
  record-path record_text path id read h =
      let (rest, e, k) =
        IsRoutePath-plain unescape keeps "/records/" (record_text ++ "") path refl h in
      let (tail, f, l) =
        IsRoutePath-plain unescape keeps record_text "" rest
          (IsNumber-plain record_text (parse_int-IsNumber record_text id read)) k in
      e
      ∙ ap (λ t. "/records/" ++ t)
          (f
            ∙ ap (λ t. record_text ++ t) (IsRoutePath-nil unescape keeps tail l)
            ∙ append-nil record_text)

  abbrev RouteAgrees : Endpoint → Action → ℤ → Option ℤ → Type 0
  RouteAgrees e a zone_id z = (granted_action e ≡ some a) × (has_zone a ≡ true → z ≡ some zone_id)

  agreed :
      (e : Endpoint) (expected a : Action) (zone_id id : ℤ) (z : Option ℤ)
      → granted_action e ≡ some expected
      → z ≡ some id
      → (expected ≡ a) × (id ≡ zone_id)
      → RouteAgrees e a zone_id z
  agreed e expected a zone_id id z g f (x, y) = (g ∙ ap some x, λ _. f ∙ ap some y)

  module _ (a : Action) (path : String) (zone_id : ℤ) (found : At path a zone_id) where
    not_at :
        (whole : String) (b : Action) → path ≡ whole → a ≡ b → match (route_of b) whole ≡ none → ⊥
    not_at whole b p e missed =
        let (f, m, _) = subst (λ x. At whole x zone_id) e (subst (λ x. At x a zone_id) p found) in
        some-ne-none (match (route_of b) whole) f missed m

    list_zones-agrees :
        (z : Option ℤ)
        → OfMethod get a
        → path ≡ "/dnszone"
        → RouteAgrees Endpoint.list_zones a zone_id z
    unfolding match strip_prefix
    list_zones-agrees z (inl e) p = (ap some (sym e), λ h. absurd (ground (arith, rw e at h)))
    list_zones-agrees z (inr (inl e)) p = absurd (not_at "/dnszone" Action.get_zone p e refl)
    list_zones-agrees z (inr (inr e)) p = absurd (not_at "/dnszone" Action.list_records p e refl)

    create_zone-none : OfMethod post a → path ≡ "/dnszone" → ⊥
    unfolding match strip_prefix
    create_zone-none (inl e) p = not_at "/dnszone" Action.add_record p e refl
    create_zone-none (inr e) p = not_at "/dnszone" Action.update_record p e refl

  module _ (r : HttpRequest) (q : Request) (d : IsDescribed r q) (p : Params) (z : Option ℤ)
      (route_path : String) (is_route : IsRoutePath unescape r.path route_path) where
    described : At r.path q.action q.zone_id
    described = (d.captures, d.path, d.zone)

    of_method : (m : Method) → r.method ≡ m → is_admin_only q.action ≡ false → OfMethod m q.action
    of_method m e s =
        subst (λ x. OfMethod x q.action) (sym d.method ∙ e) (OfMethod-method_of q.action s)

    admin_free : Path Bool true false → ⊥
    admin_free e = cc

    -- The path and what was found of it, for a route of a zone.
    zone_at :
        (raw : String) (id : ℤ)
        → parse_int p.zone_id ≡ some id
        → route_path ≡ "/dnszone/" ++ (p.zone_id ++ raw)
        → (tail : String) × At ("/dnszone/" ++ (p.zone_id ++ tail)) q.action q.zone_id
          × IsRoutePath unescape tail raw
    zone_at raw id read e =
        let (tail, f, k) =
          zone_path-path p.zone_id raw r.path id read
            (subst (IsRoutePath unescape r.path) e is_route) in
        (tail, subst (λ x. At x q.action q.zone_id) f described, k)

    -- Where chi's route for a request is not reserved for admins and its parameters are read as
    -- numbers, `ParseRequest`, which reads the decoded path by its own patterns, finds the action of
    -- that route, and the zone that the route's handler works on; for `create_zone` and
    -- `delete_zone`, which no token is granted, it finds no action of a token at all.
    pub route_for-agrees :
        (e : Endpoint)
        → is_admin_only q.action ≡ false
        → (route_for e).is_admin ≡ false
        → r.method ≡ (route_for e).method
        → route_path ≡ fill (route_for e).pattern p
        → IsRead (route_for e).pattern p z
        → RouteAgrees e q.action q.zone_id z
    route_for-agrees Endpoint.list_zones s free m path read =
        list_zones-agrees q.action r.path q.zone_id described z (of_method get m s)
          (literal-path "/dnszone" r.path refl (subst (IsRoutePath unescape r.path) path is_route))
    route_for-agrees Endpoint.create_zone s free m path read = absurd (
        create_zone-none q.action r.path q.zone_id described (of_method post m s)
          (literal-path "/dnszone" r.path refl (subst (IsRoutePath unescape r.path) path is_route)))
    route_for-agrees Endpoint.get_zone s free m path ((id, f, n), _) =
        let (tail, h, k) = zone_at "" id n path in
        let h' =
          subst (λ t. ZoneAt p.zone_id q.zone_id id n t q.action)
            (IsRoutePath-nil unescape keeps tail k) h in
        agreed Endpoint.get_zone Action.get_zone q.action q.zone_id id z refl f
          (get_zone-Agrees p.zone_id q.zone_id id n q.action (of_method get m s) h')
    route_for-agrees Endpoint.delete_zone s free m path ((id, f, n), _) =
        let (tail, h, k) = zone_at "" id n path in
        let h' =
          subst (λ t. ZoneAt p.zone_id q.zone_id id n t q.action)
            (IsRoutePath-nil unescape keeps tail k) h in
        absurd (delete_zone-none p.zone_id q.zone_id id n q.action (of_method delete m s) h')
    route_for-agrees Endpoint.list_records s free m path ((id, f, n), _) =
        let (tail, h, k) = zone_at "/records" id n path in
        let h' =
          subst (λ t. ZoneAt p.zone_id q.zone_id id n t q.action)
            (literal-path "/records" tail refl k) h in
        agreed Endpoint.list_records Action.list_records q.action q.zone_id id z refl f
          (list_records-Agrees p.zone_id q.zone_id id n q.action (of_method get m s) h')
    route_for-agrees Endpoint.add_record s free m path ((id, f, n), _) =
        let (tail, h, k) = zone_at "/records" id n path in
        let h' =
          subst (λ t. ZoneAt p.zone_id q.zone_id id n t q.action)
            (literal-path "/records" tail refl k) h in
        agreed Endpoint.add_record Action.add_record q.action q.zone_id id z refl f
          (add_record-Agrees p.zone_id q.zone_id id n q.action (of_method post m s) h')
    route_for-agrees Endpoint.update_record s free m path ((id, f, n), ((i, o), _)) =
        let (tail, h, k) = zone_at ("/records/" ++ (p.record_id ++ "")) id n path in
        let h' =
          subst (λ t. ZoneAt p.zone_id q.zone_id id n t q.action)
            (record-path p.record_id tail i o k) h in
        agreed Endpoint.update_record Action.update_record q.action q.zone_id id z refl f (
          update_record-Agrees p.zone_id q.zone_id id n p.record_id
            (IsNumber-nonempty p.record_id (parse_int-IsNumber p.record_id i o)) q.action
            (of_method post m s) h')
    route_for-agrees Endpoint.delete_record s free m path ((id, f, n), ((i, o), _)) =
        let (tail, h, k) = zone_at ("/records/" ++ (p.record_id ++ "")) id n path in
        let h' =
          subst (λ t. ZoneAt p.zone_id q.zone_id id n t q.action)
            (record-path p.record_id tail i o k) h in
        agreed Endpoint.delete_record Action.delete_record q.action q.zone_id id z refl f (
          delete_record-Agrees p.zone_id q.zone_id id n p.record_id
            (IsNumber-nonempty p.record_id (parse_int-IsNumber p.record_id i o)) q.action
            (of_method delete m s) h')
    route_for-agrees Endpoint.check_availability s free m path read = absurd (admin_free free)
    route_for-agrees Endpoint.import_records s free m path read = absurd (admin_free free)
    route_for-agrees Endpoint.export_records s free m path read = absurd (admin_free free)
    route_for-agrees Endpoint.enable_dnssec s free m path read = absurd (admin_free free)
    route_for-agrees Endpoint.disable_dnssec s free m path read = absurd (admin_free free)
    route_for-agrees Endpoint.issue_certificate s free m path read = absurd (admin_free free)
    route_for-agrees Endpoint.get_statistics s free m path read = absurd (admin_free free)
    route_for-agrees Endpoint.trigger_scan s free m path read = absurd (admin_free free)
    route_for-agrees Endpoint.update_zone s free m path read = absurd (admin_free free)
    route_for-agrees Endpoint.get_scan_result s free m path read = absurd (admin_free free)
