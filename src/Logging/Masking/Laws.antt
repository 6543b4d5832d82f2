-- ===== src/Logging/Masking/Laws.antt =====
-- What masking (internal/logging/masking.go) leaves of a JSON value.
use bunny_api_proxy.Base.{
  String, ◌≡◌, ◌⊎◌, ◌↔◌, refl, sym, ap, subst, if-elim, true, Bool-cases, inl, inr, List, [], ◌∷◌,
  if◌then◌else◌,
}
use bunny_api_proxy.Logging.Masking.{
  Json, null, boolean, number, text, array, object, Values, no_value, value, Fields, no_field,
  field, mask_unlisted, is_listed, mask_json_value, mask_values, mask_fields,
}

-- Objects and arrays stay, a primitive is redacted.
abbrev pub HidesValue : Json → Type 0
HidesValue (object fields) = Unit
HidesValue (array values) = Unit
HidesValue (text t) = t ≡ "[REDACTED]"
HidesValue null = ⊥
HidesValue (boolean b) = ⊥
HidesValue (number n) = ⊥

-- Every field of every object inside is listed, or hides its value.
abbrev mutual
  pub IsMasked : List String → Json → Type 0
  IsMasked allowlist (object fields) = AreMasked allowlist fields
  IsMasked allowlist (array values) = HoldsMasked allowlist values
  IsMasked allowlist null = Unit
  IsMasked allowlist (boolean b) = Unit
  IsMasked allowlist (number n) = Unit
  IsMasked allowlist (text t) = Unit

  pub HoldsMasked : List String → Values → Type 0
  HoldsMasked allowlist no_value = Unit
  HoldsMasked allowlist (value v values) = IsMasked allowlist v × HoldsMasked allowlist values

  pub AreMasked : List String → Fields → Type 0
  AreMasked allowlist no_field = Unit
  AreMasked allowlist (field key v fields) =
      ((is_listed allowlist key ≡ true) ⊎ HidesValue v)
      × IsMasked allowlist v
      × AreMasked allowlist fields

module _ (allowlist : List String) where
  field-IsMasked :
      (key : String) (v : Json)
      → IsMasked allowlist (mask_json_value allowlist v)
      → let shown =
          if is_listed allowlist key
          then mask_json_value allowlist v
          else mask_unlisted v (mask_json_value allowlist v) in
        ((is_listed allowlist key ≡ true) ⊎ HidesValue shown) × IsMasked allowlist shown
  unfolding mask_json_value
  field-IsMasked key v h = elim (Bool-cases (is_listed allowlist key)) [
    | inl e ↦ rw e (inl refl, h)
    | inr e ↦ rw e (inr (hidden v), unlisted v h)
  ]
    where
      hidden : (v : Json) → HidesValue (mask_unlisted v (mask_json_value allowlist v))
      hidden null = refl
      hidden (boolean b) = refl
      hidden (number n) = refl
      hidden (text t) = refl
      hidden (array values) = tt
      hidden (object fields) = tt

      unlisted :
          (v : Json)
          → IsMasked allowlist (mask_json_value allowlist v)
          → IsMasked allowlist (mask_unlisted v (mask_json_value allowlist v))
      unlisted null h = tt
      unlisted (boolean b) h = tt
      unlisted (number n) h = tt
      unlisted (text t) h = tt
      unlisted (array values) h = h
      unlisted (object fields) h = h

  mutual
    unfolding mask_json_value

    mask-IsMasked : (v : Json) → IsMasked allowlist (mask_json_value allowlist v)
    mask-IsMasked (object fields) = mask-AreMasked fields
    mask-IsMasked (array values) = mask-HoldsMasked values
    mask-IsMasked null = tt
    mask-IsMasked (boolean b) = tt
    mask-IsMasked (number n) = tt
    mask-IsMasked (text t) = tt

    mask-HoldsMasked : (values : Values) → HoldsMasked allowlist (mask_values allowlist values)
    mask-HoldsMasked no_value = tt
    mask-HoldsMasked (value v values) = (mask-IsMasked v, mask-HoldsMasked values)

    mask-AreMasked : (fields : Fields) → AreMasked allowlist (mask_fields allowlist fields)
    mask-AreMasked no_field = tt
    mask-AreMasked (field key v fields) =
        let (shown, inside) = field-IsMasked key v (mask-IsMasked v) in
        (shown, inside, mask-AreMasked fields)

  -- A value that is masked already stays as it is.
  field_fixed :
      (key : String) (v masked : Json)
      → (is_listed allowlist key ≡ true) ⊎ HidesValue v
      → masked ≡ v
      → (if is_listed allowlist key then masked else mask_unlisted v masked) ≡ v
  field_fixed key v masked (inl e) h = rw e h
  field_fixed key v masked (inr hides) h =
      if-elim (λ x. x ≡ v) (is_listed allowlist key) masked (mask_unlisted v masked) (λ e. h)
        (λ e. kept v hides h)
    where
      kept : (v : Json) → HidesValue v → masked ≡ v → mask_unlisted v masked ≡ v
      kept (object fields) hides h = h
      kept (array values) hides h = h
      kept (text t) hides h = ap text (sym hides)
      kept null hides h = absurd hides
      kept (boolean b) hides h = absurd hides
      kept (number n) hides h = absurd hides

  mutual
    unfolding mask_json_value

    mask_fixed : (v : Json) → IsMasked allowlist v → mask_json_value allowlist v ≡ v
    mask_fixed (object fields) h = ap object (fields_fixed fields h)
    mask_fixed (array values) h = ap array (values_fixed values h)
    mask_fixed null h = refl
    mask_fixed (boolean b) h = refl
    mask_fixed (number n) h = refl
    mask_fixed (text t) h = refl

    values_fixed :
        (values : Values) → HoldsMasked allowlist values → mask_values allowlist values ≡ values
    values_fixed no_value h = refl
    values_fixed (value v values) (h, hs) = rw (mask_fixed v h, values_fixed values hs) refl

    fields_fixed :
        (fields : Fields) → AreMasked allowlist fields → mask_fields allowlist fields ≡ fields
    fields_fixed no_field h = refl
    fields_fixed (field key v fields) (shown, h, hs) =
        rw
          (
            field_fixed key v (mask_json_value allowlist v) shown (mask_fixed v h),
            fields_fixed fields hs,
          )
          refl

-- In the masked value each primitive that is the value of a field of an object is redacted or its key is
-- on the allowlist, and masking leaves exactly those values as they are of which this holds already.
pub mask_json_value-IsMasked :
    (allowlist : List String) (v : Json)
    → IsMasked allowlist (mask_json_value allowlist v)
      × (IsMasked allowlist v ↔ (mask_json_value allowlist v ≡ v))
      × (mask_json_value allowlist (mask_json_value allowlist v) ≡ mask_json_value allowlist v)
mask_json_value-IsMasked allowlist v = (
  mask-IsMasked allowlist v,
  (mask_fixed allowlist v, λ e. subst (IsMasked allowlist) e (mask-IsMasked allowlist v)),
  mask_fixed allowlist (mask_json_value allowlist v) (mask-IsMasked allowlist v),
)

abbrev pub texts : List String → Values
texts [] = no_value
texts (t ∷ ts) = value (text t) (texts ts)

texts_fixed : (allowlist ts : List String) → mask_values allowlist (texts ts) ≡ texts ts
unfolding mask_json_value
texts_fixed allowlist [] = refl
texts_fixed allowlist (t ∷ ts) = ap (value (text t)) (texts_fixed allowlist ts)

-- A list of texts in a field is left as it is, on the allowlist or not.
pub mask_json_value-texts :
    (allowlist ts : List String) (key : String)
    → let secrets = object (field key (array (texts ts)) no_field) in
      mask_json_value allowlist secrets ≡ secrets
unfolding mask_json_value
mask_json_value-texts allowlist ts key =
    ap (λ (v : Json). object (field key v no_field))
      (if-elim (λ x. x ≡ array (texts ts)) (is_listed allowlist key)
        (array (mask_values allowlist (texts ts))) (array (mask_values allowlist (texts ts)))
        (λ e. ap array (texts_fixed allowlist ts)) (λ e. ap array (texts_fixed allowlist ts)))
