-- ===== src/Logging/Masking/Places.antt =====
-- What masking (internal/logging/masking.go) shows at each place of a JSON value.
use bunny_api_proxy.Base.{
  ℕ, zero, suc, String, ◌≡◌, refl, ap, Bool-cases, inl, inr, Option, none, some, if-elim, List, [],
  ◌∷◌, if◌then◌else◌,
}
use bunny_api_proxy.Logging.Masking.{
  Json, null, boolean, number, text, array, object, Values, no_value, value, Fields, no_field,
  field, is_listed, mask_unlisted, mask_json_value, mask_values, mask_fields,
}
use bunny_api_proxy.Logging.Masking.Laws.{mask_json_value-IsMasked}

-- What stands at a place: a primitive, an object with these keys, or an array of this length.
pub data Node : Type 0 where
  primitive : Json → Node
  members : List String → Node
  elements : ℕ → Node

abbrev pub keys : Fields → List String
keys no_field = []
keys (field key v fields) = key ∷ keys fields

abbrev pub size : Values → ℕ
size no_value = 0
size (value v values) = suc (size values)

-- A place is given by positions, from the outside in. With what stands there comes the key of the
-- field whose value it is, `none` for an element of an array and for the whole.
abbrev mutual
  pub node : Option String → Json → List ℕ → Option (Option String × Node)
  node key (object fields) [] = some (key, members (keys fields))
  node key (array values) [] = some (key, elements (size values))
  node key null [] = some (key, primitive null)
  node key (boolean b) [] = some (key, primitive (boolean b))
  node key (number n) [] = some (key, primitive (number n))
  node key (text t) [] = some (key, primitive (text t))
  node key (object fields) (n ∷ place) = field_node fields n place
  node key (array values) (n ∷ place) = value_node values n place
  node key null (n ∷ place) = none
  node key (boolean b) (n ∷ place) = none
  node key (number m) (n ∷ place) = none
  node key (text t) (n ∷ place) = none

  pub field_node : Fields → ℕ → List ℕ → Option (Option String × Node)
  field_node no_field n place = none
  field_node (field key v fields) zero place = node (some key) v place
  field_node (field key v fields) (suc n) place = field_node fields n place

  pub value_node : Values → ℕ → List ℕ → Option (Option String × Node)
  value_node no_value n place = none
  value_node (value v values) zero place = node none v place
  value_node (value v values) (suc n) place = value_node values n place

-- A primitive that is the value of a field is shown if the allowlist has the key. All else is shown.
abbrev pub shown : List String → Option String × Node → Option String × Node
shown allowlist (some key, primitive v) =
    (some key, primitive (if is_listed allowlist key then v else text "[REDACTED]"))
shown allowlist (none, primitive v) = (none, primitive v)
shown allowlist (key, members names) = (key, members names)
shown allowlist (key, elements n) = (key, elements n)

abbrev pub shown_at : List String → Option (Option String × Node) → Option (Option String × Node)
shown_at allowlist none = none
shown_at allowlist (some x) = some (shown allowlist x)

module _ (allowlist : List String) where
  keys-mask_fields : (fields : Fields) → keys (mask_fields allowlist fields) ≡ keys fields
  unfolding mask_json_value
  keys-mask_fields no_field = refl
  keys-mask_fields (field key v fields) = ap (λ l. key ∷ l) (keys-mask_fields fields)

  size-mask_values : (values : Values) → size (mask_values allowlist values) ≡ size values
  unfolding mask_json_value
  size-mask_values no_value = refl
  size-mask_values (value v values) = ap suc (size-mask_values values)

  -- The value of a field, and an element or the whole.
  abbrev Shows : Option String → Json → Json → Type 0
  Shows key v masked =
      (place : List ℕ) → node key masked place ≡ shown_at allowlist (node key v place)

  mutual
    unfolding mask_json_value

    whole_node : (v : Json) → Shows none v (mask_json_value allowlist v)
    whole_node (object fields) [] = ap (λ l. some (none, members l)) (keys-mask_fields fields)
    whole_node (array values) [] = ap (λ n. some (none, elements n)) (size-mask_values values)
    whole_node null [] = refl
    whole_node (boolean b) [] = refl
    whole_node (number n) [] = refl
    whole_node (text t) [] = refl
    whole_node (object fields) (n ∷ place) = fields_node fields n place
    whole_node (array values) (n ∷ place) = values_node values n place
    whole_node null (n ∷ place) = refl
    whole_node (boolean b) (n ∷ place) = refl
    whole_node (number m) (n ∷ place) = refl
    whole_node (text t) (n ∷ place) = refl

    kept_node :
        (key : String) (v : Json)
        → Shows (some key) v (
            if is_listed allowlist key
            then mask_json_value allowlist v
            else mask_unlisted v (mask_json_value allowlist v))
    kept_node key (object fields) [] =
        if-elim
          (λ x. node (some key) x [] ≡ shown_at allowlist (node (some key) (object fields) []))
          (is_listed allowlist key) (object (mask_fields allowlist fields))
          (object (mask_fields allowlist fields))
          (λ e. ap (λ l. some (some key, members l)) (keys-mask_fields fields))
          (λ e. ap (λ l. some (some key, members l)) (keys-mask_fields fields))
    kept_node key (object fields) (n ∷ place) =
        if-elim
          (λ x.
            node (some key) x (n ∷ place)
            ≡ shown_at allowlist (node (some key) (object fields) (n ∷ place)))
          (is_listed allowlist key) (object (mask_fields allowlist fields))
          (object (mask_fields allowlist fields)) (λ e. fields_node fields n place)
          (λ e. fields_node fields n place)
    kept_node key (array values) [] =
        if-elim (λ x. node (some key) x [] ≡ shown_at allowlist (node (some key) (array values) []))
          (is_listed allowlist key) (array (mask_values allowlist values))
          (array (mask_values allowlist values))
          (λ e. ap (λ n. some (some key, elements n)) (size-mask_values values))
          (λ e. ap (λ n. some (some key, elements n)) (size-mask_values values))
    kept_node key (array values) (n ∷ place) =
        if-elim
          (λ x.
            node (some key) x (n ∷ place)
            ≡ shown_at allowlist (node (some key) (array values) (n ∷ place)))
          (is_listed allowlist key) (array (mask_values allowlist values))
          (array (mask_values allowlist values)) (λ e. values_node values n place)
          (λ e. values_node values n place)
    kept_node key null [] = elim (Bool-cases (is_listed allowlist key)) [
      | inl e ↦ rw e refl
      | inr e ↦ rw e refl
    ]
    kept_node key null (n ∷ place) = elim (Bool-cases (is_listed allowlist key)) [
      | inl e ↦ rw e refl
      | inr e ↦ rw e refl
    ]
    kept_node key (boolean b) [] = elim (Bool-cases (is_listed allowlist key)) [
      | inl e ↦ rw e refl
      | inr e ↦ rw e refl
    ]
    kept_node key (boolean b) (n ∷ place) = elim (Bool-cases (is_listed allowlist key)) [
      | inl e ↦ rw e refl
      | inr e ↦ rw e refl
    ]
    kept_node key (number m) [] = elim (Bool-cases (is_listed allowlist key)) [
      | inl e ↦ rw e refl
      | inr e ↦ rw e refl
    ]
    kept_node key (number m) (n ∷ place) = elim (Bool-cases (is_listed allowlist key)) [
      | inl e ↦ rw e refl
      | inr e ↦ rw e refl
    ]
    kept_node key (text t) [] = elim (Bool-cases (is_listed allowlist key)) [
      | inl e ↦ rw e refl
      | inr e ↦ rw e refl
    ]
    kept_node key (text t) (n ∷ place) = elim (Bool-cases (is_listed allowlist key)) [
      | inl e ↦ rw e refl
      | inr e ↦ rw e refl
    ]

    fields_node :
        (fields : Fields) (n : ℕ) (place : List ℕ)
        → field_node (mask_fields allowlist fields) n place
          ≡ shown_at allowlist (field_node fields n place)
    fields_node no_field n place = refl
    fields_node (field key v fields) zero place = kept_node key v place
    fields_node (field key v fields) (suc n) place = fields_node fields n place

    values_node :
        (values : Values) (n : ℕ) (place : List ℕ)
        → value_node (mask_values allowlist values) n place
          ≡ shown_at allowlist (value_node values n place)
    values_node no_value n place = refl
    values_node (value v values) zero place = whole_node v place
    values_node (value v values) (suc n) place = values_node values n place

-- Masking keeps the shape of a value, with all keys in their order and the lengths of arrays, and shows
-- at each place what was there, except for a primitive that is the value of a field whose key is not on
-- the allowlist: there stands "[REDACTED]". A primitive in an array, or one that is the whole value, is
-- shown as it is. What is masked already does not change.
pub mask_json_value-shows :
    (allowlist : List String) (v : Json)
    → ((place : List ℕ)
        → node none (mask_json_value allowlist v) place ≡ shown_at allowlist (node none v place))
      × (mask_json_value allowlist (mask_json_value allowlist v) ≡ mask_json_value allowlist v)
mask_json_value-shows allowlist v =
    (whole_node allowlist v, (mask_json_value-IsMasked allowlist v).2)
