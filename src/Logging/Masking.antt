-- ===== src/Logging/Masking.antt =====
-- internal/logging/masking.go. A JSON value is what the decoder makes of a body; a number is its text.
pub mod Laws
pub mod Places
use Prim.Native.String.{◌++◌, len, slice}
use bunny_api_proxy.Base.{
  ℕ, ◌-◌, String, ◌==◌, ◌≡◌, refl, ap, Bool, true, false, Bool-cases, inl, inr, ◌||◌, Option, none,
  some, List, [], ◌∷◌, any, ltb, ◌==ℕ◌, if◌then◌else◌,
}
use bunny_api_proxy.Bunny.Retry.{has_text}

mutual
  pub data Json : Type 0 where
    null : Json
    boolean : Bool → Json
    number text : String → Json
    array : Values → Json
    object : Fields → Json

  pub data Values : Type 0 where
    no_value : Values
    value : Json → Values → Values

  pub data Fields : Type 0 where
    no_field : Fields
    field : (key : String) → Json → Fields → Fields

abbrev pub redacted : Json
redacted = text "[REDACTED]"

-- A value under a key that is not listed, which is masked already if it is an object or an array.
abbrev pub mask_unlisted : (val masked : Json) → Json
mask_unlisted (object fields) masked = masked
mask_unlisted (array values) masked = masked
mask_unlisted null masked = redacted
mask_unlisted (boolean b) masked = redacted
mask_unlisted (number n) masked = redacted
mask_unlisted (text t) masked = redacted

abbrev pub is_listed : List String → String → Bool
is_listed allowlist key = any (λ name. name == key) allowlist

unfoldable mutual
  pub mask_json_value : List String → Json → Json
  mask_json_value allowlist (object fields) = object (mask_fields allowlist fields)
  mask_json_value allowlist (array values) = array (mask_values allowlist values)
  mask_json_value allowlist null = null
  mask_json_value allowlist (boolean b) = boolean b
  mask_json_value allowlist (number n) = number n
  mask_json_value allowlist (text t) = text t

  pub mask_values : List String → Values → Values
  mask_values allowlist no_value = no_value
  mask_values allowlist (value v values) =
      value (mask_json_value allowlist v) (mask_values allowlist values)

  pub mask_fields : List String → Fields → Fields
  mask_fields allowlist no_field = no_field
  mask_fields allowlist (field key val fields) =
      let masked = mask_json_value allowlist val in
      field key (if is_listed allowlist key then masked else mask_unlisted val masked)
        (mask_fields allowlist fields)

-- MaskJSONBody; `none` is a nil allowlist, a failing decoder, and a failing encoder.
unfoldable pub mask_json_body :
    (decode : String → Option Json)
    → (encode : Json → Option String) → (body : String) → Option (List String)
    → String
mask_json_body decode encode body none = body
mask_json_body decode encode body (some allowlist) =
    if len body ==ℕ 0 then body else elim (decode body) [
      | none ↦ body
      | some decoded ↦ elim (encode (mask_json_value allowlist decoded)) [
        | none ↦ body
        | some result ↦ result
      ]
    ]

-- MaskHeader; `to_lower` is strings.ToLower, and a value is taken to be ASCII.
unfoldable pub mask_header : (to_lower : String → String) → (name content : String) → String
mask_header to_lower name content =
    let lower_name = to_lower name in
    if has_text lower_name "password"
      || has_text lower_name "secret"
      || has_text lower_name "private-key"
    then "[REDACTED]"
    else if lower_name == "authorization"
        || lower_name == "accesskey"
        || lower_name == "x-api-key"
        || lower_name == "x-access-key"
    then if ltb (len content) 4
      then "****"
      else "****" ++ slice content (len content - 4) (len content)
    else content
