-- ===== src/Admin/Create.antt =====
-- internal/admin/api.go: `HandleCreateUnifiedToken` and `generateRandomKey`.
pub mod Zones
pub mod Atomic
pub mod Usable
use bunny_api_proxy.Base.{
  ℕ, zero, suc, ◌/◌, ◌%◌, ℤ, String, ◌==◌, Bool, not, Option, none, some, List, [], ◌∷◌,
  if◌then◌else◌,
}
use Prim.Native.String
use bunny_api_proxy.Storage.Types.{
  Token, Error, err_not_found, err_duplicate, failed, Result, ok, err,
}
use bunny_api_proxy.Storage.Db.{Op}
use bunny_api_proxy.Storage.Tokens.{create_token, delete_token}
use bunny_api_proxy.Storage.Permissions.{is_empty, add_permission_for_token}
use bunny_api_proxy.Auth.Context.{Context, is_admin_from_context}
use bunny_api_proxy.Auth.Bootstrap.{
  BootstrapService, BootstrapState, unconfigured, configured, get_state,
}
use bunny_api_proxy.Admin.Types.{
  api_error, created, Response, respond, write_error, invalid_request, internal_error, Handler,
  call,
}
use bunny_api_proxy.Admin.Handlers.{permission_of}

pub record CreateTokenRequest : Type 0 where
  pub name : String
  pub is_admin : Bool
  pub zones : List ℤ
  pub actions : List String
  pub record_types : List String

abbrev pub hex_digits : List String
hex_digits =
    "0" ∷ "1" ∷ "2" ∷ "3" ∷ "4" ∷ "5" ∷ "6" ∷ "7" ∷ "8" ∷ "9" ∷ "a" ∷ "b" ∷ "c" ∷ "d" ∷ "e" ∷ "f"
    ∷ []

abbrev pub nth_text : List String → ℕ → String
nth_text [] i = ""
nth_text (s ∷ ss) zero = s
nth_text (s ∷ ss) (suc i) = nth_text ss i

-- hex.EncodeToString
unfoldable pub hex_encode : List ℕ → String
hex_encode [] = ""
hex_encode (b ∷ bs) =
    String.◌++◌ (nth_text hex_digits (b / 16))
      (String.◌++◌ (nth_text hex_digits (b % 16)) (hex_encode bs))

abbrev pub first_must_be_admin : Response
first_must_be_admin = respond 422 (
    api_error "no_admin_token_exists" "No admin token exists. Create an admin token first."
      "During bootstrap, you must create an admin token (is_admin: true) first.")

-- The permissions of a new scoped token, one for each zone, until one is refused.
unfoldable pub add_zones : ℤ → CreateTokenRequest → List ℤ → Op (Unit {0})
add_zones token_id req [] db = (ok tt, db)
add_zones token_id req (zone_id ∷ zones) db =
    let (r, db') =
      add_permission_for_token token_id (permission_of zone_id req.actions req.record_types) db in
    let rest = add_zones token_id req zones db' in elim r [ ok p ↦ rest | err e ↦ (err e, db') ]

abbrev pub created_response : CreateTokenRequest → String → Token → Response
created_response req plain_token t =
    respond 201 (
      created (record { id = t.id; name = req.name; token = plain_token; is_admin = req.is_admin }))

-- The token is deleted if a permission was refused; an error of that deletion is only logged.
abbrev pub after_zones : CreateTokenRequest → String → Token → Result (Unit {0}) → Handler
after_zones req plain_token t (ok _) db = (created_response req plain_token t, db)
after_zones req plain_token t (err e) db =
    let (_, db') = delete_token t.id db in (internal_error "Failed to add permissions", db')

-- `Zones` is not empty here where the token is scoped.
abbrev pub after_create : CreateTokenRequest → String → Token → Handler
after_create req plain_token t db =
    let (r, db') = add_zones t.id req req.zones db in
    if req.is_admin
    then (created_response req plain_token t, db)
    else if is_empty req.zones
    then (created_response req plain_token t, db)
    else after_zones req plain_token t r db'

abbrev pub create_refused : Error → Response
create_refused err_duplicate = respond 409 (
    api_error "duplicate_token" "A token with this hash already exists"
      "Try creating the token again.")
create_refused err_not_found = internal_error "Failed to create token"
create_refused failed = internal_error "Failed to create token"

module _ (hash : String → String) where
  -- `random` is what `rand.Read` fills its 32 bytes with; `none` is its error.
  abbrev pub generate : Option (List ℕ) → CreateTokenRequest → Handler
  generate none req db = (internal_error "Failed to generate token", db)
  generate (some random) req db =
      let plain_token = hex_encode random in
      call (create_token req.name req.is_admin (hash plain_token)) (after_create req plain_token)
        create_refused db

  -- The validation of a scoped token.
  abbrev pub validate_scoped : Option (List ℕ) → CreateTokenRequest → Handler
  validate_scoped random req db =
      if req.is_admin
      then generate random req db
      else if is_empty req.zones
      then (invalid_request "Scoped tokens require at least one zone", db)
      else if is_empty req.actions
      then (invalid_request "Scoped tokens require at least one action", db)
      else if is_empty req.record_types
      then (invalid_request "Scoped tokens require at least one record type", db)
      else generate random req db

  abbrev pub in_state : Option (List ℕ) → Context → CreateTokenRequest → BootstrapState → Handler
  in_state random ctx req unconfigured db =
      if not req.is_admin then (first_must_be_admin, db) else validate_scoped random req db
  in_state random ctx req configured db =
      if not (is_admin_from_context ctx)
      then (write_error 403 "admin_required" "Admin token required to manage tokens", db)
      else validate_scoped random req db

  abbrev pub check_state :
      Option BootstrapService → Option (List ℕ) → Context → CreateTokenRequest → Handler
  check_state none random ctx req = validate_scoped random req
  check_state (some b) random ctx req =
      call get_state (in_state random ctx req)
        (λ _. internal_error "Failed to check bootstrap state")

  unfoldable pub handle_create_unified_token :
      Option BootstrapService → Option (List ℕ) → Context → Option CreateTokenRequest → Handler
  handle_create_unified_token bootstrap random ctx none db =
      (invalid_request "Invalid JSON in request body", db)
  handle_create_unified_token bootstrap random ctx (some req) db =
      if req.name == ""
      then (invalid_request "Token name is required", db)
      else check_state bootstrap random ctx req db
