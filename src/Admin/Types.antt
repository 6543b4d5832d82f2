-- ===== src/Admin/Types.antt =====
-- The answers of internal/admin (errors.go and the response structs of api.go), and how a handler
-- goes on after an operation of the store. Logging is left out.
use bunny_api_proxy.Base.{ℕ, ℤ, String, Bool, List}
use bunny_api_proxy.Storage.Types.{
  Time, Permission, Error, err_not_found, err_duplicate, failed, Result, ok, err,
}
use bunny_api_proxy.Storage.Db.{Db, Op}

pub data Level : Type 0 where
  debug info warn error : Level

-- A time is formatted as RFC 3339 by the encoder; it stands as it is.
pub record TokenResponse : Type 0 where
  pub id : ℤ
  pub name : String
  pub is_admin : Bool
  pub created_at : Time

pub record WhoamiResponse : Type 0 where
  pub token_id : ℤ
  pub name : String
  pub is_admin : Bool
  pub is_master_key : Bool
  pub permissions : List Permission

pub record CreatedToken : Type 0 where
  pub id : ℤ
  pub name : String
  pub token : String
  pub is_admin : Bool

pub record PermissionResponse : Type 0 where
  pub id : ℤ
  pub zone_id : ℤ
  pub allowed_actions : List String
  pub record_types : List String

pub data Reply : Type 0 where
  -- http.Error
  plain : String → Reply
  -- WriteErrorWithHint: code, message and hint; WriteError has the empty hint
  api_error : (code message hint : String) → Reply
  level_set : Level → Reply
  whoami : WhoamiResponse → Reply
  tokens : List TokenResponse → Reply
  created : CreatedToken → Reply
  detail : TokenResponse → List Permission → Reply
  permission : PermissionResponse → Reply
  no_content : Reply

pub record Response : Type 0 where
  pub status : ℕ
  pub reply : Reply

abbrev pub respond : ℕ → Reply → Response
respond status reply = record { status = status; reply = reply }

abbrev pub write_error : ℕ → String → String → Response
write_error status code message = respond status (api_error code message "")

abbrev pub invalid_request : String → Response
invalid_request message = write_error 400 "invalid_request" message

abbrev pub internal_error : String → Response
internal_error message = write_error 500 "internal_error" message

abbrev pub Handler : Type 0
Handler = Db → Response × Db

-- `if err != nil { if errors.Is(err, storage.ErrNotFound) {…; return} …; return }`
abbrev pub not_found_or : (missing internal : String) → Error → Response
not_found_or missing internal err_not_found = write_error 404 "not_found" missing
not_found_or missing internal err_duplicate = internal_error internal
not_found_or missing internal failed = internal_error internal

abbrev pub finish {ℓ} : {A : Type ℓ} → Result A → (A → Handler) → (Error → Response) → Handler
finish (ok a) k refuse db = k a db
finish (err e) k refuse db = (refuse e, db)

-- An operation of the store, then the rest of the handler, or the answer to its error.
unfoldable pub call {ℓ} : {A : Type ℓ} → Op A → (A → Handler) → (Error → Response) → Handler
call op k refuse db = let (r, db') = op db in finish r k refuse db'
