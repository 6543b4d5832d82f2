-- ===== src/Auth/Bootstrap.antt =====
-- internal/auth/bootstrap.go: whether the master key may be used. SHA-256 followed by the hex
-- encoding is the parameter `hash`.
use bunny_api_proxy.Base.{String, ◌==◌, Bool, true, false, if◌then◌else◌}
use bunny_api_proxy.Storage.Types.{ok, err}
use bunny_api_proxy.Storage.Db.{Op}
use bunny_api_proxy.Storage.Tokens.{has_any_admin_token}

pub data BootstrapState : Type 0 where
  unconfigured configured : BootstrapState

-- BootstrapState.String
abbrev pub state_string : BootstrapState → String
state_string unconfigured = "UNCONFIGURED"
state_string configured = "CONFIGURED"

abbrev pub state_of : Bool → BootstrapState
state_of true = configured
state_of false = unconfigured

-- On an error the state that is returned beside it is never read.
unfoldable pub get_state : Op BootstrapState
get_state db =
    let (r, db') = has_any_admin_token db in
    (elim r [ ok has_admin ↦ ok (state_of has_admin) | err e ↦ err e ], db')

abbrev pub is_unconfigured : BootstrapState → Bool
is_unconfigured unconfigured = true
is_unconfigured configured = false

unfoldable pub can_use_master_key : Op Bool
unfolding get_state
can_use_master_key db =
    let (r, db') = get_state db in
    (elim r [ ok state ↦ ok (is_unconfigured state) | err e ↦ err e ], db')

-- The service keeps the hash of the master key alone.
pub record BootstrapService : Type 0 where
  pub master_key_hash : String

module _ (hash : String → String) where
  abbrev pub new_bootstrap_service : String → BootstrapService
  new_bootstrap_service master_key = record { master_key_hash = hash master_key }

  -- ConstantTimeCompare(a, b) == 1 says that the texts are equal.
  abbrev pub is_master_key : BootstrapService → String → Bool
  is_master_key b key = hash key == b.master_key_hash

  unfoldable pub validate_master_key : BootstrapService → String → Op Bool
  unfolding can_use_master_key
  validate_master_key b key db =
      if is_master_key b key then can_use_master_key db else (ok false, db)
