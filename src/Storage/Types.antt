-- ===== src/Storage/Types.antt =====
-- internal/storage/types.go and errors.go, and what an operation of the store returns.
use bunny_api_proxy.Base.{ℕ, ℤ, String, Bool, List, ◌≡◌, refl, ◌⊎◌, inl, inr}

-- A time is a number of seconds; 0 is Go's zero time.
abbrev pub Time : Type 0
Time = ℕ

pub record Token : Type 0 where
  pub id : ℤ
  pub key_hash : String
  pub name : String
  pub is_admin : Bool
  pub created_at : Time

pub record Permission : Type 0 where
  pub id : ℤ
  pub token_id : ℤ
  pub zone_id : ℤ
  pub allowed_actions : List String
  pub record_types : List String
  pub created_at : Time

-- `failed` is every error that callers cannot tell from another: the wrapped errors of the
-- driver and the three validation errors of `AddPermissionForToken`.
pub data Error : Type 0 where
  err_not_found err_duplicate failed : Error

pub data Result {ℓ} (A : Type ℓ) : Type ℓ where
  ok : A → Result A
  err : Error → Result A

pub Result-cases {ℓ} :
    {A : Type ℓ} (r : Result A) → ((a : A) × (r ≡ ok a)) ⊎ ((e : Error) × (r ≡ err e))
Result-cases (ok a) = inl (a, refl)
Result-cases (err e) = inr (e, refl)
