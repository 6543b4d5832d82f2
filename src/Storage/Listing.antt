-- ===== src/Storage/Listing.antt =====
-- What `ListTokens` and `GetPermissionsForToken` (internal/storage/tokens.go) return.
use mathlib.Core.List.{Perm}
use bunny_api_proxy.Base.{
  ℤ, ◌<◌, leb_ℤ, leb_ℤ_total, leb_ℤ_trans, ◌≡◌, ◌⊎◌, inl, inr, true, false, List, [], ◌∷◌, ltb,
  arith, select, All, All-mono, Bool-cases,
}
use bunny_api_proxy.Base.Sort.{order_by, order_by-perm, IsSorted, order_by-IsSorted}
use bunny_api_proxy.Storage.Types.{Token, Permission, ok}
use bunny_api_proxy.Storage.Db.{Db, works, next}
use bunny_api_proxy.Storage.Tokens.{newer, list_tokens}
use bunny_api_proxy.Storage.Permissions.{belongs_to, older, read_rows, get_permissions_for_token}

newer_total : (s t : Token) → newer s t ≡ false → newer t s ≡ true
newer_total s t h = ground (arith, leb_ℤ_total t.id s.id)

newer_trans : (s t u : Token) → newer s t ≡ true → newer t u ≡ true → newer s u ≡ true
newer_trans s t u h k = ground (arith, leb_ℤ_trans u.id t.id s.id)

-- The one token was created later, or at the same time with an id that is not smaller.
abbrev pub IsNewer : Token → Token → Type 0
IsNewer s t =
    (t.created_at < s.created_at) ⊎ ((s.created_at ≡ t.created_at) × (leb_ℤ t.id s.id ≡ true))

abbrev pub NewestFirst : List Token → Type 0
NewestFirst [] = Unit
NewestFirst (t ∷ ts) = All (IsNewer t) ts × NewestFirst ts

newer-IsNewer : (s t : Token) → newer s t ≡ true → IsNewer s t
newer-IsNewer s t h = elim (Bool-cases (ltb t.created_at s.created_at)) [
  | inl later ↦ inl (ground (arith, later))
  | inr other ↦ inr (ground (arith, h, other))
]

IsSorted-NewestFirst : (ts : List Token) → IsSorted newer ts → NewestFirst ts
IsSorted-NewestFirst [] h = tt
IsSorted-NewestFirst (t ∷ ts) (h, hs) =
    (All-mono _ _ ts (newer-IsNewer t) h, IsSorted-NewestFirst ts hs)

-- Where its query works, `ListTokens` returns the rows of the table, each once, in the order of their
-- times with the latest first, and those of one time by descending id.
pub list_tokens-NewestFirst :
    (db : Db)
    → next db ≡ works
    → (l : List Token) × ((list_tokens db).0 ≡ ok l) × Perm l db.tokens × NewestFirst l
unfolding list_tokens
list_tokens-NewestFirst db w = (
  order_by newer db.tokens,
  ground (arith, w),
  order_by-perm newer db.tokens,
  IsSorted-NewestFirst _ (order_by-IsSorted newer newer_total newer_trans db.tokens),
)

-- Where its query works, `GetPermissionsForToken` returns the rows of the token and no others, each
-- once and by ascending id, read without their time.
pub get_permissions_for_token-IsSorted :
    (id : ℤ) (db : Db)
    → next db ≡ works
    → (l : List Permission) × ((get_permissions_for_token id db).0 ≡ ok (read_rows l))
      × Perm l (select (belongs_to id) db.permissions)
      × IsSorted older l
unfolding get_permissions_for_token
get_permissions_for_token-IsSorted id db w = (
  order_by older (select (belongs_to id) db.permissions),
  ground (arith, w),
  order_by-perm older (select (belongs_to id) db.permissions),
  order_by-IsSorted older (λ p q. leb_ℤ_total p.id q.id) (λ p q r. leb_ℤ_trans p.id q.id r.id)
      (select (belongs_to id) db.permissions),
)
