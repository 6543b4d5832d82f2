-- ===== src/Admin/Server/LastAdmin/Counts.antt =====
-- How many admin tokens are left where the rows of one id go.
use bunny_api_proxy.Base.{
  ◌+◌, ◌≤◌, ◌<◌, ℤ, ==ℤ_iff, ◌≡◌, ◌≢◌, sym, subst, true, not, List, [], ◌∷◌, inl, inr, arith,
  Bool-cases, All, All-mono, Unique, select, count,
}
use bunny_api_proxy.Storage.Types.{Token}
use bunny_api_proxy.Storage.Db.{Db, advance}
use bunny_api_proxy.Storage.Tokens.{has_id, is_admin_token, delete_rows, delete_token}
use bunny_api_proxy.Storage.Valid.{IsValid, token_id}
use bunny_api_proxy.Storage.Valid.Keeps.{advance-IsValid, delete_token-IsValid}
use bunny_api_proxy.Storage.Leaves.{delete_token-leaves}

-- The rows of the admin tokens have other ids.
abbrev pub IsNoAdmin : ℤ → List Token → Type 0
IsNoAdmin id ts = All (λ t. t.is_admin ≡ true → t.id ≢ id) ts

-- The rows of the token are not an admin's: they go without an admin going.
pub count-select_scoped :
    (id : ℤ) (ts : List Token)
    → IsNoAdmin id ts
    → count is_admin_token (select (λ t. not (has_id id t)) ts) ≡ count is_admin_token ts
count-select_scoped id [] h = omega arith
count-select_scoped id (t ∷ ts) (n, h) =
    ground (arith, count-select_scoped id ts h, ==ℤ_iff t.id id, Bool-cases t.is_admin)

pub IsNoAdmin-of_head :
    (t : Token) (ts : List Token) → All (λ y. t.id ≢ y.id) ts → IsNoAdmin t.id ts
IsNoAdmin-of_head t ts d = All-mono _ _ ts (λ y n _ e. n (sym e)) d

-- One row has an id, so at most one admin goes.
pub count-select_one :
    (id : ℤ) (ts : List Token)
    → Unique token_id ts
    → count is_admin_token ts ≤ count is_admin_token (select (λ t. not (has_id id t)) ts) + 1
count-select_one id [] u = omega arith
count-select_one id (t ∷ ts) (d, u) = elim (Bool-cases (has_id id t)) [
  | inl e ↦
      let p : t.id ≡ id = ground (arith, ==ℤ_iff t.id id) in
      let same =
        count-select_scoped id ts (subst (λ i. IsNoAdmin i ts) p (IsNoAdmin-of_head t ts d)) in
      ground (arith, same)
  | inr e ↦ ground (arith, count-select_one id ts u)
]

-- A well-formed database that has an admin.
abbrev pub HasAdmin : Db → Type 0
HasAdmin db = IsValid db × (0 < count is_admin_token db.tokens)

pub advance-HasAdmin : (db : Db) → HasAdmin db → HasAdmin (advance db)
advance-HasAdmin db (v, n) = (advance-IsValid db v, n)

pub delete_token-HasAdmin :
    (id : ℤ) (db : Db)
    → HasAdmin db
    → 0 < count is_admin_token (select (λ t. not (has_id id t)) db.tokens)
    → HasAdmin (delete_token id db).1
unfolding delete_rows
delete_token-HasAdmin id db (v, n) left = (
  delete_token-IsValid db v id,
  delete_token-leaves (λ d. 0 < count is_admin_token d.tokens) db id n left,
)
