-- ===== src/Auth/Middleware/Revoked.antt =====
-- The key of a token that has been deleted.
use bunny_api_proxy.Base.{
  ℤ, ==ℤ_iff, String, ◌≡◌, ◌≢◌, refl, ap, ◌∙◌, subst, not, List, arith, Member, Member-select,
  Unique, Unique-eq, select, inl, inr, Bool-cases, any,
}
use bunny_api_proxy.Storage.Types.{Token, ok}
use bunny_api_proxy.Storage.Db.{Db, works, next, Outcome-cases}
use bunny_api_proxy.Storage.Db
use bunny_api_proxy.Storage.Tokens.{has_id, delete_rows, delete_token}
use bunny_api_proxy.Storage.Valid.{IsValid, token_hash}
use bunny_api_proxy.Auth.Types.{HttpRequest}
use bunny_api_proxy.Auth.Context.{Context, background}
use bunny_api_proxy.Auth.Bootstrap.{BootstrapService}
use bunny_api_proxy.Auth.Middleware.{Step, extract_access_key, authenticate}
use bunny_api_proxy.Auth.Middleware
use bunny_api_proxy.Auth.Middleware.Laws.{
  Admitted, by_master, by_admin, by_scoped, master_context, authenticate_sound,
}

-- The row that is left has another hash.
select-other_hash :
    (t u : Token) (ts : List Token)
    → Unique token_hash ts
    → Member t ts
    → Member u (select (λ x. not (has_id t.id x)) ts)
    → u.key_hash ≢ t.key_hash
select-other_hash t u ts unique m n e =
    let (k, other) = Member-select (λ x. not (has_id t.id x)) ts u n in
    let same : u ≡ t = Unique-eq token_hash ts u t unique k m e in
    ground (arith, ==ℤ_iff u.id t.id, ap (λ (x : Token). x.id) same)

delete_token-rows :
    (id : ℤ) (db : Db)
    → (delete_token id db).0 ≡ ok tt
    → (delete_token id db).1.tokens ≡ select (λ x. not (has_id id x)) db.tokens
unfolding delete_token delete_rows
delete_token-rows id db e = elim (Outcome-cases (Db.next db)) [
  | inl o ↦ elim (Bool-cases (any (has_id id) db.tokens)) [
    | inl b ↦ rw (o, b, delete_token) refl
    | inr b ↦ rw (o, b, delete_token) refl
  ]
  | inr (inl o) ↦ absurd (ground (arith, o))
  | inr (inr o) ↦ absurd (ground (arith, o))
]

-- Once `DeleteToken` has deleted a token of a well-formed database, a request with the token's key
-- passes `Authenticate` only as the master key, whose hash the key then has.
pub delete_token-revokes :
    (hash : String → String) (b : BootstrapService) (t : Token) (db : Db) (r : HttpRequest)
    (ctx : Context)
    → IsValid db
    → Member t db.tokens
    → (delete_token t.id db).0 ≡ ok tt
    → hash (extract_access_key r) ≡ t.key_hash
    → (authenticate hash b r background (delete_token t.id db).1).0 ≡ Middleware.next ctx
    → (ctx ≡ master_context) × (hash (extract_access_key r) ≡ b.master_key_hash)
delete_token-revokes hash b t db r ctx v m deleted key e =
    revoked (authenticate_sound hash b r (delete_token t.id db).1 ctx e)
  where
    gone : (u : Token) → Member u (delete_token t.id db).1.tokens → u.key_hash ≢ t.key_hash
    gone u n =
        select-other_hash t u db.tokens v.hashes m
          (subst (λ (l : List Token). Member u l) (delete_token-rows t.id db deleted) n)

    revoked :
        Admitted hash b (extract_access_key r) (delete_token t.id db).1 ctx
        → (ctx ≡ master_context) × (hash (extract_access_key r) ≡ b.master_key_hash)
    revoked (by_master h n c) = (c, h)
    revoked (by_admin u n h a c) = absurd (gone u n (h ∙ key))
    revoked (by_scoped u n h a c) = absurd (gone u n (h ∙ key))
