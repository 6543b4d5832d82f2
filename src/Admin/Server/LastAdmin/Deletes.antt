-- ===== src/Admin/Server/LastAdmin/Deletes.antt =====
-- The admin tokens after `HandleDeleteUnifiedToken` (internal/admin/api.go).
use bunny_api_proxy.Base.{
  ℕ, ◌<◌, ℤ, ==ℤ_iff, ◌≡◌, sym, subst, String, false, not, some, List, [], ◌∷◌, inl, inr, arith,
  Bool-cases, Option-cases, leb, Unique, select, count, find,
}
use bunny_api_proxy.Storage.Types.{Token, ok}
use bunny_api_proxy.Storage.Db.{Db, Outcome-cases, next}
use bunny_api_proxy.Storage.Tokens.{
  has_id, is_admin_token, get_token_by_id, count_admin_tokens, delete_token,
}
use bunny_api_proxy.Storage.Reads.{get_token_by_id-reads, count_admin_tokens-reads}
use bunny_api_proxy.Storage.Valid.{token_id}
use bunny_api_proxy.Admin.Handlers.{
  handle_delete_unified_token, delete_checked, delete_counted, delete_found,
}
use bunny_api_proxy.Admin.Server.Keeps.{call-keeps, if-keeps, with_id-keeps}
use bunny_api_proxy.Admin.Server.LastAdmin.Counts.{
  IsNoAdmin, count-select_scoped, IsNoAdmin-of_head, count-select_one, HasAdmin, advance-HasAdmin,
  delete_token-HasAdmin,
}

delete_found-HasAdmin :
    (id : ℤ) (db : Db)
    → HasAdmin db
    → 0 < count is_admin_token (select (λ t. not (has_id id t)) db.tokens)
    → HasAdmin (delete_found id db).1
delete_found-HasAdmin id db h left =
    let gone = delete_token-HasAdmin id db h left in
    call-keeps HasAdmin (delete_token id) _ _ db gone (λ _ _. gone)

get_token_by_id-found :
    (id : ℤ) (db : Db) (t : Token)
    → (get_token_by_id id db).0 ≡ ok t
    → find (has_id id) db.tokens ≡ some t
unfolding get_token_by_id
get_token_by_id-found id db t e =
    ground (arith, Outcome-cases (next db), Option-cases (find (has_id id) db.tokens))

count_admin_tokens-counts :
    (db : Db) (n : ℕ) → (count_admin_tokens db).0 ≡ ok n → n ≡ count is_admin_token db.tokens
unfolding count_admin_tokens
count_admin_tokens-counts db n e = ground (arith, Outcome-cases (next db))

-- With two admins, the deletion of one token leaves one.
delete_counted-HasAdmin :
    (id : ℤ) (n : ℕ) (db : Db)
    → HasAdmin db
    → n ≡ count is_admin_token db.tokens
    → HasAdmin (delete_counted id n db).1
delete_counted-HasAdmin id n db h e =
    if-keeps HasAdmin (leb n 1) _ _ (λ _. h)
      (λ two. delete_found-HasAdmin id db h (ground (arith, count-select_one id db.tokens h.0.ids)))

-- The found row is the only one with its id.
IsNoAdmin-of_find :
    (id : ℤ) (t : Token) (ts : List Token)
    → Unique token_id ts
    → find (has_id id) ts ≡ some t
    → t.is_admin ≡ false
    → IsNoAdmin id ts
IsNoAdmin-of_find id t [] u f e = tt
IsNoAdmin-of_find id t (x ∷ ts) (d, u) f e = elim (Bool-cases (has_id id x)) [
  | inl b ↦
      let p : x.id ≡ id = ground (arith, ==ℤ_iff x.id id) in
      let q : x.is_admin ≡ false = ground arith in
      ((λ a _. ground (arith, a)), subst (λ i. IsNoAdmin i ts) p (IsNoAdmin-of_head x ts d))
  | inr b ↦ ((λ _ p. ground (arith, ==ℤ_iff x.id id)), IsNoAdmin-of_find id t ts u (ground arith) e)
]

delete_checked-HasAdmin :
    (id : ℤ) (t : Token) (db : Db)
    → HasAdmin db
    → find (has_id id) db.tokens ≡ some t
    → HasAdmin (delete_checked id t db).1
delete_checked-HasAdmin id t db h f =
    let r = count_admin_tokens-reads db in
    let left = subst HasAdmin (sym r) (advance-HasAdmin db h) in
    if-keeps HasAdmin t.is_admin _ _
      (λ _.
        call-keeps HasAdmin count_admin_tokens (delete_counted id) _ db left
          (λ n e. delete_counted-HasAdmin id n _ left (rw r (count_admin_tokens-counts db n e))))
      (λ scoped.
        let same = count-select_scoped id db.tokens (IsNoAdmin-of_find id t _ h.0.ids f scoped) in
        delete_found-HasAdmin id db h (rw same h.1))

pub handle_delete-HasAdmin :
    (id : String) (db : Db) → HasAdmin db → HasAdmin (handle_delete_unified_token id db).1
unfolding handle_delete_unified_token
handle_delete-HasAdmin id_text db h = with_id-keeps HasAdmin id_text _ _ _ db h λ id.
    let r = get_token_by_id-reads db id in
    let left = subst HasAdmin (sym r) (advance-HasAdmin db h) in
    call-keeps HasAdmin (get_token_by_id id) (delete_checked id) _ db left
      (λ t e. delete_checked-HasAdmin id t _ left (rw r (get_token_by_id-found id db t e)))
