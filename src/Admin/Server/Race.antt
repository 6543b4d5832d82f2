-- ===== src/Admin/Server/Race.antt =====
-- `HandleDeleteUnifiedToken` (internal/admin/api.go) statement by statement: the handler is not one
-- transaction, so the statements of two requests can interleave.
pub mod Lost
use bunny_api_proxy.Go.ParseInt.{parse_int}
use bunny_api_proxy.Base.{
  String, ℕ, ◌+◌, ℤ, ==ℤ_iff, ◌≡◌, ◌≢◌, refl, sym, ap, ◌∙◌, subst, Bool, true, false, not, Option,
  none, some, List, [], ◌∷◌, inl, inr, arith, Bool-cases, leb, if◌then◌else◌, All, All-Member,
  All-mono, Member, select_of_Member, Unique, Unique-select, select, count, find, any,
  any_of_Member, ==ℤ_refl,
}
use bunny_api_proxy.Storage.Types.{Token, Error, Result, ok, err, Result-cases}
use bunny_api_proxy.Storage.Db.{Db, Outcome, works, next, advance, head_outcome, tail_outcome}
use bunny_api_proxy.Storage.Tokens.{
  has_id, is_admin_token, get_token_by_id, count_admin_tokens, delete_rows, delete_token,
  or_not_found,
}
use bunny_api_proxy.Storage.Valid.{IsValid, token_id}
use bunny_api_proxy.Admin.Types.{
  Response, respond, no_content, internal_error, not_found_or, call, finish,
}
use bunny_api_proxy.Admin.Handlers.{
  with_id, handle_delete_unified_token, delete_checked, delete_counted, delete_found, last_admin,
  token_missing,
}
use bunny_api_proxy.Admin.Server.LastAdmin.Counts.{
  IsNoAdmin, count-select_scoped, IsNoAdmin-of_head,
}

-- Where a deletion stands between two statements.
pub data Phase : Type 0 where
  looking counting deleting : Phase
  replied : Response → Phase

abbrev pub after_look : Result Token → Phase
after_look (ok t) = if t.is_admin then counting else deleting
after_look (err e) = replied (token_missing e)

abbrev pub after_count : Result ℕ → Phase
after_count (ok n) = if leb n 1 then replied last_admin else deleting
after_count (err e) = replied (internal_error "Failed to check admin count")

abbrev pub after_delete : Result (Unit {0}) → Phase
after_delete (ok _) = replied (respond 204 no_content)
after_delete (err e) = replied (not_found_or "Token not found" "Failed to delete token" e)

-- The next statement of the deletion of a token.
unfoldable pub delete_step : ℤ → Phase → Db → Phase × Db
delete_step id looking db = let (r, db') = get_token_by_id id db in (after_look r, db')
delete_step id counting db = let (r, db') = count_admin_tokens db in (after_count r, db')
delete_step id deleting db = let (r, db') = delete_token id db in (after_delete r, db')
delete_step id (replied r) db = (replied r, db)

-- Alone: a handler has at most three statements.
unfoldable pub delete_alone : ℤ → Db → Phase × Db
delete_alone id db =
    let (p₁, db₁) = delete_step id looking db in
    let (p₂, db₂) = delete_step id p₁ db₁ in delete_step id p₂ db₂

-- Two requests, the first for the token `a`, each of the moves being of the first (true) or the second.
unfoldable pub interleave : (a b : ℤ) → List Bool → Phase × Phase → Db → (Phase × Phase) × Db
interleave a b [] (p, q) db = ((p, q), db)
interleave a b (true ∷ moves) (p, q) db =
    let (p', db') = delete_step a p db in interleave a b moves (p', q) db'
interleave a b (false ∷ moves) (p, q) db =
    let (q', db') = delete_step b q db in interleave a b moves (p, q') db'

abbrev pub done_with : Response × Db → Phase × Db
done_with (r, db) = (replied r, db)

deleting_last : (id : ℤ) (db : Db) → delete_step id deleting db ≡ done_with (delete_found id db)
unfolding delete_step call
deleting_last id db = go (delete_token id db).0 (delete_token id db).1
  where
    go :
        (r : Result (Unit {0})) (db' : Db)
        → (after_delete r, db')
          ≡ done_with (
              finish r
                (λ _ d. (respond 204 no_content, d))
                (not_found_or "Token not found" "Failed to delete token")
                db')
    go (ok _) db' = refl
    go (err e) db' = refl

counting_last :
    (id : ℤ) (r : Result ℕ) (db : Db)
    → delete_step id (after_count r) db
      ≡ done_with
          (finish r (delete_counted id) (λ _. internal_error "Failed to check admin count") db)
unfolding delete_step
counting_last id (err e) db = refl
counting_last id (ok n) db = elim (Bool-cases (leb n 1)) [
  | inl e ↦ rw e refl
  | inr e ↦ rw e (deleting_last id db)
]

looking_last :
    (id : ℤ) (r : Result Token) (db : Db)
    → (let (p, d) = delete_step id (after_look r) db in delete_step id p d)
      ≡ done_with (finish r (delete_checked id) token_missing db)
unfolding delete_step call
looking_last id (err e) db = refl
looking_last id (ok t) db = elim (Bool-cases t.is_admin) [
  | inl e ↦ rw e (counting_last id (count_admin_tokens db).0 (count_admin_tokens db).1)
  | inr e ↦ rw e (ap (λ (x : Phase × Db). delete_step id x.0 x.1) (deleting_last id db))
]

-- One deletion of an id that parses, whose statements run without another's in between, is the handler
-- on every outcome of its statements: it has replied, with the handler's response and database.
delete_alone-handler :
    (id_text : String) (id : ℤ) (db : Db)
    → parse_int id_text ≡ some id
    → delete_alone id db ≡ done_with (handle_delete_unified_token id_text db)
unfolding delete_alone delete_step call handle_delete_unified_token with_id
delete_alone-handler id_text id db e =
    rw (e, with_id) (looking_last id (get_token_by_id id db).0 (get_token_by_id id db).1)
