-- ===== src/Admin/Server/Race/Lost.antt =====
-- Two deletions of admin tokens that interleave (internal/admin/api.go: the count of the admins and
-- the deletion are two statements).
use bunny_api_proxy.Base.{
  ℕ, ◌+◌, ℤ, ==ℤ_iff, ◌≡◌, ◌≢◌, refl, sym, ap, ◌∙◌, subst, Bool, true, false, not, some, List, [],
  ◌∷◌, inl, inr, arith, All-Member, Member, select_of_Member, Unique, Unique-select, select, count,
  find, any, any_of_Member, ==ℤ_refl,
}
use bunny_api_proxy.Storage.Types.{Token, Result, ok}
use bunny_api_proxy.Storage.Db.{Db, advance, head_outcome, tail_outcome}
use bunny_api_proxy.Storage.Tokens.{
  has_id, is_admin_token, get_token_by_id, count_admin_tokens, delete_rows, delete_token,
}
use bunny_api_proxy.Storage.Valid.{IsValid, token_id}
use bunny_api_proxy.Admin.Types.{respond, no_content}
use bunny_api_proxy.Admin.Server.LastAdmin.Counts.{count-select_scoped, IsNoAdmin-of_head}
use bunny_api_proxy.Admin.Server.Race.{
  Phase, looking, counting, deleting, replied, after_look, after_count, delete_step, interleave,
}

find_of_Member :
    (t : Token) (ts : List Token)
    → Unique token_id ts
    → Member t ts
    → find (has_id t.id) ts ≡ some t
find_of_Member t [] u m = absurd m
find_of_Member t (x ∷ ts) (d, u) (inl e) =
    subst (λ (y : Token). find (has_id y.id) (x ∷ ts) ≡ some y) e (rw (==ℤ_refl x.id) refl)
find_of_Member t (x ∷ ts) (d, u) (inr m) =
    let n : x.id ≢ t.id = All-Member _ ts t d m in
    let other : has_id t.id x ≡ false = ground (arith, ==ℤ_iff x.id t.id) in
    rw other (find_of_Member t ts u m)

-- Deleting an admin takes one admin.
count-select_admin :
    (t : Token) (ts : List Token)
    → Unique token_id ts
    → Member t ts
    → t.is_admin ≡ true
    → count is_admin_token (select (λ x. not (has_id t.id x)) ts) + 1 ≡ count is_admin_token ts
count-select_admin t [] u m a = absurd m
count-select_admin t (x ∷ ts) (d, u) (inl e) a =
    subst
      (λ (y : Token).
        count is_admin_token (select (λ z. not (has_id y.id z)) (x ∷ ts)) + 1
        ≡ count is_admin_token (x ∷ ts))
      e
      (ground (
        arith,
        ==ℤ_refl x.id,
        ap is_admin_token e,
        count-select_scoped x.id ts (IsNoAdmin-of_head x ts d),
      ))
count-select_admin t (x ∷ ts) (d, u) (inr m) a =
    let n : x.id ≢ t.id = All-Member _ ts t d m in
    let other : has_id t.id x ≡ false = ground (arith, ==ℤ_iff x.id t.id) in
    ground (arith, other, count-select_admin t ts u m a)

advance_same : (db : Db) → db.outcomes ≡ [] → advance db ≡ db
advance_same db o = ap (λ os. record db { outcomes = os }) (ap tail_outcome o ∙ sym o)

-- The statements of the deletion of one of two admins, while they work.
module _ (t : Token) (db : Db) (o : db.outcomes ≡ []) where
  get_token-works :
      find (has_id t.id) db.tokens ≡ some t → get_token_by_id t.id db ≡ (ok t, advance db)
  unfolding get_token_by_id
  get_token-works f = ground (arith, ap head_outcome o, f)

  count_admins-works :
      count is_admin_token db.tokens ≡ 2 → count_admin_tokens db ≡ (ok 2, advance db)
  unfolding count_admin_tokens
  count_admins-works n = ground (arith, ap head_outcome o, n)

  looks :
      find (has_id t.id) db.tokens ≡ some t
      → t.is_admin ≡ true
      → delete_step t.id looking db ≡ (counting, db)
  unfolding delete_step
  looks f a =
      ap (λ (x : Result Token × Db). (after_look x.0, x.1)) (get_token-works f)
      ∙ rw a (ap (λ (d : Db). (counting, d)) (advance_same db o))

  counts : count is_admin_token db.tokens ≡ 2 → delete_step t.id counting db ≡ (deleting, db)
  unfolding delete_step
  counts n =
      ap (λ (x : Result ℕ × Db). (after_count x.0, x.1)) (count_admins-works n)
      ∙ ap (λ (d : Db). (deleting, d)) (advance_same db o)

  deletes :
      any (has_id t.id) db.tokens ≡ true
      → delete_step t.id deleting db
        ≡ (replied (respond 204 no_content), delete_rows t.id (advance db))
  unfolding delete_step delete_token
  deletes e = rw (ap head_outcome o, e, delete_token) refl

module _ (a b : ℤ) (moves : List Bool) where
  move_first :
      (p q p' : Phase) (db db' : Db)
      → delete_step a p db ≡ (p', db')
      → interleave a b (true ∷ moves) (p, q) db ≡ interleave a b moves (p', q) db'
  unfolding interleave
  move_first p q p' db db' e = ap (λ (x : Phase × Db). interleave a b moves (x.0, q) x.1) e

  move_second :
      (p q q' : Phase) (db db' : Db)
      → delete_step b q db ≡ (q', db')
      → interleave a b (false ∷ moves) (p, q) db ≡ interleave a b moves (p, q') db'
  unfolding interleave
  move_second p q q' db db' e = ap (λ (x : Phase × Db). interleave a b moves (p, x.0) x.1) e

-- In a well-formed database with exactly two admin tokens, two deletions that interleave so that both
-- count the admins before either deletes its own are both answered 204, and no admin token is left.
pub interleave-no_admin :
    (a b : Token) (db : Db)
    → IsValid db
    → db.outcomes ≡ []
    → Member a db.tokens
    → Member b db.tokens
    → a.is_admin ≡ true
    → b.is_admin ≡ true
    → a.id ≢ b.id
    → count is_admin_token db.tokens ≡ 2
    → let ((p, q), db') =
        interleave a.id b.id
          (true ∷ true ∷ false ∷ false ∷ true ∷ false ∷ [])
          (looking, looking)
          db in
      (p ≡ replied (respond 204 no_content))
      × (q ≡ replied (respond 204 no_content))
      × (count is_admin_token db'.tokens ≡ 0)
unfolding delete_rows interleave
interleave-no_admin a b db v o ma mb aa ab other two =
    let gone = replied (respond 204 no_content) in
    let db₁ : Db = delete_rows a.id (advance db) in
    let db₂ : Db = delete_rows b.id (advance db₁) in
    let o₁ : db₁.outcomes ≡ [] = ap tail_outcome o in
    let keeps_b : not (has_id a.id b) ≡ true = ground (arith, ==ℤ_iff b.id a.id) in
    let mb₁ : Member b db₁.tokens =
      select_of_Member (λ x. not (has_id a.id x)) db.tokens b mb keeps_b in
    let found_a = find_of_Member a db.tokens v.ids ma in
    let found_b = find_of_Member b db.tokens v.ids mb in
    let any_a = any_of_Member (has_id a.id) db.tokens a ma (==ℤ_refl a.id) in
    let any_b = any_of_Member (has_id b.id) db₁.tokens b mb₁ (==ℤ_refl b.id) in
    let run =
      move_first a.id b.id (true ∷ false ∷ false ∷ true ∷ false ∷ []) looking looking counting db db
        (looks a db o found_a aa)
      ∙ move_first a.id b.id (false ∷ false ∷ true ∷ false ∷ []) counting looking deleting db db
          (counts a db o two)
      ∙ move_second a.id b.id (false ∷ true ∷ false ∷ []) deleting looking counting db db
          (looks b db o found_b ab)
      ∙ move_second a.id b.id (true ∷ false ∷ []) deleting counting deleting db db
          (counts b db o two)
      ∙ move_first a.id b.id (false ∷ []) deleting deleting gone db db₁ (deletes a db o any_a)
      ∙ move_second a.id b.id [] gone deleting gone db₁ db₂ (deletes b db₁ o₁ any_b) in
    let left_a = count-select_admin a db.tokens v.ids ma aa in
    let left_b =
      count-select_admin b db₁.tokens (Unique-select token_id _ db.tokens v.ids) mb₁ ab in
    let none_left : count is_admin_token db₂.tokens ≡ 0 = omega arith in
    (
      ap (λ x. x.0.0) run,
      ap (λ x. x.0.1) run,
      ap (λ x. count is_admin_token x.1.tokens) run ∙ none_left,
    )
