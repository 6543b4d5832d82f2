-- ===== src/Admin/Create/Zones.antt =====
-- The loop of `HandleCreateUnifiedToken` over the zones of a new scoped token, and its cleanup, while
-- the driver's statements work.
use bunny_api_proxy.Base.{
  ℕ, ◌+◌, Bool, ℤ, pos, ◌==ℤ◌, ==ℤ_iff, ==ℤ_refl, ◌≡◌, ◌≢◌, refl, sym, ap, ◌∙◌, true, false, not,
  List, [], ◌∷◌, ◌++◌, inl, inr, arith, Bool-cases, any, All, All-mono, select, select-All,
  select_none, select-append,
}
use bunny_api_proxy.Storage.Types.{Token, Permission, failed, Result, ok, err}
use bunny_api_proxy.Storage.Db.{Db, works, next, advance, head_outcome, tail_outcome}
use bunny_api_proxy.Storage.Tokens.{has_id, delete_token, delete_rows}
use bunny_api_proxy.Storage.Permissions.{
  rejects, new_permission, insert_permission, add_permission_for_token,
}
use bunny_api_proxy.Admin.Handlers.{permission_of}
use bunny_api_proxy.Admin.Create.{CreateTokenRequest, add_zones}

-- The rows for the zones, with the ids after `seq`.
abbrev pub zone_rows : ℤ → CreateTokenRequest → (now seq : ℕ) → List ℤ → List Permission
zone_rows id req now seq [] = []
zone_rows id req now seq (z ∷ zs) =
    record {
      id = pos (seq + 1);
      token_id = id;
      zone_id = z;
      allowed_actions = req.actions;
      record_types = req.record_types;
      created_at = now;
    }
    ∷ zone_rows id req now (seq + 1) zs

abbrev pub IsOf : ℤ → List Permission → Type 0
IsOf id ps = All (λ p. p.token_id ≡ id) ps

-- How the loop ends: with a row for every zone, or refused, with some rows of the token.
pub data Ended (id : ℤ) (req : CreateTokenRequest) (zones : List ℤ) (db : Db)
    (r : Result (Unit {0})) (db' : Db) : Type 0 where
  all :
      r ≡ ok tt
      → db'.permissions ≡ db.permissions ++ zone_rows id req db.now db.permission_seq zones
      → Ended id req zones db r db'
  some_rows :
      (extra : List Permission)
      → r ≡ err failed
      → IsOf id extra
      → db'.permissions ≡ db.permissions ++ extra
      → Ended id req zones db r db'

-- The parts of the database that the loop leaves alone.
abbrev pub Calm : Db → Db → Type 0
Calm db db' = (db'.tokens ≡ db.tokens) × (db'.outcomes ≡ [])

append_one :
    (xs : List Permission) (x : Permission) (ys : List Permission)
    → (xs ++ x ∷ []) ++ ys ≡ xs ++ x ∷ ys
append_one [] x ys = refl
append_one (z ∷ xs) x ys = ap (λ l. z ∷ l) (append_one xs x ys)

add_permission-works :
    (id : ℤ) (perm : Permission) (db : Db)
    → db.outcomes ≡ []
    → any (has_id id) db.tokens ≡ true
    → rejects perm ≡ false
    → add_permission_for_token id perm db
      ≡ (ok (new_permission id perm db), insert_permission (new_permission id perm db) (advance db))
unfolding add_permission_for_token
add_permission-works id perm db o a r = rw (r, a, ap head_outcome o, add_permission_for_token) refl

add_permission-rejected :
    (id : ℤ) (perm : Permission) (db : Db)
    → rejects perm ≡ true
    → add_permission_for_token id perm db ≡ (err failed, db)
unfolding add_permission_for_token
add_permission-rejected id perm db r = rw (r, add_permission_for_token) refl

pub append_nil : (xs : List Permission) → xs ++ [] ≡ xs
append_nil [] = refl
append_nil (x ∷ xs) = ap (λ l. x ∷ l) (append_nil xs)

-- The database after the first zone has its row.
abbrev first_zone : ℤ → CreateTokenRequest → ℤ → Db → Db
first_zone id req z db =
    insert_permission (new_permission id (permission_of z req.actions req.record_types) db)
      (advance db)

Ended-first_zone :
    (id : ℤ) (req : CreateTokenRequest) (z : ℤ) (zs : List ℤ) (db : Db) (r : Result (Unit {0}))
    (db' : Db)
    → Ended id req zs (first_zone id req z db) r db'
    → Ended id req (z ∷ zs) db r db'
unfolding insert_permission
Ended-first_zone id req z zs db r db' (all e p) = all e (p ∙ append_one db.permissions _ _)
Ended-first_zone id req z zs db r db' (some_rows extra e of p) =
    some_rows (_ ∷ extra) e (refl, of) (p ∙ append_one db.permissions _ _)

pub add_zones-Ended :
    (id : ℤ) (req : CreateTokenRequest) (zones : List ℤ) (db : Db)
    → db.outcomes ≡ []
    → any (has_id id) db.tokens ≡ true
    → let (r, db') = add_zones id req zones db in Ended id req zones db r db' × Calm db db'
unfolding add_zones insert_permission
add_zones-Ended id req [] db o a = (all refl (sym (append_nil db.permissions)), (refl, o))
add_zones-Ended id req (z ∷ zs) db o a =
    let perm = permission_of z req.actions req.record_types in
    elim (Bool-cases (rejects perm)) [
      | inl r ↦
          let e = add_permission-rejected id perm db r in
          rw (ap (λ x. x.0) e, ap (λ x. x.1) e, add_zones)
            (some_rows [] refl tt (sym (append_nil db.permissions)), (refl, o))
      | inr r ↦
          let d : Db = first_zone id req z db in
          let h = add_zones-Ended id req zs d (ap tail_outcome o) a in
          let e = add_permission-works id perm db o a r in
          rw (ap (λ x. x.0) e, ap (λ x. x.1) e, add_zones)
            (Ended-first_zone id req z zs db _ _ h.0, h.1)
    ]

delete_token-works :
    (id : ℤ) (db : Db) → next db ≡ works → (delete_token id db).1 ≡ delete_rows id (advance db)
unfolding delete_token
delete_token-works id db o = elim (Bool-cases (any (has_id id) db.tokens)) [
  | inl b ↦ rw (o, b, delete_token) refl
  | inr b ↦ rw (o, b, delete_token) refl
]

-- The cleanup: deleting a fresh token takes its rows and leaves the others.
pub delete_token-fresh :
    (t : Token) (ts : List Token) (ps extra : List Permission) (db : Db)
    → db.outcomes ≡ []
    → All (λ u. u.id ≢ t.id) ts
    → All (λ p. p.token_id ≢ t.id) ps
    → IsOf t.id extra
    → db.tokens ≡ ts ++ t ∷ []
    → db.permissions ≡ ps ++ extra
    → ((delete_token t.id db).1.tokens ≡ ts) × ((delete_token t.id db).1.permissions ≡ ps)
unfolding delete_rows
delete_token-fresh t ts ps extra db o fresh others of e f =
    let keep_t : Token → Bool = λ u. not (has_id t.id u) in
    let keep_p : Permission → Bool = λ p. not (p.token_id ==ℤ t.id) in
    let gone_t : select keep_t (t ∷ []) ≡ [] =
      select_none keep_t (t ∷ []) (ap not (==ℤ_refl t.id), tt) in
    let gone_p : select keep_p extra ≡ [] =
      select_none keep_p extra
        (All-mono _ _ extra (λ p q. ap not ((==ℤ_iff p.token_id t.id).1 q)) of) in
    let same_t : select keep_t ts ≡ ts =
      select-All keep_t ts (All-mono _ _ ts (λ u n. ground (arith, ==ℤ_iff u.id t.id)) fresh) in
    let same_p : select keep_p ps ≡ ps =
      select-All keep_p ps
        (All-mono _ _ ps (λ p n. ground (arith, ==ℤ_iff p.token_id t.id)) others) in
    let tokens : select keep_t db.tokens ≡ ts =
      ap (select keep_t) e
      ∙ select-append keep_t ts (t ∷ [])
      ∙ rw (same_t, gone_t) (append_none ts) in
    let permissions : select keep_p db.permissions ≡ ps =
      ap (select keep_p) f ∙ select-append keep_p ps extra ∙ rw (same_p, gone_p) (append_nil ps) in
    let w = delete_token-works t.id db (ap head_outcome o) in
    (ap (λ (d : Db). d.tokens) w ∙ tokens, ap (λ (d : Db). d.permissions) w ∙ permissions)
  where
    append_none : (xs : List Token) → xs ++ [] ≡ xs
    append_none [] = refl
    append_none (x ∷ xs) = ap (λ l. x ∷ l) (append_none xs)
