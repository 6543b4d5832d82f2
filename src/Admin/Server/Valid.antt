-- ===== src/Admin/Server/Valid.antt =====
-- The well-formedness of the database over a run of the server.
use bunny_api_proxy.Base.{
  ℕ, ℤ, ◌≡◌, sym, subst, leb, inl, inr, String, false, Option, none, some, List, [], ◌∷◌,
}
use bunny_api_proxy.Storage.Types.{Time, Token, Permission, Result, ok, err, Result-cases}
use bunny_api_proxy.Storage.Db.{Db, Outcome}
use bunny_api_proxy.Storage.Tokens.{create_token, get_token_by_id, count_admin_tokens, delete_token}
use bunny_api_proxy.Storage.Permissions.{is_empty, add_permission_for_token}
use bunny_api_proxy.Storage.Reads.{get_token_by_id-reads, count_admin_tokens-reads}
use bunny_api_proxy.Storage.Valid.{IsValid}
use bunny_api_proxy.Storage.Valid.Keeps.{
  advance-IsValid, create_token-IsValid, delete_token-IsValid, add_permission-IsValid,
  remove_permission_for_token-IsValid,
}
use bunny_api_proxy.Auth.Bootstrap.{BootstrapService}
use bunny_api_proxy.Admin.Handlers.{
  permission_of, handle_delete_unified_token, delete_checked, delete_counted, delete_found,
}
use bunny_api_proxy.Admin.Create.{
  after_zones, hex_encode, CreateTokenRequest, add_zones, after_create, generate,
}
use bunny_api_proxy.Admin.Server.{State, Event, run, set_environment}
use bunny_api_proxy.Admin.Server.Keeps.{call-keeps, if-keeps, with_id-keeps}
use bunny_api_proxy.Admin.Server.Runs.{Keeps, run-keeps}

delete_found-IsValid : (id : ℤ) (db : Db) → IsValid db → IsValid (delete_found id db).1
delete_found-IsValid id db v =
    let gone = delete_token-IsValid db v id in
    call-keeps IsValid (delete_token id) _ _ db gone (λ _ _. gone)

delete_checked-IsValid :
    (id : ℤ) (t : Token) (db : Db) → IsValid db → IsValid (delete_checked id t db).1
delete_checked-IsValid id t db v =
    let left = subst IsValid (sym (count_admin_tokens-reads db)) (advance-IsValid db v) in
    if-keeps IsValid t.is_admin _ _
      (λ _.
        call-keeps IsValid count_admin_tokens (delete_counted id) _ db left
          (λ n _. if-keeps IsValid (leb n 1) _ _ (λ _. left) (λ _. delete_found-IsValid id _ left)))
      (λ _. delete_found-IsValid id db v)

handle_delete-IsValid :
    (id : String) (db : Db) → IsValid db → IsValid (handle_delete_unified_token id db).1
unfolding handle_delete_unified_token
handle_delete-IsValid id_text db v = with_id-keeps IsValid id_text _ _ _ db v λ id.
    let left = subst IsValid (sym (get_token_by_id-reads db id)) (advance-IsValid db v) in
    call-keeps IsValid (get_token_by_id id) (delete_checked id) _ db left
      (λ t _. delete_checked-IsValid id t _ left)

-- The permissions of a new token, for any property that the statement keeps.
pub add_zones-keeps :
    (P : Db → Type 0) (id : ℤ) (req : CreateTokenRequest)
    → ((perm : Permission) (db : Db) → P db → P (add_permission_for_token id perm db).1)
    → (zones : List ℤ) (db : Db) → P db
    → P (add_zones id req zones db).1
unfolding add_zones
add_zones-keeps P id req adds [] db h = h
add_zones-keeps P id req adds (z ∷ zs) db h =
    let perm = permission_of z req.actions req.record_types in
    elim (Result-cases (add_permission_for_token id perm db).0) [
      | inl (p, e) ↦ rw (e, add_zones) (add_zones-keeps P id req adds zs _ (adds perm db h))
      | inr (x, e) ↦ rw (e, add_zones) (adds perm db h)
    ]

-- After the row of a new token: where it is kept and where it is deleted again.
pub after_create-keeps :
    (P Q : Db → Type 0) (req : CreateTokenRequest) (plain : String) (t : Token)
    → ((perm : Permission) (db : Db) → Q db → Q (add_permission_for_token t.id perm db).1)
    → ((db : Db) → Q db → P db)
    → ((db : Db) → Q db → P (delete_token t.id db).1)
    → (db : Db) → P db
    → (req.is_admin ≡ false → Q db)
    → P (after_create req plain t db).1
after_create-keeps P Q req plain t adds weaken deletes db h k =
    if-keeps P req.is_admin _ _ (λ _. h)
      (λ e.
        if-keeps P (is_empty req.zones) _ _ (λ _. h)
          (λ _.
            after_zones-keeps (add_zones t.id req req.zones db).0 _
              (add_zones-keeps Q t.id req adds req.zones db (k e))))
  where
    after_zones-keeps :
        (r : Result (Unit {0})) (db' : Db) → Q db' → P (after_zones req plain t r db').1
    after_zones-keeps (ok _) db' q = weaken db' q
    after_zones-keeps (err _) db' q = deletes db' q

generate-IsValid :
    (hash : String → String) (random : Option (List ℕ)) (req : CreateTokenRequest) (db : Db)
    → IsValid db
    → IsValid (generate hash random req db).1
generate-IsValid hash none req db v = v
generate-IsValid hash (some random) req db v =
    let key_hash = hash (hex_encode random) in
    let left = create_token-IsValid db v req.name req.is_admin key_hash in
    call-keeps IsValid (create_token req.name req.is_admin key_hash)
      (after_create req (hex_encode random)) _ db left
      (λ t _.
        after_create-keeps IsValid IsValid req (hex_encode random) t
          (λ perm db' v'. add_permission-IsValid db' v' t.id perm) (λ _ v'. v')
          (λ db' v'. delete_token-IsValid db' v' t.id) _ left (λ _. left))

set_environment-IsValid :
    (now : Time) (outcomes : List Outcome) (db : Db)
    → IsValid db
    → IsValid (set_environment now outcomes db)
set_environment-IsValid now outcomes db v = record {
  ids = v.ids;
  hashes = v.hashes;
  issued = v.issued;
  permission_ids = v.permission_ids;
  permission_issued = v.permission_issued;
  owned = v.owned;
  checked = v.checked;
}

pub keeps-IsValid : (hash : String → String) → Keeps hash IsValid
keeps-IsValid hash = record {
  advances = advance-IsValid;
  adds = λ id perm db v. add_permission-IsValid db v id perm;
  removes = λ id pid db v. remove_permission_for_token-IsValid db v id pid;
  deletes = handle_delete-IsValid;
  generates = generate-IsValid hash;
  changes = set_environment-IsValid;
}

-- Whatever calls the server answers and however the driver answers its statements, a well-formed
-- database stays well-formed: ids and hashes unique, ids issued by their counters, every permission
-- owned by a token and validated.
pub run-IsValid :
    (hash : String → String) (bootstrap : Option BootstrapService) (es : List Event) (s : State)
    → IsValid s.db
    → IsValid (run hash bootstrap es s).db
run-IsValid hash bootstrap = run-keeps hash bootstrap IsValid (keeps-IsValid hash)
