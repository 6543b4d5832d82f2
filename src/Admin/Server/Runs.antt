-- ===== src/Admin/Server/Runs.antt =====
-- What a run of the server leaves behind, for any property of databases that the statements, the
-- deletion of a token and the creation of a token keep.
use bunny_api_proxy.Base.{ℕ, ℤ, String, Option, List, [], ◌∷◌}
use bunny_api_proxy.Storage.Types.{Time, Permission}
use bunny_api_proxy.Storage.Db.{Db, Outcome, advance}
use bunny_api_proxy.Storage.Permissions.{add_permission_for_token, remove_permission_for_token}
use bunny_api_proxy.Auth.Context.{Context, background}
use bunny_api_proxy.Auth.Bootstrap.{BootstrapService}
use bunny_api_proxy.Admin.Access.{Step, answer, next, token_auth, require_admin}
use bunny_api_proxy.Admin.Handlers.{handle_delete_unified_token}
use bunny_api_proxy.Admin.Create.{CreateTokenRequest, generate}
use bunny_api_proxy.Admin.Server.{
  Call, get_whoami, get_tokens, post_log_level, post_token, get_token, delete_token,
  post_permission, delete_permission, State, admin_handler, after_admin, route, after_auth, serve,
  Event, request, environment, set_environment, run,
}
use bunny_api_proxy.Admin.Server.Keeps.{
  token_auth-keeps, handle_whoami-keeps, handle_list-keeps, handle_get-keeps, handle_add-keeps,
  handle_delete_permission-keeps, handle_create-keeps,
}

-- What has to be shown of a property.
pub record Keeps (hash : String → String) (P : Db → Type 0) : Type 0 where
  pub advances : (db : Db) → P db → P (advance db)
  pub adds :
      (id : ℤ) (perm : Permission) (db : Db) → P db → P (add_permission_for_token id perm db).1
  pub removes :
      (token_id perm_id : ℤ) (db : Db)
      → P db
      → P (remove_permission_for_token token_id perm_id db).1
  pub deletes : (id : String) (db : Db) → P db → P (handle_delete_unified_token id db).1
  pub generates :
      (random : Option (List ℕ)) (req : CreateTokenRequest) (db : Db)
      → P db
      → P (generate hash random req db).1
  pub changes :
      (now : Time) (outcomes : List Outcome) (db : Db) → P db → P (set_environment now outcomes db)

module _ (hash : String → String) (bootstrap : Option BootstrapService) (P : Db → Type 0)
    (keeps : Keeps hash P) where
  admin_handler-keeps :
      (c : Call) (ctx : Context) (s : State)
      → P s.db
      → P (admin_handler hash bootstrap c ctx s).1.db
  unfolding admin_handler
  admin_handler-keeps get_whoami ctx s h = handle_whoami-keeps P keeps.advances ctx s.db h
  admin_handler-keeps get_tokens ctx s h = handle_list-keeps P keeps.advances s.db h
  admin_handler-keeps (post_log_level body) ctx s h = h
  admin_handler-keeps (post_token random body) ctx s h =
      handle_create-keeps P keeps.advances hash keeps.generates bootstrap random ctx body s.db h
  admin_handler-keeps (get_token id) ctx s h = handle_get-keeps P keeps.advances id s.db h
  admin_handler-keeps (delete_token id) ctx s h = keeps.deletes id s.db h
  admin_handler-keeps (post_permission id body) ctx s h =
      handle_add-keeps P keeps.advances keeps.adds id body s.db h
  admin_handler-keeps (delete_permission id pid) ctx s h =
      handle_delete_permission-keeps P keeps.advances keeps.removes id pid s.db h

  after_admin-keeps :
      (c : Call) (step : Step) (s : State) → P s.db → P (after_admin hash bootstrap c step s).1.db
  after_admin-keeps c (answer r) s h = h
  after_admin-keeps c (next ctx) s h = admin_handler-keeps c ctx s h

  route-keeps :
      (c : Call) (ctx : Context) (s : State) → P s.db → P (route hash bootstrap c ctx s).1.db
  unfolding route
  route-keeps get_whoami ctx s h = handle_whoami-keeps P keeps.advances ctx s.db h
  route-keeps get_tokens ctx s h = after_admin-keeps get_tokens (require_admin ctx) s h
  route-keeps (post_log_level body) ctx s h =
      after_admin-keeps (post_log_level body) (require_admin ctx) s h
  route-keeps (post_token random body) ctx s h =
      after_admin-keeps (post_token random body) (require_admin ctx) s h
  route-keeps (get_token id) ctx s h = after_admin-keeps (get_token id) (require_admin ctx) s h
  route-keeps (delete_token id) ctx s h =
      after_admin-keeps (delete_token id) (require_admin ctx) s h
  route-keeps (post_permission id body) ctx s h =
      after_admin-keeps (post_permission id body) (require_admin ctx) s h
  route-keeps (delete_permission id pid) ctx s h =
      after_admin-keeps (delete_permission id pid) (require_admin ctx) s h

  after_auth-keeps :
      (c : Call) (step : Step) (s : State) → P s.db → P (after_auth hash bootstrap c step s).1.db
  after_auth-keeps c (answer r) s h = h
  after_auth-keeps c (next ctx) s h = route-keeps c ctx s h

  pub serve-keeps :
      (key : String) (c : Call) (s : State) → P s.db → P (serve hash bootstrap key c s).1.db
  unfolding serve
  serve-keeps key c s h =
      let step = token_auth hash bootstrap key background s.db in
      after_auth-keeps c step.0 (record s { db = step.1 })
        (token_auth-keeps P keeps.advances hash bootstrap key background s.db h)

  pub run-keeps : (es : List Event) (s : State) → P s.db → P (run hash bootstrap es s).db
  unfolding run
  run-keeps [] s h = h
  run-keeps (request key c ∷ es) s h = run-keeps es _ (serve-keeps key c s h)
  run-keeps (environment now outcomes ∷ es) s h = run-keeps es _ (keeps.changes now outcomes s.db h)
