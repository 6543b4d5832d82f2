-- ===== src/Admin/Server.antt =====
-- internal/admin/router.go: the routes below /admin/api with their middlewares. Which route a path
-- has, and its URL parameters, is chi's; a call stands for the route that chi has chosen.
pub mod Keeps
pub mod Runs
pub mod Valid
pub mod LastAdmin
pub mod Locked
pub mod Admins
pub mod Race
use bunny_api_proxy.Base.{ℕ, String, Bool, Option, List, [], ◌∷◌}
use bunny_api_proxy.Storage.Types.{Time}
use bunny_api_proxy.Storage.Db.{Db, Outcome}
use bunny_api_proxy.Auth.Context.{Context, background}
use bunny_api_proxy.Auth.Bootstrap.{BootstrapService}
use bunny_api_proxy.Admin.Types.{Level, Response, Handler}
use bunny_api_proxy.Admin.Access.{Step, answer, next, token_auth, require_admin}
use bunny_api_proxy.Admin.Handlers.{
  AddPermissionRequest, handle_set_log_level, handle_whoami, handle_list_unified_tokens,
  handle_get_unified_token, handle_delete_unified_token, handle_add_token_permission,
  handle_delete_token_permission,
}
use bunny_api_proxy.Admin.Create.{CreateTokenRequest, handle_create_unified_token}

pub data Call : Type 0 where
  get_whoami get_tokens : Call
  post_log_level : Option String → Call
  -- with the bytes that the random source gives
  post_token : Option (List ℕ) → Option CreateTokenRequest → Call
  get_token delete_token : String → Call
  post_permission : String → Option AddPermissionRequest → Call
  delete_permission : String → String → Call

pub record State : Type 0 where
  pub db : Db
  pub log_level : Level

-- A handler that leaves the log level alone.
abbrev pub on_db : Handler → State → Response × State
on_db h s = let (r, db') = h s.db in (r, record s { db = db' })

abbrev pub on_level : (Level → Response × Level) → State → Response × State
on_level h s = let (r, level) = h s.log_level in (r, record s { log_level = level })

module _ (hash : String → String) (bootstrap : Option BootstrapService) where
  -- The group of routes behind `RequireAdmin`.
  unfoldable pub admin_handler : Call → Context → State → Response × State
  admin_handler get_whoami ctx = on_db (handle_whoami ctx)
  admin_handler get_tokens ctx = on_db handle_list_unified_tokens
  admin_handler (post_log_level body) ctx = on_level (handle_set_log_level body)
  admin_handler (post_token random body) ctx =
      on_db (handle_create_unified_token hash bootstrap random ctx body)
  admin_handler (get_token id) ctx = on_db (handle_get_unified_token id)
  admin_handler (delete_token id) ctx = on_db (handle_delete_unified_token id)
  admin_handler (post_permission id body) ctx = on_db (handle_add_token_permission id body)
  admin_handler (delete_permission id pid) ctx = on_db (handle_delete_token_permission id pid)

  abbrev pub after_admin : Call → Step → State → Response × State
  after_admin c (answer r) s = (r, s)
  after_admin c (next ctx) s = admin_handler c ctx s

  -- Whoami is open to every token; the other routes require an admin.
  unfoldable pub route : Call → Context → State → Response × State
  unfolding admin_handler
  route get_whoami ctx s = on_db (handle_whoami ctx) s
  route c ctx s = after_admin c (require_admin ctx) s

  abbrev pub after_auth : Call → Step → State → Response × State
  after_auth c (answer r) s = (r, s)
  after_auth c (next ctx) s = route c ctx s

  unfoldable pub serve : String → Call → State → Response × State
  serve access_key c s =
      let (step, db') = token_auth hash bootstrap access_key background s.db in
      after_auth c step (record s { db = db' })

-- What happens to a running server, one thing after the other: a call of the API with an access
-- key, or a change of the environment, which sets the clock and how the driver will answer.
pub data Event : Type 0 where
  request : String → Call → Event
  environment : Time → List Outcome → Event

abbrev pub set_environment : Time → List Outcome → Db → Db
set_environment now outcomes db = record db { now = now; outcomes = outcomes }

module _ (hash : String → String) (bootstrap : Option BootstrapService) where
  abbrev pub event_step : Event → State → State
  event_step (request access_key c) s = (serve hash bootstrap access_key c s).1
  event_step (environment now outcomes) s = record s { db = set_environment now outcomes s.db }

  unfoldable pub run : List Event → State → State
  run [] s = s
  run (e ∷ es) s = run es (event_step e s)
