-- ===== src/Admin/Server/Locked.antt =====
-- The master key in `TokenAuthMiddleware` (internal/admin/token_auth.go) once an admin exists.
use bunny_api_proxy.Base.{
  ◌<◌, String, ◌==◌, eq_iff, ◌≡◌, refl, ap, true, false, some, List, inl, inr, arith, Bool-cases,
  count,
}
use bunny_api_proxy.Storage.Db.{
  Outcome, works, exec_fails, result_fails, Outcome-cases, next, advance,
}
use bunny_api_proxy.Storage.Tokens.{is_admin_token, has_any_admin_token}
use bunny_api_proxy.Storage.Valid.{IsValid}
use bunny_api_proxy.Go.Trim.{trim_space, trim_left, trim_right}
use bunny_api_proxy.Auth.Context.{background}
use bunny_api_proxy.Auth.Bootstrap.{BootstrapService, is_master_key, can_use_master_key}
use bunny_api_proxy.Admin.Types.{Response, respond, plain, write_error}
use bunny_api_proxy.Admin.Access.{answer, token_auth}
use bunny_api_proxy.Admin.Server.{Call, State, serve, Event, run}
use bunny_api_proxy.Admin.Server.LastAdmin.{run-HasAdmin}

-- The answers that the documentation gives for the master key while it is locked: the query for
-- admin tokens works or fails.
abbrev pub locked_answer : Outcome → Response
locked_answer works =
    write_error 403 "master_key_locked" "Master API key is locked. Use an admin token instead."
locked_answer exec_fails = respond 500 (plain "Internal error")
locked_answer result_fails = respond 500 (plain "Internal error")

trim_space-empty : (trim_space "" == "") ≡ true
unfolding trim_space trim_left trim_right
trim_space-empty = refl

token_auth-locked :
    (hash : String → String) (b : BootstrapService) (key : String) (s : State)
    → (trim_space key == "") ≡ false
    → is_master_key hash b (trim_space key) ≡ true
    → 0 < count is_admin_token s.db.tokens
    → token_auth hash (some b) key background s.db
      ≡ (answer (locked_answer (next s.db)), advance s.db)
unfolding token_auth can_use_master_key has_any_admin_token
token_auth-locked hash b key s given master n = elim (Bool-cases (key == "")) [
  | inl e ↦
      absurd (ground (arith, trim_space-empty, ap (λ x. trim_space x == "") ((eq_iff key "").0 e)))
  | inr e ↦ elim (Outcome-cases (next s.db)) [
    | inl o ↦ rw (e, given, master, o) (ground (arith, o))
    | inr (inl o) ↦ rw (e, given, master, o) (ground (arith, o))
    | inr (inr o) ↦ rw (e, given, master, o) (ground (arith, o))
  ]
]

-- Once a well-formed database has an admin token, the master key stays locked: after any run, a call
-- with it is answered `master_key_locked` (or 500 where the query for admin tokens fails), and the
-- state is left as it is but for the driver's outcome that the query has used.
pub serve-master_locked :
    (hash : String → String) (b : BootstrapService) (es : List Event) (s : State) (key : String)
    (c : Call)
    → IsValid s.db
    → 0 < count is_admin_token s.db.tokens
    → (trim_space key == "") ≡ false
    → is_master_key hash b (trim_space key) ≡ true
    → let s' = run hash (some b) es s in
      serve hash (some b) key c s' ≡ (locked_answer (next s'.db), record s' { db = advance s'.db })
unfolding serve
serve-master_locked hash b es s key c v n given master =
    let s' = run hash (some b) es s in
    rw (token_auth-locked hash b key s' given master (run-HasAdmin hash (some b) es s v n)) refl
