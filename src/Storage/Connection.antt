-- ===== src/Storage/Connection.antt =====
-- internal/storage/schema.go, config.go and ping.go: opening the database, its schema, and its end.
-- database/sql with its driver is a parameter; what is done to the handle is written down in `trace`,
-- the newest first. White space in the statements is reduced.
pub mod Traced
use bunny_api_proxy.Base.{
  ℕ, ℤ, pos, ◌==ℤ◌, String, Bool, true, false, Option, none, some, List, [], ◌∷◌, if◌then◌else◌,
}

-- `sql.Open`, `Exec` and `Close` with whether they succeed, and the number that `SELECT 1` answers,
-- `none` being an error.
pub record Driver (D : Type 0) : Type 0 where
  pub open_file : String → Option D
  pub run : String → D → Bool × D
  pub close_conn : D → Bool × D
  pub select_one : D → Option ℤ × D

pub data Event : Type 0 where
  -- a statement, and whether it succeeded
  ran : String → (is_ok : Bool) → Event
  limited : ℕ → Event
  closed : Event

pub record Handle (D : Type 0) : Type 0 where
  pub conn : D
  pub trace : List Event

pub data OpenError : Type 0 where
  open_failed schema_failed wal_failed busy_timeout_failed mmap_failed foreign_keys_failed :
      OpenError

-- A storage, or an error with the handle that has been opened, if any.
pub data Opened (D : Type 0) : Type 0 where
  opened : Handle D → Opened D
  refused : OpenError → Option (Handle D) → Opened D

abbrev pub foreign_keys : String
foreign_keys = "PRAGMA foreign_keys = ON"

abbrev pub ddl_statements : List String
ddl_statements =
    "CREATE TABLE IF NOT EXISTS config (id INTEGER PRIMARY KEY CHECK (id = 1), master_api_key_hash TEXT NOT NULL)"
    ∷ "CREATE TABLE IF NOT EXISTS tokens (id INTEGER PRIMARY KEY AUTOINCREMENT, key_hash TEXT NOT NULL UNIQUE, name TEXT NOT NULL, is_admin BOOLEAN NOT NULL DEFAULT FALSE, created_at TIMESTAMP DEFAULT CURRENT_TIMESTAMP)"
    ∷ "CREATE INDEX IF NOT EXISTS idx_tokens_key_hash ON tokens(key_hash)"
    ∷ "CREATE TABLE IF NOT EXISTS permissions (id INTEGER PRIMARY KEY AUTOINCREMENT, token_id INTEGER NOT NULL, zone_id INTEGER NOT NULL, allowed_actions TEXT NOT NULL, record_types TEXT NOT NULL, created_at TIMESTAMP DEFAULT CURRENT_TIMESTAMP, FOREIGN KEY (token_id) REFERENCES tokens(id) ON DELETE CASCADE)"
    ∷ "CREATE INDEX IF NOT EXISTS idx_permissions_token_id ON permissions(token_id)" ∷ []

module _ {D : Type 0} (driver : Driver D) where
  abbrev pub exec : String → Handle D → Bool × Handle D
  exec stmt h =
      let (is_ok, conn) = driver.run stmt h.conn in
      (is_ok, record { conn = conn; trace = ran stmt is_ok ∷ h.trace })

  -- `if _, err := db.Exec(stmt); err != nil { … }`, then the rest.
  abbrev pub exec_then : {A : Type 0} → String → (Handle D → A) → (Handle D → A) → Handle D → A
  exec_then stmt fails rest h = let (is_ok, h') = exec stmt h in if is_ok then rest h' else fails h'

  abbrev pub each_ddl : {A : Type 0} → List String → (Handle D → A) → (Handle D → A) → Handle D → A
  each_ddl [] fails rest h = rest h
  each_ddl (stmt ∷ stmts) fails rest h = exec_then stmt fails (each_ddl stmts fails rest) h

  -- InitSchema
  unfoldable pub init_schema : {A : Type 0} → (Handle D → A) → (Handle D → A) → Handle D → A
  init_schema fails rest = exec_then foreign_keys fails (each_ddl ddl_statements fails rest)

  abbrev pub close_handle : Handle D → Bool × Handle D
  close_handle h =
      let (is_ok, conn) = driver.close_conn h.conn in
      (is_ok, record { conn = conn; trace = closed ∷ h.trace })

  abbrev pub close_with : OpenError → Handle D → Opened D
  close_with e h = refused e (some (close_handle h).1)

  abbrev pub set_max_open_conns : ℕ → Handle D → Handle D
  set_max_open_conns n h = record h { trace = limited n ∷ h.trace }

  -- New
  unfoldable pub new : String → Opened D
  unfolding init_schema
  new path = elim (driver.open_file path) [
    | none ↦ refused open_failed none
    | some conn ↦
        init_schema (close_with schema_failed)
          (exec_then "PRAGMA journal_mode = WAL" (close_with wal_failed) (
            exec_then "PRAGMA busy_timeout = 5000" (close_with busy_timeout_failed) (
              exec_then "PRAGMA mmap_size = 0" (close_with mmap_failed) λ h.
                exec_then foreign_keys (close_with foreign_keys_failed) opened
                  (set_max_open_conns 1 h))))
          (record { conn = conn; trace = [] })
  ]

  -- Close; `none` is a nil handle. Whether it succeeds.
  unfoldable pub close : Option (Handle D) → Bool × Option (Handle D)
  close none = (true, none)
  close (some h) = let (is_ok, h') = close_handle h in (is_ok, some h')

  -- Ping: whether it succeeds.
  unfoldable pub ping : Handle D → Bool × Handle D
  ping h =
      let (answer, conn) = driver.select_one h.conn in
      let h' = record h { conn = conn } in
      elim answer [ none ↦ (false, h') | some result ↦ (result ==ℤ pos 1, h') ]
