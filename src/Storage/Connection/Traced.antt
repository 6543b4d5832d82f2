-- ===== src/Storage/Connection/Traced.antt =====
-- What `New` of internal/storage/config.go has done to the database when it returns.
use bunny_api_proxy.Base.{
  String, ◌≡◌, refl, ap, true, false, Option, none, some, List, [], ◌∷◌, ◌++◌, inl, inr, Bool-cases,
  Option-cases, take,
}
use bunny_api_proxy.Storage.Connection.{
  Driver, Event, ran, limited, closed, Handle, OpenError, open_failed, Opened, opened, refused,
  foreign_keys, ddl_statements, schema_failed, wal_failed, busy_timeout_failed, mmap_failed,
  foreign_keys_failed, exec_then, init_schema, close_with, set_max_open_conns, new,
}

-- The statements succeed one by one, put in front of what was done before.
abbrev ran_after : List String → List Event → List Event
ran_after [] trace = trace
ran_after (stmt ∷ stmts) trace = ran_after stmts (ran stmt true ∷ trace)

-- All that `New` does where everything succeeds, the last first.
abbrev pub set_up : List Event
set_up =
    ran foreign_keys true
    ∷ limited 1
    ∷ ran "PRAGMA mmap_size = 0" true
    ∷ ran "PRAGMA busy_timeout = 5000" true
    ∷ ran "PRAGMA journal_mode = WAL" true
    ∷ ran_after ddl_statements (ran foreign_keys true ∷ [])

-- The error for a statement that fails, by what is not reached behind it.
abbrev pub error_before : List Event → OpenError
error_before [] = foreign_keys_failed
error_before (_ ∷ []) = foreign_keys_failed
error_before (_ ∷ _ ∷ []) = mmap_failed
error_before (_ ∷ _ ∷ _ ∷ []) = busy_timeout_failed
error_before (_ ∷ _ ∷ _ ∷ _ ∷ []) = wal_failed
error_before (_ ∷ _ ∷ _ ∷ _ ∷ _ ∷ missing) = schema_failed

-- The handle was closed right behind the one statement that failed, and those before had succeeded.
pub record IsAborted {D : Type 0} (e : OpenError) (h : Handle D) : Type 0 where
  pub missing : List Event
  pub before : List Event
  pub stmt : String
  pub trace : h.trace ≡ closed ∷ ran stmt false ∷ before
  pub reached : missing ++ (ran stmt true ∷ before) ≡ set_up
  pub error : e ≡ error_before missing

-- An open storage is set up in full, every statement having succeeded. An error is that of the file
-- that was not opened, or of the statement that failed, behind which the handle was closed.
abbrev pub IsSetUp : {D : Type 0} → Option D → Opened D → Type 0
IsSetUp file (opened h) = h.trace ≡ set_up
IsSetUp file (refused e none) = (file ≡ none) × (e ≡ open_failed)
IsSetUp file (refused e (some h)) = IsAborted e h

module _ {D : Type 0} (driver : Driver D) (file : Option D) where
  -- The rest of `New`, behind what was done so far.
  abbrev IsSetUpFrom : List Event → (Handle D → Opened D) → Type 0
  IsSetUpFrom trace rest = (h : Handle D) → h.trace ≡ trace → IsSetUp file (rest h)

  exec_then-IsSetUpFrom :
      (missing trace : List Event) (stmt : String) (e : OpenError) (rest : Handle D → Opened D)
      → missing ++ (ran stmt true ∷ trace) ≡ set_up
      → e ≡ error_before missing
      → IsSetUpFrom (ran stmt true ∷ trace) rest
      → IsSetUpFrom trace (exec_then driver stmt (close_with driver e) rest)
  exec_then-IsSetUpFrom missing trace stmt e rest left names go h t =
      elim (Bool-cases (driver.run stmt h.conn).0) [
        | inl worked ↦ rw (worked, exec_then) (go _ (ap (λ l. ran stmt true ∷ l) t))
        | inr failed ↦
            rw (failed, exec_then)
              (record {
                missing = missing;
                before = trace;
                stmt = stmt;
                trace = ap (λ l. closed ∷ ran stmt false ∷ l) t;
                reached = left;
                error = names;
              })
      ]

-- From the open file on.
abbrev prepared : {D : Type 0} → Driver D → D → Opened D
prepared driver conn =
    init_schema driver (close_with driver schema_failed)
      (exec_then driver "PRAGMA journal_mode = WAL" (close_with driver wal_failed) (
        exec_then driver "PRAGMA busy_timeout = 5000" (close_with driver busy_timeout_failed) (
          exec_then driver "PRAGMA mmap_size = 0" (close_with driver mmap_failed) λ h.
            exec_then driver foreign_keys (close_with driver foreign_keys_failed) opened
              (set_max_open_conns driver 1 h))))
      (record { conn = conn; trace = [] })

prepared-IsSetUp :
    {D : Type 0} (driver : Driver D) (file : Option D) (conn : D)
    → IsSetUp file (prepared driver conn)
unfolding init_schema
prepared-IsSetUp driver file conn =
    exec_then-IsSetUpFrom driver file (take 10 set_up) _ foreign_keys schema_failed _ refl refl
      (exec_then-IsSetUpFrom driver file (take 9 set_up) _ _ schema_failed _ refl refl (
        exec_then-IsSetUpFrom driver file (take 8 set_up) _ _ schema_failed _ refl refl (
          exec_then-IsSetUpFrom driver file (take 7 set_up) _ _ schema_failed _ refl refl (
            exec_then-IsSetUpFrom driver file (take 6 set_up) _ _ schema_failed _ refl refl (
              exec_then-IsSetUpFrom driver file (take 5 set_up) _ _ schema_failed _ refl refl (
                exec_then-IsSetUpFrom driver file (take 4 set_up) _ "PRAGMA journal_mode = WAL"
                  wal_failed _ refl refl
                  (exec_then-IsSetUpFrom driver file (take 3 set_up) _ "PRAGMA busy_timeout = 5000"
                    busy_timeout_failed _ refl refl
                    (exec_then-IsSetUpFrom driver file (take 2 set_up) _ "PRAGMA mmap_size = 0"
                      mmap_failed
                      (λ h.
                        exec_then driver foreign_keys (close_with driver foreign_keys_failed) opened
                          (set_max_open_conns driver 1 h))
                      refl refl
                      (λ h t.
                        exec_then-IsSetUpFrom driver file [] _ foreign_keys foreign_keys_failed
                          opened refl refl (λ h' t'. t') (set_max_open_conns driver 1 h)
                          (ap (λ l. limited 1 ∷ l) t))))))))))
      _ refl

-- `New` returns a storage only when every statement of the schema and every pragma has succeeded, in
-- their order, with the limit to one connection set before foreign keys are switched on. The first one
-- that fails is the last that is run: `New` returns the error that stands for it, and has closed the
-- handle.
pub new-IsSetUp :
    {D : Type 0} (driver : Driver D) (path : String)
    → IsSetUp (driver.open_file path) (new driver path)
unfolding new init_schema
new-IsSetUp driver path = elim (Option-cases (driver.open_file path)) [
  | inl e ↦ rw (e, new) (refl, refl)
  | inr (conn, e) ↦ rw (e, new) (prepared-IsSetUp driver (some conn) conn)
]
