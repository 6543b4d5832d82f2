-- ===== src/Storage/Db.antt =====
-- The database behind `SQLiteStorage`: the two tables of internal/storage/schema.go as lists of
-- rows in insertion order, with SQLite's counters for AUTOINCREMENT and its clock. A column of
-- JSON text stands as the list of strings that it encodes. How the driver answers each statement
-- is the environment's choice: the list `outcomes`, one for a statement, all `works` from its end.
use bunny_api_proxy.Base.{ℕ, List, [], ◌∷◌, ◌≡◌, refl, ◌⊎◌, inl, inr}
use bunny_api_proxy.Storage.Types.{Time, Token, Permission, failed, Result, err}

-- `exec_fails`: the statement changes nothing and returns an error. `result_fails`: it is carried
-- out, and then `LastInsertId` or `RowsAffected` returns an error.
pub data Outcome : Type 0 where
  works exec_fails result_fails : Outcome

pub record Db : Type 0 where
  pub tokens : List Token
  pub permissions : List Permission
  pub token_seq : ℕ
  pub permission_seq : ℕ
  pub now : Time
  pub outcomes : List Outcome

-- The store after `InitSchema` on an empty file.
abbrev pub empty : Db
empty = record {
  tokens = [];
  permissions = [];
  token_seq = 0;
  permission_seq = 0;
  now = 0;
  outcomes = [];
}

abbrev pub head_outcome : List Outcome → Outcome
head_outcome [] = works
head_outcome (o ∷ os) = o

abbrev pub tail_outcome : List Outcome → List Outcome
tail_outcome [] = []
tail_outcome (o ∷ os) = os

-- How the driver answers the next statement, and the database that waits for the one after.
abbrev pub next : Db → Outcome
next db = head_outcome db.outcomes

abbrev pub advance : Db → Db
advance db = record db { outcomes = tail_outcome db.outcomes }

abbrev pub Op {ℓ} : Type ℓ → Type ℓ
Op A = Db → Result A × Db

-- A query that reads `f`; every failure on its way is an error that callers cannot tell apart.
abbrev pub query {ℓ} : {A : Type ℓ} → (Db → Result A) → Op A
query f db = elim (next db) [ works ↦ (f db, advance db) | _ ↦ (err failed, advance db) ]

pub Outcome-cases : (o : Outcome) → (o ≡ works) ⊎ ((o ≡ exec_fails) ⊎ (o ≡ result_fails))
Outcome-cases works = inl refl
Outcome-cases exec_fails = inr (inl refl)
Outcome-cases result_fails = inr (inr refl)
