-- ===== src/Program/Health.antt =====
-- The health checks: main.go's handlers and container check, and those of internal/admin/health.go.
use bunny_api_proxy.Base.{
  ℕ, ℤ, pos, ◌==ℤ◌, ==ℤ_iff, ap, ◌∙◌, Option-cases, String, ◌≡◌, refl, true, false, not, Option,
  none, some, List, [], ◌∷◌, ◌==ℕ◌, if◌then◌else◌, Bool-cases, inl, inr,
}
use bunny_api_proxy.Storage.Connection.{Driver, Handle, ping}

-- A status, and the members of the JSON object in the body.
pub record HealthResponse : Type 0 where
  pub status : ℕ
  pub members : List (String × String)

abbrev pub health_response : ℕ → List (String × String) → HealthResponse
health_response status members = record { status = status; members = members }

unfoldable pub health_handler : HealthResponse
health_handler = health_response 200 (("status", "ok") ∷ [])

-- HandleHealth of the admin API
unfoldable pub handle_health : HealthResponse
handle_health = health_response 200 (("status", "ok") ∷ [])

module _ {D : Type 0} (driver : Driver D) where
  unfoldable pub ready_handler : Handle D → HealthResponse × Handle D
  ready_handler store =
      let (is_ok, store') = ping driver store in
      if not is_ok
      then (
        health_response 503 (("status", "not_ready") ∷ ("error", "database unavailable") ∷ []),
        store',
      )
      else (health_response 200 (("status", "ok") ∷ []), store')

  -- HandleReady of the admin API; `none` is a handler without a storage.
  unfoldable pub handle_ready : Option (Handle D) → HealthResponse × Option (Handle D)
  handle_ready none =
      (health_response 503 (("status", "error") ∷ ("database", "not configured") ∷ []), none)
  handle_ready (some store) =
      let (is_ok, store') = ping driver store in
      if not is_ok
      then (
        health_response 503 (("status", "error") ∷ ("database", "unavailable") ∷ []),
        some store',
      )
      else (health_response 200 (("status", "ok") ∷ ("database", "connected") ∷ []), some store')

-- doHealthCheck on the status of the answer, `none` for a request that fails: the exit code.
unfoldable pub do_health_check : Option ℕ → ℕ
do_health_check none = 1
do_health_check (some status) = if not (status ==ℕ 200) then 1 else 0

-- Whether the database answers 1 to `SELECT 1`.
abbrev pub Answers : {D : Type 0} → Driver D → Handle D → Type 0
Answers driver store = (driver.select_one store.conn).0 ≡ some (pos 1)

ping_sound :
    {D : Type 0} (driver : Driver D) (store : Handle D)
    → (Answers driver store → (ping driver store).0 ≡ true)
      × ((Answers driver store → ⊥) → (ping driver store).0 ≡ false)
unfolding ping
ping_sound driver store = elim (Option-cases (driver.select_one store.conn).0) [
  | inl e ↦ (λ a. absurd (no (rw e at a)), λ n. rw (e, ping) refl)
  | inr (x, e) ↦ (
    λ a.
        let one : some x ≡ some (pos 1) = rw e at a in
        rw (e, ping) ((==ℤ_iff x (pos 1)).1 (same one)),
    λ n. rw (e, ping) (not_one x (λ h. n (e ∙ ap some h))),
  )
]
  where
    no : Path (Option ℤ) none (some (pos 1)) → ⊥
    no e = cc

    same : {x : ℤ} → some x ≡ some (pos 1) → x ≡ pos 1
    same h = cc

    not_one : (x : ℤ) → (x ≡ pos 1 → ⊥) → (x ==ℤ pos 1) ≡ false
    not_one x n = elim (Bool-cases (x ==ℤ pos 1)) [
      | inl e ↦ absurd (n ((==ℤ_iff x (pos 1)).0 e))
      | inr e ↦ e
    ]

-- The two readiness checks, `/ready` and `/admin/ready`, agree: both answer 200 where the database
-- answers 1 to `SELECT 1`, and both answer 503 where it fails or answers anything else.
pub ready_handler-agrees :
    {D : Type 0} (driver : Driver D) (store : Handle D)
    → (Answers driver store
        → ((ready_handler driver store).0.status ≡ 200)
          × ((handle_ready driver (some store)).0.status ≡ 200))
      × ((Answers driver store → ⊥)
          → ((ready_handler driver store).0.status ≡ 503)
            × ((handle_ready driver (some store)).0.status ≡ 503))
unfolding ready_handler handle_ready
ready_handler-agrees driver store =
    let (answers, fails) = ping_sound driver store in
    (
      λ a. (rw (answers a, ready_handler) refl, rw (answers a, handle_ready) refl),
      λ n. (rw (fails n, ready_handler) refl, rw (fails n, handle_ready) refl),
    )
