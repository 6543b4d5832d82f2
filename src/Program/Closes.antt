-- ===== src/Program/Closes.antt =====
-- How a run of cmd/bunny-api-proxy/main.go ends, on every path through `run`.
use bunny_api_proxy.Base.{
  ◌==◌, ◌≡◌, ◌↔◌, Bool, true, false, Option, none, some, List, [], ◌∷◌, ◌++◌, map,
}
use bunny_api_proxy.Config.{Config}
use bunny_api_proxy.Storage.Connection.{closed, Handle, OpenError}
use bunny_api_proxy.Storage.Connection.Traced.{set_up, IsAborted}
use bunny_api_proxy.Program.{
  main_stopped, metrics_stopped, interrupted, World, RunError, storage_failed, Act, on_database,
  started_main, started_metrics, shut_down_main, shut_down_metrics, Ended,
}

-- No handle is open: none was opened, or it was closed right behind a statement that failed, which
-- the run's error stands for.
pub data IsLeftClosed (D : Type 0) (x : RunError) : List Act → Type 0 where
  no_handle : IsLeftClosed D x []
  was_closed :
      (e : OpenError) (h : Handle D)
      → x ≡ storage_failed e
      → IsAborted e h
      → IsLeftClosed D x (map on_database h.trace)

-- What the servers do until the run ends, the newest first, and the run's error: a server stops, or a
-- signal comes, on which the main server is shut down and then the other, whether the first fails or
-- not.
pub data Serving {D : Type 0} (w : World D) (error : Option RunError) : List Act → Type 0 where
  stopped_main :
      (is_closed : Bool)
      → w.signal ≡ main_stopped is_closed
      → ((error ≡ none) ↔ (is_closed ≡ true))
      → Serving w error (started_main ∷ started_metrics ∷ [])
  stopped_metrics :
      (is_closed : Bool)
      → w.signal ≡ metrics_stopped is_closed
      → ((error ≡ none) ↔ (is_closed ≡ true))
      → Serving w error (started_main ∷ started_metrics ∷ [])
  on_signal :
      w.signal ≡ interrupted
      → ((error ≡ none) ↔ ((w.main_shuts_down ≡ true) × (w.metrics_shuts_down ≡ true)))
      → Serving w error (shut_down_metrics ∷ shut_down_main ∷ started_main ∷ started_metrics ∷ [])

-- Either the run stops with an error, no server having been started, and no handle of the database is
-- left open; or the master key is not empty, and in this order the database was set up in full, the
-- servers served, and the database was closed.
pub data IsOrderly {D : Type 0} (w : World D) (e : Ended) : Type 0 where
  not_started : (x : RunError) → e.error ≡ some x → IsLeftClosed D x e.acts → IsOrderly w e
  served :
      (w.getenv "BUNNY_API_KEY" == "") ≡ false
      → (acts : List Act) → Serving w e.error acts
      → e.acts ≡ on_database closed ∷ (acts ++ map on_database set_up)
      → IsOrderly w e
