-- ===== src/Program.antt =====
-- cmd/bunny-api-proxy/main.go and internal/admin/health.go: how the program starts, waits and ends, and
-- its health checks. Log output and the timeouts of the servers are left out.
pub mod Health
pub mod Closes
use bunny_api_proxy.Base.{
  String, ◌==◌, Bool, true, false, not, Option, none, some, List, [], ◌∷◌, ◌++◌, map, if◌then◌else◌,
}
use bunny_api_proxy.Auth.Bootstrap.{BootstrapService, new_bootstrap_service}
use bunny_api_proxy.Bunny.Client.{Client}
use bunny_api_proxy.Config.{Config, load, validate}
use bunny_api_proxy.Storage.Connection.{
  Driver, Event, Handle, OpenError, Opened, opened, refused, new, close,
}

-- What `Init` of internal/metrics returns: nothing, an error for metrics that are registered
-- already, or another error.
pub data MetricsInit : Type 0 where
  registered already_registered malformed : MetricsInit

-- What the `select` of the server receives; a server that stops says whether by `ErrServerClosed`.
pub data Signal : Type 0 where
  main_stopped metrics_stopped : (is_closed : Bool) → Signal
  interrupted : Signal

-- The environment of a run; the last two are whether `Shutdown` succeeds.
pub record World (D : Type 0) : Type 0 where
  pub getenv : String → String
  pub is_level : String → Bool
  pub metrics_init : MetricsInit
  pub driver : Driver D
  pub signal : Signal
  pub main_shuts_down : Bool
  pub metrics_shuts_down : Bool

pub data RunError : Type 0 where
  config_invalid : String → RunError
  log_level_invalid metrics_failed : RunError
  storage_failed : OpenError → RunError
  server_failed metrics_server_failed main_shutdown_failed metrics_shutdown_failed : RunError

pub record Components (D : Type 0) : Type 0 where
  pub store : Handle D
  pub bunny_client : Client
  pub bootstrap_service : BootstrapService

pub data Initialized (D : Type 0) : Type 0 where
  ready : Components D → Initialized D
  -- the handle of a storage that did not open
  failed : RunError → Option (Handle D) → Initialized D

abbrev pub default_base_url : String
default_base_url = "https://api.bunny.net"

-- NewClient with the options that main.go passes.
unfoldable pub client_of : Config → Client
client_of cfg = record {
  base_url = if cfg.bunny_api_url == "" then default_base_url else cfg.bunny_api_url;
  api_key = cfg.bunny_api_key;
}

abbrev pub is_malformed : MetricsInit → Bool
is_malformed malformed = true
is_malformed _ = false

module _ {D : Type 0} (hash : String → String) (w : World D) where
  abbrev pub with_store : Config → Opened D → Initialized D
  with_store cfg (refused e h) = failed (storage_failed e) h
  with_store cfg (opened h) = ready (record {
    store = h;
    bunny_client = client_of cfg;
    bootstrap_service = new_bootstrap_service hash cfg.bunny_api_key;
  })

  unfoldable pub initialize_components : Config → Initialized D
  initialize_components cfg =
      if not (w.is_level cfg.log_level)
      then failed log_level_invalid none
      else if is_malformed w.metrics_init
      then failed metrics_failed none
      else with_store cfg (new w.driver cfg.database_path)

-- What is done to the database, and to the two servers.
pub data Act : Type 0 where
  on_database : Event → Act
  started_metrics started_main shut_down_main shut_down_metrics : Act

abbrev pub shutdown_error : (main_ok metrics_ok : Bool) → Option RunError
shutdown_error main_ok metrics_ok =
    if not main_ok
    then some main_shutdown_failed
    else if not metrics_ok
    then some metrics_shutdown_failed
    else none

-- startServersAndWaitForShutdown, behind what was done before.
unfoldable pub start_servers_and_wait_for_shutdown :
    Signal → (main_ok metrics_ok : Bool) → List Act → Option RunError × List Act
start_servers_and_wait_for_shutdown (main_stopped is_closed) main_ok metrics_ok acts =
    (if not is_closed then some server_failed else none, started_main ∷ acts)
start_servers_and_wait_for_shutdown (metrics_stopped is_closed) main_ok metrics_ok acts =
    (if not is_closed then some metrics_server_failed else none, started_main ∷ acts)
start_servers_and_wait_for_shutdown interrupted main_ok metrics_ok acts =
    (shutdown_error main_ok metrics_ok, shut_down_metrics ∷ shut_down_main ∷ started_main ∷ acts)

-- What is written down in a handle, `none` being nil.
abbrev pub acts_of : {D : Type 0} → Option (Handle D) → List Act
acts_of none = []
acts_of (some h) = map on_database h.trace

-- How a run ends: its error, and what was done to the database and to the servers, the newest first.
pub record Ended : Type 0 where
  pub error : Option RunError
  pub acts : List Act

module _ {D : Type 0} (hash : String → String) (w : World D) where
  -- The deferred `Close` is the last to act; its error is only logged. It begins a trace of its own, so
  -- that the one of the start stands before what the servers do, and what it does behind.
  abbrev pub serve_and_close : Initialized D → Ended
  serve_and_close (failed e h) = record { error = some e; acts = acts_of h }
  serve_and_close (ready c) =
      let (error, acts) =
        start_servers_and_wait_for_shutdown w.signal w.main_shuts_down w.metrics_shuts_down
          (started_metrics ∷ acts_of (some c.store)) in
      let (_, left) = close w.driver (some (record c.store { trace = [] })) in
      record { error = error; acts = acts_of left ++ acts }

  unfoldable pub run : Ended
  unfolding initialize_components start_servers_and_wait_for_shutdown
  run =
      let cfg = load w.getenv in
      elim (validate cfg) [
        | some message ↦ record { error = some (config_invalid message); acts = [] }
        | none ↦ serve_and_close (initialize_components hash w cfg)
      ]
