-- ===== src/Config.antt =====
-- internal/config/config.go, over the environment as a function.
use bunny_api_proxy.Base.{String, ◌==◌, Option, none, some, if◌then◌else◌}

pub record Config : Type 0 where
  pub log_level : String
  pub listen_addr : String
  pub database_path : String
  pub bunny_api_url : String
  pub bunny_api_key : String
  pub metrics_listen_addr : String

abbrev pub or_default : String → String → String
or_default given default = if given == "" then default else given

-- Load; `getenv` gives the empty text for a variable that is not set.
unfoldable pub load : (getenv : String → String) → Config
load getenv = record {
  log_level = or_default (getenv "LOG_LEVEL") "info";
  listen_addr = or_default (getenv "LISTEN_ADDR") ":8080";
  database_path = or_default (getenv "DATABASE_PATH") "/data/proxy.db";
  bunny_api_url = getenv "BUNNY_API_URL";
  bunny_api_key = getenv "BUNNY_API_KEY";
  metrics_listen_addr = or_default (getenv "METRICS_LISTEN_ADDR") "localhost:9090";
}

-- Validate; `some` is an error.
unfoldable pub validate : Config → Option String
validate c =
    if c.bunny_api_key == "" then some "BUNNY_API_KEY environment variable is required" else none
