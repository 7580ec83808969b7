-- ===== src/Config/Load/Required.antt =====
-- The variables that `LoadAgent` requires (internal/config/config.go).
use ha.Base.{◌≡◌, ◌≢◌, ◌↔◌, arith}
use ha.Exec.{ok}
use ha.Config.Load.{Environment, initial_agent_config, lacks_required, load_agent}

-- `LoadAgent` gives the configuration that it reads exactly where none of the five required variables is empty.
pub load_agent_iff :
    (environment : Environment)
    → (load_agent environment ≡ ok (initial_agent_config environment)) ↔ (
        (environment.getenv "HA_NODE_ID" ≢ "")
        × (environment.getenv "HA_NODE_ADDRESS" ≢ "")
        × (environment.getenv "HA_MYSQL_DSN" ≢ "")
        × (environment.getenv "HA_REPLICATION_USER" ≢ "")
        × (environment.getenv "HA_REPLICATION_PASSWORD" ≢ ""))
unfolding load_agent lacks_required initial_agent_config
load_agent_iff environment = ground arith
