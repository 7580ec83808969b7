-- ===== src/Config.antt =====
-- The controller's configuration (internal/config/config.go). A duration is in nanoseconds.
pub mod Load
use ha.Base.{String, Bool, List}
use ha.Base.Int.{ℤ}
use ha.Model.{AgentNodeConfig}

pub record Config : Type 0 where
  pub http_addr : String
  pub cluster_name : String
  pub controller_id : String
  pub etcd_endpoints : List String
  pub nodes : List AgentNodeConfig
  pub agent_ca_file : String
  pub agent_cert_file : String
  pub agent_key_file : String
  pub agents_file : String
  pub probe_interval : ℤ
  pub failure_threshold : ℤ
  pub alert_webhook_url : String
  pub execute_actions : Bool
  pub auto_failover_execute : Bool
  pub require_etcd : Bool
  pub max_replica_lag_seconds : ℤ  -- int64
