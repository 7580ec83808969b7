-- ===== src/Programs/MysqlAgent.antt =====
-- The start of an agent (cmd/mysql-agent/main.go), up to its HTTP server; a call of `os.Exit` is an error.
pub mod Authorized
use ha.Base.{String, some, List}
use ha.Exec.{Exec, require, ◌>>=◌, ◌>>◌}
use ha.Model.{MySqlNodeConfig}
use ha.Config.Load.{Environment, AgentConfig, load_agent}
use ha.Store.Etcd.{call, Client, Formats, Process, verify_switch_operation}
use ha.Store.Etcd.Open.{new_etcd_store}
use ha.Mysql.{Db}
use ha.Mysql
use ha.Agent.{Server, Wakeup, new_server}
use ha.Agent.Client.{Tls}
use ha.Stack.{operator_of}

-- The node as its database client knows it.
abbrev pub node_config : AgentConfig → MySqlNodeConfig
node_config cfg = record {
  id = cfg.node_id;
  address = cfg.node_address;
  dsn = cfg.my_sql_dsn;
  replication_user = cfg.replication_user;
  replication_pass = cfg.replication_pass;
}

-- The state is that of the process, whose etcd store works outside of it.
module _ {W : Type 0} (environment : Environment) (tls : Tls)
    (open_dsn : String → Exec (Process W) (Db (Process W))) (client : Client W) (formats : Formats)
    (close : W → W) (dial : List String → Exec W (Unit {0}))
    (wake : Process W → Wakeup × Process W) where
  unfoldable pub start_agent : Exec (Process W) (Server (Process W))
  unfolding load_agent Mysql.new_client new_etcd_store new_server
  start_agent = do
    cfg ← (λ p. (load_agent environment, p))
    ca ← (λ p. (tls.read_file cfg.agent_ca_file, p))
    require (tls.has_certificates ca) "agent CA has no certificates"
    (λ p. (tls.load_key_pair cfg.agent_cert_file cfg.agent_key_file, p))
    (config, db) ← Mysql.new_client open_dsn (node_config cfg)
    store ← call (new_etcd_store client formats close dial cfg.etcd_endpoints cfg.cluster_name)
    λ p. (
      new_server cfg.node_id (some (operator_of config db)) (some (verify_switch_operation store))
          wake,
      p,
    )
