-- ===== src/Stack.antt =====
-- What stands below the controller, put together: the agent of a node serves its database client
-- (internal/mysql/client.go, internal/agent/server.go), as cmd/mysql-agent/main.go makes it, and the controller
-- reaches it through its client (internal/agent/client.go).
pub mod Writers
pub mod Sending
pub mod Wire
pub mod SingleWriter
pub mod Recorded
use ha.Base.{String, Bool, false, ◌||◌, ◌==◌, if◌then◌else◌}
use ha.Exec.{Result, ok, err}
use ha.Agent.Client.{Http}
use ha.Model.{AgentNodeConfig, MySqlNodeConfig}
use ha.Store.{Store}
use ha.Mysql.{Db}
use ha.Mysql
use ha.Agent.{Operator, Server, Wakeup}

module _ {W : Type 0} where
  -- `*mysql.Client` as the agent's `MySQLOperator`.
  abbrev pub operator_of : MySqlNodeConfig → Db W → Operator W
  operator_of config db = record {
    status = Mysql.status config db;
    executed_gtid = Mysql.executed_gtid config db;
    wait_for_gtid = Mysql.wait_for_gtid config db;
    demote = Mysql.demote config db;
    promote = Mysql.promote config db;
    reconfigure_replica = Mysql.reconfigure_replica config db;
  }

  -- The server of an agent, whose verifier is the store.
  abbrev pub agent_of : MySqlNodeConfig → Db W → Store W → (W → Wakeup × W) → Server W
  agent_of config db store wake = record {
    node_id = config.id;
    db = operator_of config db;
    verify = store.verify_switch_operation;
    wake = wake;
  }

-- What a node consists of: the client that the controller has of it, the configurations of both sides, the database,
-- and the store and the clock of its agent.
pub record Site (W Stream : Type 0) : Type 0 where
  pub http : Http W Stream
  pub node : AgentNodeConfig
  pub config : MySqlNodeConfig
  pub db : Db W
  pub store : Store W
  pub wake : W → Wakeup × W
