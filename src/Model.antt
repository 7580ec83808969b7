-- ===== src/Model.antt =====
-- The data that the components exchange (internal/model/model.go). Times are nanoseconds since Go's zero
-- `time.Time`, so the zero value is 0; texts are Go's strings as Unicode; a pointer is an `Option`.
use ha.Base.{String, ℕ, ◌≡◌, ◌↔◌, Bool, true, ◌&&◌, Option, arith, eqb, ◌==◌}
use ha.Base.Int.{ℤ}

abbrev pub Time : Type 0
Time = ℕ

-- `type Role string`
abbrev pub Role : Type 0
Role = String

abbrev pub role_unknown : Role
role_unknown = "unknown"

abbrev pub role_primary : Role
role_primary = "primary"

abbrev pub role_replica : Role
role_replica = "replica"

pub record AgentNodeConfig : Type 0 where
  pub id : String
  pub address : String
  pub agent_url : String

pub record MySqlNodeConfig : Type 0 where
  pub id : String
  pub address : String
  pub dsn : String
  pub replication_user : String
  pub replication_pass : String

pub record SwitchAuthorization : Type 0 where
  pub operation_id : String
  pub from_epoch : ℕ  -- uint64
  pub to_epoch : ℕ  -- uint64

pub record ReplicaRequest : Type 0 where
  pub authorization : SwitchAuthorization
  pub source : AgentNodeConfig

pub record OperationRequest : Type 0 where
  pub authorization : SwitchAuthorization

pub record WaitGtidRequest : Type 0 where
  pub authorization : SwitchAuthorization
  pub gtid : String
  pub timeout_seconds : ℤ  -- int

pub record ReplicaStatus : Type 0 where
  pub io_thread_running : Bool
  pub sql_thread_running : Bool
  pub seconds_behind : Option ℤ  -- *int64
  pub last_io_error : String
  pub last_sql_error : String
  pub executed_gtid : String
  pub retrieved_gtid : String

pub record NodeStatus : Type 0 where
  pub node_id : String
  pub address : String
  pub reachable : Bool
  pub healthy : Bool
  pub role : Role
  pub server_uuid : String
  pub read_only : Bool
  pub super_read_only : Bool
  pub replica : Option ReplicaStatus
  pub error : String
  pub checked_at : Time
  pub failure_count : ℤ  -- int

pub record ClusterState : Type 0 where
  pub name : String
  pub primary : String
  pub epoch : ℕ  -- uint64
  pub auto_failover : Bool
  pub updated_at : Time

pub record SwitchTask : Type 0 where
  pub id : String
  pub from : String
  pub to : String
  pub automatic : Bool
  pub dry_run : Bool
  pub state : String
  pub error : String
  pub started_at : Time
  pub finished_at : Time

pub record AlertEvent : Type 0 where
  pub node_id : String
  pub severity : String
  pub title : String
  pub message : String
  pub resolved : Bool
  pub created_at : Time

-- The number of `uint64` values, at which an epoch wraps.
abbrev pub uint64_mod : ℕ
uint64_mod = 18446744073709551616

-- Go's `==` on `SwitchAuthorization`.
unfoldable pub same_authorization : SwitchAuthorization → SwitchAuthorization → Bool
same_authorization a b =
    a.operation_id == b.operation_id && eqb a.from_epoch b.from_epoch && eqb a.to_epoch b.to_epoch

pub same_authorization_iff : (a b : SwitchAuthorization) → (same_authorization a b ≡ true) ↔ (a ≡ b)
unfolding same_authorization
same_authorization_iff a b = ground arith
