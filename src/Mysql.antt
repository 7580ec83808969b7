-- ===== src/Mysql.antt =====
-- The agent's database client (internal/mysql/client.go). The connection is a parameter: what the server
-- answers to a ping, to a statement, and to the queries, whose rows come back as texts.
pub mod Text
pub mod Statements
pub mod Quoting
pub mod Soundness
pub mod Injection
pub mod Skeleton
pub mod Keeps
use ha.Base.{
  String, ◌<>◌, Bool, true, false, not, ◌&&◌, ◌||◌, Option, none, some, List, [], ◌∷◌, is_some,
  if◌then◌else◌, ◌==◌,
}
use ha.Base.Int.{ℤ, pos, eqb_ℤ}
use ha.Base.Decimal.{show_ℤ}
use ha.Base.Map.{Map, lookup, insert}
use ha.Exec.{Result, ok, err, Exec, pure, fail, attempt, of_error, require, ◌>>=◌, ◌>>◌}
use ha.Model.{
  Time, AgentNodeConfig, MySqlNodeConfig, ReplicaStatus, NodeStatus, role_primary, role_replica,
  role_unknown,
}
use ha.Base.Parsing.{parse_int}
use ha.Mysql.Text.{first, quote_sql, split_address, replica_channel_absent}

-- `SELECT @@GLOBAL.server_uuid, @@GLOBAL.read_only, @@GLOBAL.super_read_only`
pub record Globals : Type 0 where
  pub server_uuid : String
  pub read_only : Bool
  pub super_read_only : Bool

-- The first row: its columns in order, `none` for NULL.
abbrev pub Row : Type 0
Row = List (String × Option String)

-- `*sql.DB`. `query_row` fails outside where `QueryContext` fails, and inside where reading the rows does;
-- `none` is an empty result.
pub record Db (W : Type 0) : Type 0 where
  pub ping : Exec W (Unit {0})
  pub exec : String → Exec W (Unit {0})
  pub globals : Exec W Globals
  pub gtid_executed : Exec W String
  pub wait_for_executed_gtid_set : String → ℤ → Exec W (Option ℤ)
  pub query_row : String → Exec W (Result (Option Row))
  pub now : W → Time × W

-- `NewClient`: `open` is `sql.Open`, and a client is its configuration and its connection.
unfoldable pub new_client :
    {W : Type 0} → (String → Exec W (Db W)) → MySqlNodeConfig → Exec W (MySqlNodeConfig × Db W)
new_client open_dsn config = do db ← open_dsn config.dsn; pure (config, db)

-- The map that the columns are copied to; NULL is left out.
unfoldable pub fields_of : Row → Map String → Map String
fields_of [] m = m
fields_of ((column, none) ∷ row) m = fields_of row m
fields_of ((column, some value) ∷ row) m = fields_of row (insert column value m)

unfoldable pub field : String → Map String → String
field column m = elim (lookup column m) [ none ↦ "" | some value ↦ value ]

unfoldable pub parse_lag : String → Option ℤ
unfolding parse_int
parse_lag lag = if lag == "" || lag == "NULL" then none else parse_int lag

unfoldable pub replica_of_fields : Map String → ReplicaStatus
unfolding field first parse_lag
replica_of_fields m = record {
  io_thread_running = field "Replica_IO_Running" m == "Yes" || field "Slave_IO_Running" m == "Yes";
  sql_thread_running =
      field "Replica_SQL_Running" m == "Yes" || field "Slave_SQL_Running" m == "Yes";
  last_io_error = field "Last_IO_Error" m;
  last_sql_error = field "Last_SQL_Error" m;
  executed_gtid = first (field "Executed_Gtid_Set" m ∷ field "Exec_Source_Log_Pos" m ∷ []);
  retrieved_gtid = first (field "Retrieved_Gtid_Set" m ∷ field "Retrieved_GTID_Set" m ∷ []);
  seconds_behind =
      parse_lag (first (field "Seconds_Behind_Source" m ∷ field "Seconds_Behind_Master" m ∷ []));
}

unfoldable pub replica_of_row : Result (Option Row) → Result ReplicaStatus
unfolding fields_of replica_of_fields
replica_of_row (err e) = err e
replica_of_row (ok none) = err "replica status is empty"
replica_of_row (ok (some row)) = ok (replica_of_fields (fields_of row []))

-- `replica.SecondsBehind != nil` with both threads running.
unfoldable pub replica_healthy : ReplicaStatus → Bool
replica_healthy r = r.io_thread_running && r.sql_thread_running && is_some r.seconds_behind

-- The status before anything was asked.
unfoldable pub initial_status : MySqlNodeConfig → Time → NodeStatus
initial_status config now = record {
  node_id = config.id;
  address = config.address;
  reachable = false;
  healthy = false;
  role = role_unknown;
  server_uuid = "";
  read_only = false;
  super_read_only = false;
  replica = none;
  error = "";
  checked_at = now;
  failure_count = pos 0;
}

unfoldable pub with_replica : NodeStatus → Result ReplicaStatus → NodeStatus
unfolding replica_healthy
with_replica s (err e) = record s { error = e; role = role_replica }
with_replica s (ok r) = record s {
  role = role_replica;
  replica = some r;
  healthy = replica_healthy r;
}

-- The statement that `ReconfigureReplica` builds.
unfoldable pub change_source : MySqlNodeConfig → AgentNodeConfig → String
unfolding quote_sql split_address show_ℤ
change_source config source =
    let (host, port) = split_address source.address in
    "CHANGE REPLICATION SOURCE TO SOURCE_HOST = '"
    <> (quote_sql host
        <> ("', SOURCE_PORT = "
            <> (show_ℤ port
                <> (", SOURCE_USER = '"
                    <> (quote_sql config.replication_user
                        <> ("', SOURCE_PASSWORD = '"
                            <> (quote_sql config.replication_pass
                                <> "', SOURCE_AUTO_POSITION = 1")))))))

module _ {W : Type 0} (config : MySqlNodeConfig) (db : Db W) where
  -- `replicaStatus`: `SHOW SLAVE STATUS` where the server does not know the other.
  unfoldable pub replica_status : Exec W ReplicaStatus
  unfolding replica_of_row
  replica_status = do
    answer ← attempt (db.query_row "SHOW REPLICA STATUS")
    found ← elim answer as (λ _. Exec W (Result (Option Row))) [
      | ok found ↦ pure found
      | err e ↦ db.query_row "SHOW SLAVE STATUS"
    ]
    λ w. (replica_of_row found, w)

  with_globals : NodeStatus → Result Globals → W → NodeStatus × W
  unfolding with_replica
  with_globals s (err e) w = (record s { error = e }, w)
  with_globals s (ok g) w =
      let known = record s {
        server_uuid = g.server_uuid;
        read_only = g.read_only;
        super_read_only = g.super_read_only;
      } in
      let (r, w') = replica_status w in
      if not g.read_only && not g.super_read_only
      then (record known { role = role_primary; healthy = true }, w)
      else (with_replica known r, w')

  after_ping : NodeStatus → Result (Unit {0}) → W → NodeStatus × W
  unfolding with_globals
  after_ping s (err e) w = (record s { error = e }, w)
  after_ping s (ok done) w =
      let (g, w') = db.globals w in with_globals (record s { reachable = true }) g w'

  -- `Status`
  unfoldable pub status : W → NodeStatus × W
  unfolding initial_status after_ping
  status w =
      let (now, w1) = db.now w in
      let (r, w2) = db.ping w1 in after_ping (initial_status config now) r w2

  -- `ExecutedGTID`
  unfoldable pub executed_gtid : Exec W String
  executed_gtid = db.gtid_executed

  -- `WaitForGTID`
  unfoldable pub wait_for_gtid : String → ℤ → Exec W (Unit {0})
  wait_for_gtid set timeout_seconds = do
    require (not (set == "")) "source GTID set is empty"
    timed_out ← db.wait_for_executed_gtid_set set timeout_seconds
    require (elim timed_out [ none ↦ false | some n ↦ eqb_ℤ n (pos 0) ])
        "replica did not catch up to source GTID set"

  -- `SetReadOnly`
  unfoldable pub set_read_only : Bool → Exec W (Unit {0})
  set_read_only read_only = do
    let value = if read_only then "ON" else "OFF"
    db.exec ("SET GLOBAL super_read_only = " <> value)
    db.exec ("SET GLOBAL read_only = " <> value)

  abbrev unless_absent : Result (Unit {0}) → Result (Unit {0})
  unless_absent (ok done) = ok tt
  unless_absent (err e) = if replica_channel_absent e then ok tt else err e

  -- A statement whose error does not count where it says that the channel is absent.
  unfoldable pub exec_on_channel : String → Exec W (Unit {0})
  exec_on_channel query w = let (r, w') = db.exec query w in (unless_absent r, w')

  -- `Promote`
  unfoldable pub promote : Exec W (Unit {0})
  promote = do
    exec_on_channel "STOP REPLICA"
    exec_on_channel "RESET REPLICA ALL"
    set_read_only false

  -- `Demote`
  unfoldable pub demote : Exec W (Unit {0})
  demote = set_read_only true

  -- `ReconfigureReplica`
  unfoldable pub reconfigure_replica : AgentNodeConfig → Exec W (Unit {0})
  reconfigure_replica source = do
    exec_on_channel "STOP REPLICA"
    exec_on_channel "RESET REPLICA ALL"
    require (not (config.replication_user == "" || config.replication_pass == ""))
        "replication credentials are missing"
    db.exec (change_source config source)
    db.exec "START REPLICA"
    set_read_only true
