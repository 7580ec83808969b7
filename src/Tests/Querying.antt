-- ===== src/Tests/Querying.antt =====
-- The database client at a server that accepts every statement.
use Prim.Native.Char.{Char}
use ha.Base.{String, ◌≡◌, refl, true, none, List, [], ◌∷◌}
use ha.Exec.{Result, ok}
use ha.Model.{AgentNodeConfig, MySqlNodeConfig}
use ha.Mysql.{Db, status, reconfigure_replica, change_source}
use ha.Mysql.Text.{split_address}
use ha.Mysql.Quoting.{Place, literals, PlainEscapes}
use ha.Mysql.Injection.{literals-change_source}
use ha.Mysql.Statements.{noting, Follows, reconfigure_statements}
use ha.Base.Int.{pos}
use ha.Mysql.Soundness.{IsSound, status-IsSound}

abbrev config : MySqlNodeConfig
config = record {
  id = "b";
  address = "b:3306";
  dsn = "";
  replication_user = "repl";
  replication_pass = "it's";
}

abbrev source : AgentNodeConfig
source = record { id = "a"; address = "db-a:3307"; agent_url = "" }

abbrev db : Db (List String)
db = record {
  ping = λ w. (ok tt, w);
  exec = λ q w. (ok tt, w);
  globals = λ w. (ok (record { server_uuid = "u"; read_only = true; super_read_only = true }), w);
  gtid_executed = λ w. (ok "g", w);
  wait_for_executed_gtid_set = λ g t w. (ok none, w);
  query_row = λ q w. (ok (ok none), w);
  now = λ w. (0, w);
}

abbrev accept : String → List String → Result (Unit {0})
accept query sent = ok tt

-- A backslash escapes every character to itself.
abbrev plain : Char → String
plain c = String.◌∷◌ c ""

plain-PlainEscapes : PlainEscapes plain
plain-PlainEscapes c h = refl

literals-change_source_example :
    literals plain Place.outside (change_source config source)
    ≡ (split_address source.address).0 ∷ config.replication_user ∷ config.replication_pass ∷ []
literals-change_source_example = literals-change_source plain plain-PlainEscapes config source

reconfigure_statements_example :
    Follows
      ("SET GLOBAL read_only = ON"
        ∷ "SET GLOBAL super_read_only = ON"
        ∷ "START REPLICA"
        ∷ change_source config source
        ∷ "RESET REPLICA ALL"
        ∷ "STOP REPLICA"
        ∷ [])
      (reconfigure_replica config (noting accept db) source [])
reconfigure_statements_example = reconfigure_statements config db accept source

status-IsSound_example :
    IsSound
      (db.ping (db.now []).1).0
      (db.globals (db.ping (db.now []).1).1).0
      (status config db []).0
status-IsSound_example = status-IsSound config db []

-- `splitAddress` on a host with a port, and without.
split_address_test : split_address "db-a:3307" ≡ ("db-a", pos 3307)
unfolding split_address
split_address_test = refl
