-- ===== src/Tests/Arming.antt =====
-- An agent that starts on the simulated etcd, and is asked to demote its node.
use ha.Programs.AlertReceiver.{Event, get_events}
use ha.Programs.AlertReceiver.Kept
use ha.Programs.AlertReceiver.Kept.{served, received, get_events-received}
use ha.Stack.{agent_of}
use ha.Agent.Authorization.{Request, claimed, handle}
use ha.Store.Etcd.{
  etcd_store, verify_switch_operation, get_cluster, cluster_of_entry, next_epoch, active_operation,
  same_operation, Process,
}
use ha.Store.Etcd.Authorized.{Authorized}
use ha.Model.{SwitchAuthorization, same_authorization}
use ha.Programs.MysqlAgent.Authorized.{etcd_of, start_agent-Authorized}
use ha.Tests.SimulatedEtcd.{entry_of, entry, Later, client-Revisions, Sim, client}
use ha.Tests.Cluster.{auth}
use ha.Tests.Etcd.{store, formats, started}
use ha.Agent.{demote_handler, authorize, Body, Response, Server, Wakeup, new_server}
use ha.Config.Load.{
  AgentConfig, Environment, load_agent, initial_agent_config, lacks_required, endpoints_of, items,
  env, value_or,
}
use ha.Base.{
  ◌++◌, [], ◌∷◌, arith, ◌≢◌, String, ◌≡◌, refl, some, none, List, ◌==◌, str_dec, if◌then◌else◌,
}
use ha.Base.Int.{pos}
use ha.Exec.{Result, ok, err, Exec, continue, require}
use ha.Store.Etcd.Open.{new_etcd_store, reach_any}
use ha.Mysql.{Db}
use ha.Mysql
use ha.Programs.MysqlAgent.{start_agent}
use ha.Tests.Leading.{tls}

abbrev agent_variables : Environment
agent_variables = record {
  getenv = λ key.
      if key == "HA_CLUSTER_NAME" then "c" else if key == "HA_ETCD_ENDPOINTS" then "e" else "given";
  machine_name = ok "node-1";
  read_file = λ path. err "no file";
  parse_duration = λ text. err "no duration";
  unmarshal_nodes = λ text. err "no nodes";
}

-- A server that does what it is told.
abbrev obedient : Db (Process Sim)
obedient = record {
  ping = λ w. (ok tt, w);
  exec = λ query w. (ok tt, w);
  globals = λ w. (err "no row", w);
  gtid_executed = λ w. (ok "g", w);
  wait_for_executed_gtid_set = λ set timeout w. (ok (some (pos 0)), w);
  query_row = λ query w. (ok (ok none), w);
  now = λ w. (0, w);
}

abbrev dial : List String → Exec Sim (Unit {0})
dial endpoints w = (ok tt, w)

abbrev open_dsn : String → Exec (Process Sim) (Db (Process Sim))
open_dsn dsn p = (ok obedient, p)

abbrev ticking : Process Sim → Wakeup × Process Sim
ticking p = (Wakeup.tick, p)

abbrev armed : Result (Server (Process Sim)) × Process Sim
armed = start_agent agent_variables tls open_dsn client formats (λ w. w) dial ticking started

abbrev server_of : Result (Server (Process Sim)) → Server (Process Sim)
server_of (ok server) = server
server_of (err e) =
    agent_of
      (record { id = ""; address = ""; dsn = ""; replication_user = ""; replication_pass = "" })
      obedient (etcd_store store) ticking

arms : armed ≡ (ok (server_of armed.0), armed.1)
unfolding start_agent load_agent initial_agent_config lacks_required endpoints_of items env value_or
    new_etcd_store reach_any Mysql.new_client new_server continue require str_dec
arms = refl

abbrev demotion : Request
demotion = Request.demote (ok (record { authorization = auth }))

abbrev demoted : Response
demoted = record { code = 200; body = Body.status "read_only" }

demotes : (handle (server_of armed.0) 0 demotion started).0 ≡ some demoted
unfolding start_agent load_agent initial_agent_config lacks_required endpoints_of items env value_or
    new_etcd_store reach_any Mysql.new_client new_server continue require str_dec handle
    demote_handler authorize verify_switch_operation get_cluster cluster_of_entry next_epoch
    active_operation same_operation same_authorization entry_of Mysql.demote Mysql.set_read_only
demotes = refl

not_bad_request : demoted.code ≢ 400
not_bad_request h = omega (arith, h)

not_forbidden : demoted.code ≢ 403
not_forbidden h = omega (arith, h)

start_agent-Authorized_example :
    (a : SwitchAuthorization) × (claimed demotion ≡ ok a)
    × (cfg : AgentConfig) × (load_agent agent_variables ≡ ok cfg)
    × Authorized
        (etcd_of client formats cfg)
        entry
        Later
        a
        started
        ((server_of armed.0).verify a started).1
start_agent-Authorized_example =
    start_agent-Authorized agent_variables tls open_dsn client formats (λ w. w) dial ticking entry
      Later client-Revisions started armed.1 (server_of armed.0) arms 0 demotion started demoted
      demotes not_bad_request not_forbidden

abbrev alarm : Event
alarm = record { severity = "critical"; title = "t"; message = "m"; at = 0 }

abbrev requests : List Kept.Request
requests =
    Kept.alert (ok alarm) 5
    ∷ Kept.list
    ∷ Kept.alert (err "not JSON") 6
    ∷ Kept.alert (ok alarm) 7
    ∷ []

alerts_kept : (get_events (served requests [])).0 ≡ (200, [] ++ received requests)
alerts_kept = get_events-received requests []
