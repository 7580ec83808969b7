-- ===== src/Tests/Starting.antt =====
-- A controller that starts where etcd refuses the connection.
use ha.Base.{String, ◌≡◌, refl, List, [], ◌∷◌, ◌==◌, str_dec, if◌then◌else◌}
use ha.Base.Parsing.{parse_bool}
use ha.Exec.{Result, ok, err, Exec, continue, require, map_err}
use ha.Config.Load.{
  Environment, load, raw_nodes, decode_nodes, with_nodes, initial_config, endpoints_of, items, env,
  value_or,
}
use ha.Store.Memory.{new_memory_store}
use ha.Store.Etcd.Open.{new_etcd_store}
use ha.Agent.Client.{new_client}
use ha.Controller.{Controller}
use ha.Controller.Switch.{has_client}
use ha.Controller.Setup.{new_controller, add_nodes, bare_controller, with_client, add_client}
use ha.Programs.{Backing, choose_store, start_controller}
use ha.Programs.Started.{IsStarted, start_controller-IsStarted}
use ha.Tests.SimulatedEtcd.{Sim, client}
use ha.Tests.Etcd.{formats, started}
use ha.Tests.Leading.{tls}

abbrev quote : String → String
quote s = s

abbrev with_agents : Environment
with_agents = record {
  getenv = λ key. if key == "HA_AGENTS_JSON" then "agents" else "";
  machine_name = ok "controller-1";
  read_file = λ path. err "no file";
  parse_duration = λ text. err "no duration";
  unmarshal_nodes =
      λ text. ok (record { id = "a"; address = "10.0.0.1"; agent_url = "https://a" } ∷ []);
}

abbrev refuse : List String → Exec Sim (Unit {0})
refuse endpoints w = (err "connection refused", w)

abbrev start : Result (Backing Sim × Controller) × Sim
start = start_controller with_agents tls quote client formats (λ w. w) refuse started.world

abbrev backing_of : Result (Backing Sim × Controller) → Backing Sim
backing_of (ok pair) = pair.0
backing_of (err e) = Backing.in_memory (new_memory_store "")

abbrev controller_of : Result (Backing Sim × Controller) → Controller
controller_of (ok pair) = pair.1
controller_of (err e) = bare_controller (initial_config with_agents)

starts : start ≡ (ok (backing_of start.0, controller_of start.0), start.1)
unfolding start_controller load raw_nodes decode_nodes with_nodes initial_config endpoints_of items
    env value_or new_etcd_store choose_store new_controller add_nodes bare_controller with_client
    add_client has_client new_client continue require map_err str_dec parse_bool
starts = refl

start_controller-IsStarted_example :
    IsStarted client formats with_agents (backing_of start.0) (controller_of start.0)
start_controller-IsStarted_example =
    start_controller-IsStarted with_agents tls quote client formats (λ w. w) refuse
      (backing_of start.0) (controller_of start.0) started.world start.1 starts
