-- ===== src/Tests/Cluster.antt =====
-- A cluster of simulated nodes on a `MemoryStore`: a node is writable or read-only, and never lags.
use ha.Base.{
  String, ℕ, suc, ◌≡◌, refl, ap, ◌∙◌, sym, Bool, true, false, not, none, some, [], ◌∷◌,
  if◌then◌else◌, ◌==◌, arith,
}
use ha.Base.Int.{pos}
use ha.Exec.{Result, ok, err, Exec}
use ha.Model.{
  SwitchTask, SwitchAuthorization, NodeStatus, ReplicaStatus, ClusterState, role_primary,
  role_replica,
}
use ha.Config.{Config}
use ha.Store.{Store}
use ha.Store.Memory
use ha.Store.Memory.{MemoryStore}
use ha.Controller.{Services, Node, State, noop_fence, noop_set_primary}
use ha.Controller.Switchover.SingleWriter.{Surroundings, WriteLaws}

pub record Sim : Type 0 where
  pub store : MemoryStore
  pub writer : String → Bool
  pub time : ℕ

abbrev on_store : {A : Type 0} → Exec MemoryStore A → Exec Sim A
on_store m w = let (r, s) = m w.store in (r, record w { store = s })

abbrev pub lift_release : Result (MemoryStore → MemoryStore) → Result (Sim → Sim)
lift_release (ok f) = ok (λ w. record w { store = f w.store })
lift_release (err e) = err e

abbrev locking : Exec MemoryStore (MemoryStore → MemoryStore) → Exec Sim (Sim → Sim)
locking m w = let (r, s) = m w.store in (lift_release r, record w { store = s })

abbrev pub sim_store : Store Sim
sim_store = record {
  get_cluster = on_store Memory.get_cluster;
  put_cluster = λ c. on_store (Memory.put_cluster c);
  put_cluster_if_epoch = λ n c. on_store (Memory.put_cluster_if_epoch n c);
  acquire_lock = λ h t. locking (Memory.acquire_lock h t);
  acquire_switch_lock = λ h t a. locking (Memory.acquire_switch_lock h t a);
  verify_switch_operation = λ a. on_store (Memory.verify_switch_operation a);
  put_task = λ t. on_store (Memory.put_task t);
  list_tasks = λ n. on_store (Memory.list_tasks n);
}

abbrev pub in_step : ReplicaStatus
in_step = record {
  io_thread_running = true;
  sql_thread_running = true;
  seconds_behind = some (pos 0);
  last_io_error = "";
  last_sql_error = "";
  executed_gtid = "g";
  retrieved_gtid = "g";
}

abbrev pub node_status : String → Bool → NodeStatus
node_status id writable = record {
  node_id = id;
  address = id;
  reachable = true;
  healthy = true;
  role = if writable then role_primary else role_replica;
  server_uuid = id;
  read_only = not writable;
  super_read_only = not writable;
  replica = if writable then none else some in_step;
  error = "";
  checked_at = 0;
  failure_count = pos 0;
}

abbrev pub set_writer : String → Bool → Sim → Sim
set_writer p b w = record w { writer = λ id. if id == p then b else w.writer id }

abbrev sim_node : Node Sim
sim_node = record {
  status = λ id w. (node_status id (w.writer id), w);
  executed_gtid = λ id w. (ok "g", w);
  wait_for_gtid = λ id a g t w. (ok tt, w);
  demote = λ id a w. (ok tt, set_writer id false w);
  promote = λ id a w. (ok tt, set_writer id true w);
  reconfigure_replica = λ id a c w. (ok tt, set_writer id false w);
}

abbrev pub sim : Services Sim
sim = record {
  store = sim_store;
  node = sim_node;
  fence = noop_fence;
  set_primary = noop_set_primary;
  post = λ url p w. (ok 200, w);
  now = λ w. (w.time, record w { time = suc w.time });
  ctx_err = λ n w. none;
  observe = λ m w. w;
}

abbrev pub cluster_of : Sim → ClusterState
cluster_of w = w.store.cluster

abbrev pub writable : Sim → String → Bool
writable w id = w.writer id

abbrev pub value : Result (Sim → Sim) → Sim → Sim
value (ok f) w = f w
value (err e) w = w

abbrev read : Sim → Result ClusterState → ClusterState
read w (ok c) = c
read w (err e) = cluster_of w

pub released :
    (r : Result (MemoryStore → MemoryStore)) (v : Sim) (id : String)
    → (value (lift_release r) v).writer id ≡ v.writer id
released (ok f) v id = refl
released (err e) v id = refl

-- Nothing beside the nodes, whichever they are, makes one of them writable.
pub sim-Surroundings :
    (nodes : Node Sim) → Surroundings (record sim { node = nodes }) writable cluster_of
unfolding noop_fence noop_set_primary Memory.get_cluster
sim-Surroundings nodes = record {
  now = λ w id e. e;
  observe = λ m w id e. e;
  post = λ u p w id e. e;
  put_task = λ t w id e. e;
  fence = λ p w id e. e;
  set_primary = λ p w id e. e;
  acquire = λ h t a w id e. e;
  release = λ h t a w got v id e.
      sym (released (Memory.acquire_switch_lock h t a w.store).0 v id)
      ∙ ap (λ r. (value r.0 v).writer id) got
      ∙ e;
  get_cluster = λ w id e. e;
  get_cluster_reads = λ w e. sym (ap (λ r. read w r.0) e);
  put_cluster = λ x c w id e. e;
}

-- The nodes keep the laws of writing.
pub sim-WriteLaws : WriteLaws sim writable cluster_of
sim-WriteLaws = record {
  surroundings = sim-Surroundings sim_node;
  status = λ i w id e. e;
  status_read_only = λ id w h. ground arith;
  executed_gtid = λ i w id e. e;
  wait_for_gtid = λ i a g w id e. e;
  demote = λ p a w id e. ground arith;
  promote = λ t a w id e other. ground arith;
  reconfigure_replica = λ i a c w id e. ground arith;
}

abbrev pub config : Config
config = record {
  http_addr = ":8080";
  cluster_name = "c";
  controller_id = "k";
  etcd_endpoints = [];
  nodes = [];
  agent_ca_file = "";
  agent_cert_file = "";
  agent_key_file = "";
  agents_file = "";
  probe_interval = pos 1;
  failure_threshold = pos 3;
  alert_webhook_url = "";
  execute_actions = true;
  auto_failover_execute = false;
  require_etcd = false;
  max_replica_lag_seconds = pos 5;
}

-- Node "a" is the primary, "b" follows it.
abbrev pub two_nodes : State Sim
two_nodes = record {
  ctl = record {
    cfg = config;
    clients = "a" ∷ "b" ∷ [];
    configs = [];
    statuses = ("a", node_status "a" true) ∷ ("b", node_status "b" false) ∷ [];
    last_task = none;
    tripping = false;
    last_dry_run_primary = "";
    leader = true;
    alerted_nodes = [];
    leader_ctx = some 0;
  };
  world = record {
    store = record {
      cluster = record {
        name = "c";
        primary = "a";
        epoch = 4;
        auto_failover = false;
        updated_at = 0;
      };
      locked = false;
      tasks = [];
      operation = none;
    };
    writer = λ id. id == "a";
    time = 7;
  };
}

abbrev pub auth : SwitchAuthorization
auth = record { operation_id = "switch-7"; from_epoch = 4; to_epoch = 5 }

abbrev pub task : SwitchTask
task = record {
  id = "switch-7";
  from = "a";
  to = "b";
  automatic = false;
  dry_run = false;
  state = "running";
  error = "";
  started_at = 7;
  finished_at = 0;
}
