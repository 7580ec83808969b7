-- ===== src/Tests/Leading.antt =====
-- A controller that is set up, leads and is asked over its API.
use ha.Base.{◌∙◌, sym, arith, ◌≤◌, refl, String, ◌≡◌, ap, true, false, [], ◌∷◌, str_dec, none}
use ha.Config.{Config}
use ha.Agent.Client.{Tls, new_client}
use ha.Tests.Cluster.{config, task, Sim, sim, two_nodes, cluster_of, lift_release, value}
use ha.Controller.Switchover.{
  set_auto_failover, guarded_switch, resolve_target, locked_switch, registered_task, close_task,
  run_task, is_dry_run, switch,
}
use ha.Controller.Switchover.AutoFailover.{Reads, FlagSet, set_auto_failover-FlagSet}
use ha.Model.{ClusterState}
use ha.Controller.{Controller, leader_bound_context, noop_fence, noop_set_primary}
use ha.Controller.Setup.{
  IsSetUp, new_controller, new_controller-IsSetUp, add_nodes, bare_controller, with_client,
  add_client,
}
use ha.Controller.Switch.{
  Switched, has_client, candidate_eligible, settle, complete_task, execute_switch,
  fence_old_primary, promote_target, persist_primary, reconfigure_replicas,
}
use ha.Controller.Switchover.Completed.{switch-Fate}
use ha.Controller.Switchover.Advanced.{Fate}
use ha.Store.Memory.{
  acquire_switch_lock, acquire_lock, get_cluster, put_task, put_cluster_if_epoch, MemoryStore,
}
use ha.Exec.{continue, require, map_err, Result, Result, ok, err}
use ha.Store.Cas.{OnlyCluster, Swaps, memory-Swaps}
use ha.Controller.Onward.{Onward}
use ha.Controller.Leading.{run_as_leader, run_as_leader_refuses}
use ha.Api.{switchover}
use ha.Api.Codes.{Outcome, switchover-Outcome}

abbrev quote : String → String
quote s = s

run_as_leader_refuses_example :
    (switch sim quote "b" false (run_as_leader sim quote 1 ((λ w. w) ∷ []) two_nodes).1 ≡ (
      err "controller is not the Etcd leader",
      (run_as_leader sim quote 1 ((λ w. w) ∷ []) two_nodes).1,
    ))
    × (set_auto_failover sim true (run_as_leader sim quote 1 ((λ w. w) ∷ []) two_nodes).1 ≡ (
      err "controller is not the Etcd leader",
      (run_as_leader sim quote 1 ((λ w. w) ∷ []) two_nodes).1,
    ))
run_as_leader_refuses_example =
    run_as_leader_refuses sim quote 1 ((λ w. w) ∷ []) two_nodes "b" false true

-- The conditional write of the simulation is that of the memory store.
abbrev Later : Sim → Sim → Type 0
Later v w = v.time ≤ w.time

abbrev Next : Sim → Sim → Type 0
Next v w = OnlyCluster v.store w.store

abbrev held : Sim → Result ClusterState
held w = ok (cluster_of w)

released_later :
    (r : Result (MemoryStore → MemoryStore)) (v : Sim) → (value (lift_release r) v).time ≡ v.time
released_later (ok f) v = refl
released_later (err e) v = refl

-- A release that a lock of the memory store gave leaves the time.
lock_later :
    (r : Result (MemoryStore → MemoryStore)) (s : MemoryStore) (w w' : Sim) (release : Sim → Sim)
    → ◌≡◌ {A = Result (Sim → Sim) × Sim} (lift_release r, record w { store = s }) (ok release, w')
    → (u v : Sim) → Later u v
    → Later u (release v)
lock_later r s w w' release got u v h =
    let same : v.time ≡ (release v).time =
      sym (released_later r v) ∙ ap (λ (o : Result (Sim → Sim) × Sim). (value o.0 v).time) got in
    omega (arith, same, h)

sim-Onward : Onward sim Later
unfolding noop_fence noop_set_primary get_cluster
sim-Onward = record {
  now_or_later = λ w. omega arith;
  later = λ u v w a b. omega (arith, a, b);
  frame = λ u. record {
    now = λ w h. omega (arith, h);
    observe = λ m w h. h;
    post = λ url p w h. h;
    put_task = λ t w h. h;
    fence = λ id w h. h;
    set_primary = λ id w h. h;
    acquire = λ holder ttl a w h. h;
    release = λ holder ttl a w got v h. lock_later _ _ w _ _ got u v h;
  };
  get_cluster = λ u w h. h;
  put_cluster = λ n c u w h. h;
  acquire_lock = λ holder ttl u w h. h;
  release_lock = λ holder ttl w got u v h. lock_later _ _ w _ _ got u v h;
  status = λ id u w h. h;
  executed_gtid = λ id u w h. h;
  wait_for_gtid = λ id g a u w h. h;
  demote = λ id a u w h. h;
  promote = λ id a u w h. h;
  reconfigure_replica = λ id a c u w h. h;
}

sim-Swaps : Swaps Next Later held sim.store.put_cluster_if_epoch
sim-Swaps expected state w w' h =
    let m =
      memory-Swaps expected state w.store w'.store
        (ap (λ (o : Result (Unit {0}) × Sim). (o.0, o.1.store)) h) in
    record {
      before = record w { store = m.before };
      after = record w { store = m.after };
      seen = m.seen;
      since = omega arith;
      at_once = m.at_once;
      until = omega (arith, ap (λ (o : Result (Unit {0}) × Sim). o.1.time) h);
      reads = m.reads;
      epoch = m.epoch;
      holds = m.holds;
    }

switchover-Outcome_example :
    Outcome sim quote Next Later held sim-Onward sim-Swaps two_nodes
      (switchover sim quote (ok "b") two_nodes)
switchover-Outcome_example =
    switchover-Outcome sim quote Next Later held sim-Onward sim-Swaps (ok "b") two_nodes

-- A configuration with one node, whose files hold what they must.
abbrev one_node : Config
one_node = record config {
  nodes = record { id = "a"; address = "10.0.0.1"; agent_url = "https://a" } ∷ [];
}

abbrev pub tls : Tls
tls = record {
  read_file = λ path. ok "certificate";
  has_certificates = λ text. true;
  load_key_pair = λ cert key. ok tt;
}

abbrev set_up : Controller
set_up = record (bare_controller one_node) {
  clients = "a" ∷ [];
  configs = ("a", record { id = "a"; address = "10.0.0.1"; agent_url = "https://a" }) ∷ [];
}

sets_up : new_controller tls quote one_node false ≡ (ok set_up, false)
unfolding new_controller add_nodes bare_controller with_client add_client new_client require
    continue str_dec map_err has_client
sets_up = refl

set_up_a : has_client "a" set_up.clients ≡ true
unfolding has_client str_dec
set_up_a = refl

new_controller-IsSetUp_example : IsSetUp set_up "a"
new_controller-IsSetUp_example =
    new_controller-IsSetUp tls quote one_node set_up false false sets_up "a" set_up_a

abbrev nothing_done : Switched
nothing_done = record { task = task; error = none }

abbrev taken : Result Switched → Switched
taken (ok switched) = switched
taken (err e) = nothing_done

abbrev b_done : Switched
b_done = taken (switch sim quote "b" false two_nodes).0

switches :
    switch sim quote "b" false two_nodes ≡ (ok b_done, (switch sim quote "b" false two_nodes).1)
unfolding switch guarded_switch resolve_target has_client locked_switch registered_task close_task
    run_task settle complete_task leader_bound_context acquire_switch_lock acquire_lock get_cluster
    require continue str_dec candidate_eligible is_dry_run put_task
switches = refl

has_no_error : b_done.error ≡ none
unfolding switch guarded_switch resolve_target has_client locked_switch registered_task close_task
    run_task settle complete_task leader_bound_context acquire_switch_lock acquire_lock get_cluster
    require continue str_dec candidate_eligible is_dry_run put_task execute_switch fence_old_primary
    noop_fence map_err promote_target persist_primary put_cluster_if_epoch noop_set_primary
    reconfigure_replicas
has_no_error = refl

switch-Fate_example :
    Fate sim Next Later held b_done.task two_nodes.world
      (switch sim quote "b" false two_nodes).1.world
switch-Fate_example =
    switch-Fate sim Next Later held sim-Onward sim-Swaps quote "b" false two_nodes
      (switch sim quote "b" false two_nodes).1 b_done switches has_no_error

reads : Reads sim Next Later held
unfolding get_cluster
reads w w' c h = (
  w,
  omega arith,
  omega (arith, ap (λ (o : Result ClusterState × Sim). o.1.time) h),
  ap (λ (o : Result ClusterState × Sim). o.0) h,
)

flags : set_auto_failover sim true two_nodes ≡ (ok tt, (set_auto_failover sim true two_nodes).1)
unfolding set_auto_failover leader_bound_context acquire_lock get_cluster put_cluster_if_epoch
    require continue
flags = refl

set_auto_failover-FlagSet_example :
    (two_nodes.ctl.leader ≡ true)
    × FlagSet sim Next Later held true two_nodes.world
        (set_auto_failover sim true two_nodes).1.world
set_auto_failover-FlagSet_example =
    set_auto_failover-FlagSet sim Next Later held sim-Onward reads sim-Swaps true two_nodes
      (set_auto_failover sim true two_nodes).1 flags
