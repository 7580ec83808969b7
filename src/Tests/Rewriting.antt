-- ===== src/Tests/Rewriting.antt =====
-- Two switches in a row, each of which promotes its target and then cannot store the new record: the second one
-- fences the primary that is still recorded, and promotes another node beside the first target.
use ha.Exec.{err, continue, map_err, require}
use ha.Controller.{leader_bound_context, noop_fence, send_alert, Services, State}
use ha.Controller.Switchover.{
  close_task, guarded_switch, is_dry_run, locked_switch, registered_task, resolve_target, run_task,
  switch,
}
use ha.Base.{str_dec, Bool, true, false, [], ◌∷◌, ◌≡◌, refl}
use ha.Controller.Switch.{
  candidate_eligible, execute_switch, fence_old_primary, finish_task, has_client, is_running,
  lag_within, persist_primary, promote_target, replica_applying, replica_caught_up, settle,
}
use ha.Alert.{send}
use ha.Store.Memory
use ha.Tests.Cluster.{Sim, sim, sim_store, writable, two_nodes}
use ha.Tests.Switching.{quote}

abbrev three_nodes : State Sim
three_nodes = record two_nodes { ctl = record two_nodes.ctl { clients = "a" ∷ "b" ∷ "c" ∷ [] } }

-- The store while etcd refuses the conditional write.
abbrev unwritable : Services Sim
unwritable = record sim {
  store = record sim_store {
    put_cluster_if_epoch = λ expected c w. (err "cluster epoch changed", w);
  };
}

abbrev unrecorded : State Sim
unrecorded = (switch unwritable quote "b" false three_nodes).1

abbrev twice : State Sim
twice = (switch unwritable quote "c" false unrecorded).1

abbrev writers : Bool × Bool
writers = (writable twice.world "b", writable twice.world "c")

both : writers ≡ (true, true)
unfolding switch continue require map_err leader_bound_context Memory.get_cluster guarded_switch
    resolve_target str_dec has_client Memory.acquire_switch_lock Memory.acquire_lock locked_switch
    candidate_eligible is_dry_run registered_task Memory.put_task close_task send execute_switch
    fence_old_primary finish_task is_running lag_within persist_primary promote_target
    replica_applying replica_caught_up settle run_task send_alert Memory.release_lock
    Memory.release_switch_lock noop_fence
both = refl
