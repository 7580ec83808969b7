-- ===== src/Tests/Completing.antt =====
-- A switch from "a" to "b" on the simulated cluster goes through.
use ha.Exec.{continue, map_err, require, ok}
use ha.Controller.{leader_bound_context, noop_fence, send_alert, noop_set_primary}
use ha.Controller.Switchover.{
  close_task, guarded_switch, is_dry_run, locked_switch, registered_task, resolve_target, run_task,
  switch,
}
use ha.Base.{str_dec, true, false, ◌≡◌, refl, ==_iff, ◌==◌, String, ◌≢◌, inl, arith}
use ha.Controller.Switch.{
  candidate_eligible, execute_switch, fence_old_primary, finish_task, has_client, is_running,
  lag_within, persist_primary, promote_target, replica_applying, replica_caught_up, settle,
  complete_task, reconfigure_replicas, Switched,
}
use ha.Alert.{send}
use ha.Store.Memory
use ha.Controller.Switchover.SingleWriter.{switch_completed_single_writer}
use ha.Tests.Cluster.{sim-WriteLaws, writable, Sim, sim, cluster_of, two_nodes}
use ha.Tests.Switching.{only_a, quote}
use ha.Controller.Switchover.Completes.{IsReady, IsCompleted, switch_completes}
use ha.Base.Int.{pos}
use ha.Model.{ClusterState}
use ha.Store.Memory
use ha.Controller.Switchover.Responsive.{Responsive}

abbrev before : ClusterState
before = cluster_of two_nodes.world

-- The record is the old one, and "b" does not accept writes.
abbrev Unswitched : Sim → Type 0
Unswitched w = (w.store.cluster ≡ before) × (w.writer "b" ≡ false)

answers : Responsive sim before "b" false (pos 5)
unfolding candidate_eligible str_dec noop_fence noop_set_primary continue Memory.acquire_lock
    Memory.acquire_switch_lock Memory.put_cluster_if_epoch Memory.put_task Memory.get_cluster
answers = record {
  Ready = λ w. Unswitched w × (w.store.locked ≡ false);
  Locked = Unswitched;
  Demoted = λ w. Unswitched w × (w.writer "a" ≡ false);
  Fenced = Unswitched;
  GtidRead = λ g. Unswitched;
  CaughtUp = Unswitched;
  Promoted = λ w. (w.store.cluster ≡ before) × (w.writer "b" ≡ true);
  Written = λ w. Unit {0};
  get_cluster = λ w h. record { how = (h.0.0, h) };
  now_ready = λ w h. h;
  acquire = λ holder ttl auth w h. simp h.1 (record { how = h.0 });
  get_cluster_locked = λ w h. record { how = (h.0, h) };
  eligible = λ w h. (simp h.1 refl, h);
  now_locked = λ w h. h;
  put_task = λ t w h. record { how = h };
  fence = λ w h. record { how = h };
  demote = λ auth w h. record { how = (h, refl) };
  confirm = λ w h. (simp h.1 refl, h.0);
  executed_gtid = λ w h. record { how = h };
  wait_for_gtid = λ auth g w h. record { how = h };
  promote = λ auth w h. record { how = (h.0, refl) };
  promoted = λ w h. (simp h.1 refl, h);
  now_promoted = λ w h. h;
  put_cluster = λ updated w h. simp h.0 (record { how = tt });
  set_primary = λ w h. record { how = tt };
  reconfigure_replica = λ id auth source w other h. record { how = tt };
}

ready : IsReady sim before "b" false (pos 5) answers two_nodes.ctl
unfolding is_dry_run has_client str_dec
ready = record { executes = refl; limit = refl; knows_primary = refl; knows_target = refl }

differ : (x y : String) → (x == y) ≡ false → x ≢ y
differ x y other same = let equal = (==_iff x y).1 same in cc

switch_completes_example :
    (switched : Switched) × ((switch sim quote "b" false two_nodes).0 ≡ ok switched)
    × IsCompleted sim before "b" false (pos 5) answers switched
unfolding str_dec answers
switch_completes_example =
    switch_completes sim before "b" false (pos 5) answers quote "b" two_nodes 0 refl refl refl ready
      (inl (differ "b" "" refl, refl)) (omega arith) (differ "a" "" refl) (differ "b" "a" refl)
      ((refl, refl), refl)

completing :
    (switched : Switched) × ((switch sim quote "b" false two_nodes).0 ≡ ok switched)
    × IsCompleted sim before "b" false (pos 5) answers switched
unfolding str_dec answers
completing =
    switch_completes sim before "b" false (pos 5) answers quote "b" two_nodes 0 refl refl refl ready
      (inl (differ "b" "" refl, refl)) (omega arith) (differ "a" "" refl) (differ "b" "a" refl)
      ((refl, refl), refl)

b_writes : writable (switch sim quote "b" false two_nodes).1.world "b" ≡ true
unfolding switch continue require map_err leader_bound_context Memory.get_cluster guarded_switch
    resolve_target str_dec has_client Memory.acquire_switch_lock Memory.acquire_lock locked_switch
    candidate_eligible is_dry_run registered_task Memory.put_task close_task send execute_switch
    fence_old_primary finish_task is_running lag_within persist_primary promote_target
    replica_applying replica_caught_up settle run_task send_alert Memory.release_lock
    Memory.release_switch_lock noop_fence Memory.put_cluster_if_epoch complete_task
    reconfigure_replicas noop_set_primary
b_writes = refl

switch_completed_single_writer_example : "b" ≡ completing.0.task.to
switch_completed_single_writer_example =
    switch_completed_single_writer sim writable cluster_of sim-WriteLaws quote "b" false two_nodes
      completing.0 only_a completing.1 completing.2.state "b" b_writes
