-- ===== src/Tests/Recording.antt =====
-- A switch from "a" to "b" that is recorded on the simulated etcd.
use ha.Exec.{err, continue, map_err, require, Result, ok}
use ha.Controller.{leader_bound_context, noop_fence, send_alert, Services, State, noop_set_primary}
use ha.Controller.Switchover.{
  authorization_for, operation_id, close_task, guarded_switch, is_dry_run, locked_switch,
  registered_task, resolve_target, run_task, switch,
}
use ha.Controller.Switch.{
  candidate_eligible, execute_switch, fence_old_primary, finish_task, has_client, is_running,
  lag_within, persist_primary, promote_target, replica_applying, replica_caught_up, settle,
  complete_task, reconfigure_replicas, Switched,
}
use ha.Alert.{send}
use ha.Base.{◌≡◌, refl, false, none, some, is_some, str_dec, Bool-cases, inl, inr, ap, [], ◌∷◌}
use ha.Controller.Switchover.Advanced.{Fate}
use ha.Store.Etcd.{
  Process, acquire_switch_lock, acquire_etcd_lock, locked_session, published, publish, get_cluster,
  cluster_of_entry, put_cluster_if_epoch, comparison_of, comparison_at, put_task, etcd_store,
}
use ha.Controller.Onward.{Onward}
use ha.Store.Etcd.Onward.{
  Passing, get_cluster-Keeps, put_cluster_if_epoch-Keeps, put_task-Keeps, acquire_lock-Keeps,
  acquire_switch_lock-Keeps, release_lock-Keeps, release_switch_lock-Keeps,
}
use ha.Store.Etcd.Cas.{NextRevision, After, view}
use ha.Stack.Recorded.{on_etcd, switch-recorded}
use ha.Tests.Cluster.{node_status, two_nodes, task}
use ha.Tests.Switching.{quote}
use ha.Tests.SimulatedEtcd.{
  client-Transactions, Sim, entry, entry_of, passes, Later, client-Revisions, written,
}
use ha.Tests.Etcd.{store, started, clusters-RoundTrips}

-- Node "b" accepts writes once it was promoted; "a" no longer does.
abbrev services : Services (Process Sim)
services = record {
  store = etcd_store store;
  node = record {
    status = λ id p. (node_status id (is_some (entry p.world id)), p);
    executed_gtid = λ id p. (ok "g", p);
    wait_for_gtid = λ id a g t p. (ok tt, p);
    demote = λ id a p. (ok tt, p);
    promote = λ id a p. (ok tt, record p { world = written id "promoted" p.world });
    reconfigure_replica = λ id a c p. (ok tt, p);
  };
  fence = noop_fence;
  set_primary = noop_set_primary;
  post = λ url payload p. (ok 200, p);
  now = λ p. (0, p);
  ctx_err = λ n p. none;
  observe = λ m p. p;
}

passing : (u : Sim) → Passing store (Later u)
passing u = record {
  get = λ k w h. h;
  put = λ k text w (more, e). ((k, text) ∷ more, ap (λ log. (k, text) ∷ log) e);
  put_leased = λ session k text w (more, e). ((k, text) ∷ more, ap (λ log. (k, text) ∷ log) e);
  put_if = λ c k text w (more, e). elim (Bool-cases (passes c (entry w k))) [
    | inl passed ↦ rw passed ((k, text) ∷ more, ap (λ log. (k, text) ∷ log) e)
    | inr failed ↦ rw failed (more, e)
  ];
  delete = λ k w h. h;
  new_session = λ ttl w h. h;
  lock = λ session k w h. h;
  unlock = λ session k w h. h;
  close = λ session w h. h;
}

onward : Onward (on_etcd services store) (After store entry Later)
unfolding noop_fence noop_set_primary
onward = record {
  now_or_later = λ w. ([], refl);
  later = λ u v w. client-Revisions.later u.world v.world w.world;
  frame = λ u. record {
    now = λ w h. h;
    observe = λ m w h. h;
    post = λ url payload w h. h;
    put_task = λ t w h. put_task-Keeps store (Later u.world) (passing u.world) t w h;
    fence = λ id w h. h;
    set_primary = λ id w h. h;
    acquire = λ holder ttl a w h.
        acquire_switch_lock-Keeps store (Later u.world) (passing u.world) holder ttl a w h;
    release = λ holder ttl a w got v h.
        release_switch_lock-Keeps store (Later u.world) (passing u.world) holder ttl a w _ _ got v
          h;
  };
  get_cluster = λ u w h. get_cluster-Keeps store (Later u.world) (passing u.world) w h;
  put_cluster =
      λ n c u w h. put_cluster_if_epoch-Keeps store (Later u.world) (passing u.world) n c w h;
  acquire_lock =
      λ holder ttl u w h. acquire_lock-Keeps store (Later u.world) (passing u.world) holder ttl w h;
  release_lock = λ holder ttl w got u v h.
      release_lock-Keeps store (Later u.world) (passing u.world) holder ttl w _ _ got v h;
  status = λ id u w h. h;
  executed_gtid = λ id u w h. h;
  wait_for_gtid = λ id g a u w h. h;
  demote = λ id a u w h. h;
  promote = λ id a u w (more, e). ((id, "promoted") ∷ more, ap (λ log. (id, "promoted") ∷ log) e);
  reconfigure_replica = λ id a c u w h. h;
}

abbrev start : State (Process Sim)
start = record { ctl = two_nodes.ctl; world = started }

abbrev taken : Result Switched → Switched
taken (ok switched) = switched
taken (err e) = record { task = task; error = some e }

abbrev done : Switched
done = taken (switch (on_etcd services store) quote "b" false start).0

abbrev end : State (Process Sim)
end = (switch (on_etcd services store) quote "b" false start).1

runs : switch (on_etcd services store) quote "b" false start ≡ (ok done, end)
unfolding switch continue require map_err leader_bound_context guarded_switch resolve_target str_dec
    has_client locked_switch candidate_eligible is_dry_run registered_task close_task send
    execute_switch fence_old_primary finish_task is_running lag_within persist_primary
    promote_target replica_applying replica_caught_up settle run_task send_alert noop_fence
    complete_task reconfigure_replicas noop_set_primary acquire_switch_lock acquire_etcd_lock
    locked_session published publish get_cluster cluster_of_entry put_cluster_if_epoch comparison_of
    comparison_at put_task entry_of passes authorization_for operation_id
runs = refl

no_error : done.error ≡ none
unfolding switch continue require map_err leader_bound_context guarded_switch resolve_target str_dec
    has_client locked_switch candidate_eligible is_dry_run registered_task close_task send
    execute_switch fence_old_primary finish_task is_running lag_within persist_primary
    promote_target replica_applying replica_caught_up settle run_task send_alert noop_fence
    complete_task reconfigure_replicas noop_set_primary acquire_switch_lock acquire_etcd_lock
    locked_session published publish get_cluster cluster_of_entry put_cluster_if_epoch comparison_of
    comparison_at put_task entry_of passes authorization_for operation_id
no_error = refl

switch-recorded_example :
    Fate
      (on_etcd services store)
      (NextRevision store entry Later client-Transactions)
      (After store entry Later)
      (view store entry Later)
      done.task
      start.world
      end.world
switch-recorded_example =
    switch-recorded services store entry Later client-Revisions client-Transactions
      clusters-RoundTrips onward quote "b" false start end done runs no_error
