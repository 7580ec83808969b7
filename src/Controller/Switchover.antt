-- ===== src/Controller/Switchover.antt =====
-- `Switch` and `SetAutoFailover` as a whole (internal/ha/controller.go): the guards, the lock, and the
-- deferred clean-up around the steps of Switch.antt.
pub mod Follows
pub mod Registered
pub mod Safety
pub mod SingleWriter
pub mod Order
pub mod Tripping
pub mod DryRuns
pub mod AutoFailover
pub mod Advanced
pub mod Completed
pub mod Responsive
pub mod Completes
use ha.Base.{
  String, ◌<>◌, ℕ, ◌+◌, ◌%◌, Bool, true, false, not, ◌&&◌, ◌||◌, some, if◌then◌else◌, ◌==◌, eqb,
}
use ha.Base.Decimal.{show_ℤ}
use ha.Exec.{Result, ok, Exec, finally, gets, require, ◌>>=◌, ◌>>◌}
use ha.Model.{Time, SwitchAuthorization, ClusterState, SwitchTask, uint64_mod}
use ha.Config.{Config}
use ha.Controller.{Services, State, outside, ask, set_ctl, leader_bound_context}
use ha.Controller.Target.{choose_target}
use ha.Controller.Switch.{
  Switched, has_client, unix_nano, candidate_eligible, switch_lock_ttl, failover_lock_ttl,
  dry_run_task, execute_switch, settle,
}

-- `state.Epoch + 1` on `uint64`.
unfoldable pub authorization_for : String → ℕ → SwitchAuthorization
authorization_for operation_id epoch = record {
  operation_id = operation_id;
  from_epoch = epoch;
  to_epoch = (epoch + 1) % uint64_mod;
}

-- `fmt.Sprintf("switch-%d", time.Now().UnixNano())`
unfoldable pub operation_id : Time → String
unfolding unix_nano show_ℤ
operation_id now = "switch-" <> show_ℤ (unix_nano now)

-- `dryRun`
unfoldable pub is_dry_run : Config → Bool → Bool
is_dry_run cfg automatic = not cfg.execute_actions || (automatic && not cfg.auto_failover_execute)

module _ {W : Type 0} where
  -- `if target == "" { target, err = c.chooseTarget(state.Primary) }`
  unfoldable pub resolve_target : String → ClusterState → Exec (State W) String
  resolve_target target state s =
      if target == ""
      then (choose_target s.ctl.cfg.max_replica_lag_seconds s.ctl.statuses state.primary, s)
      else (ok target, s)

module _ {W : Type 0} (sv : Services W) where
  -- What runs while the task is registered: the dry run, or the execution and its end.
  unfoldable pub run_task :
      ClusterState → String → SwitchAuthorization → SwitchTask → State W → Switched × State W
  run_task state target auth task s =
      if task.dry_run
      then dry_run_task sv state.primary target task s
      else (let (r, s') = execute_switch sv state target auth s in settle sv target task r s')

  -- The deferred function: the controller trips no more, and the task is stored as it ended.
  unfoldable pub close_task : Switched × State W → Result Switched × State W
  close_task (switched, s) =
      let s' = record s { ctl = record s.ctl { tripping = false } } in
      let (stored, s'') = outside (sv.store.put_task switched.task) s' in (ok switched, s'')

  -- The task is stored before anything is done. If that fails, `tripping` stays set.
  unfoldable pub registered_task :
      ClusterState → String → SwitchAuthorization → SwitchTask → Exec (State W) Switched
  registered_task state target auth task = do
    set_ctl (λ c. record c { tripping = true; last_task = some task })
    outside (sv.store.put_task task)
    λ s. close_task (run_task state target auth task s)

  -- The body under the switch lock.
  unfoldable pub locked_switch :
      ClusterState → String → Bool → SwitchAuthorization → Exec (State W) Switched
  locked_switch state target automatic auth = do
    locked ← outside sv.store.get_cluster
    require (eqb locked.epoch state.epoch && locked.primary == state.primary)
        "cluster state changed while acquiring switch lock"
    require (not (locked.primary == "")) "current primary is unknown"
    require (not (target == locked.primary)) "target is already the current primary"
    cfg ← gets (λ s. s.ctl.cfg)
    let dry_run = is_dry_run cfg automatic
    candidate ← ask (sv.node.status target)
    require (candidate_eligible dry_run automatic cfg.max_replica_lag_seconds candidate)
        ("target " <> target <> " is not a healthy, caught-up replica")
    started ← ask sv.now
    registered_task state target auth (record {
      id = auth.operation_id;
      from = state.primary;
      to = target;
      automatic = automatic;
      dry_run = dry_run;
      state = "running";
      error = "";
      started_at = started;
      finished_at = 0;
    })

  -- From the cluster that was read to the end: the checks of the target, and the lock. `quote` is `%q`.
  unfoldable pub guarded_switch :
      (String → String) → String → Bool → ClusterState → Exec (State W) Switched
  guarded_switch quote asked automatic state = do
    target ← resolve_target asked state
    clients ← gets (λ s. s.ctl.clients)
    require (has_client target clients) ("unknown target node " <> quote target)
    require (not (target == state.primary)) "target is already the current primary"
    now ← ask sv.now
    let auth = authorization_for (operation_id now) state.epoch
    cfg ← gets (λ s. s.ctl.cfg)
    release ← outside (sv.store.acquire_switch_lock cfg.controller_id switch_lock_ttl auth)
    finally (λ s. record s { world = release s.world }) (locked_switch state target automatic auth)

  unfoldable pub switch : (String → String) → String → Bool → Exec (State W) Switched
  switch quote asked automatic = do
    leader ← gets (λ s. s.ctl.leader)
    require leader "controller is not the Etcd leader"
    leader_bound_context sv
    state ← outside sv.store.get_cluster
    guarded_switch quote asked automatic state

  -- `SetAutoFailover`
  unfoldable pub set_auto_failover : Bool → Exec (State W) (Unit {0})
  set_auto_failover enabled = do
    leader ← gets (λ s. s.ctl.leader)
    require leader "controller is not the Etcd leader"
    leader_bound_context sv
    cfg ← gets (λ s. s.ctl.cfg)
    release ← outside (sv.store.acquire_lock cfg.controller_id failover_lock_ttl)
    finally (λ s. record s { world = release s.world })
        do
          state ← outside sv.store.get_cluster
          updated ← ask sv.now
          outside (
              sv.store.put_cluster_if_epoch state.epoch
                (record state { auto_failover = enabled; updated_at = updated }))
