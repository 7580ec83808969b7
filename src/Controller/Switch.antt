-- ===== src/Controller/Switch.antt =====
-- `Switch` and `SetAutoFailover` (internal/ha/controller.go): the switch of the primary to another node.
-- A call returns a task and an error, either of which may be nil: `err e` stands for a nil task with `e`,
-- and `ok` holds the task with its error. `c.lastTask` points to the task, so each change of the task
-- writes it too.
use ha.Base.{
  String, ◌<>◌, ℕ, ◌+◌, ◌-◌, ◌%◌, Bool, false, ◌&&◌, ◌||◌, Option, none, some, List, [], ◌∷◌,
  if◌then◌else◌, ◌==◌, leb,
}
use ha.Base.Int.{ℤ, pos, negsuc, leb_ℤ}
use ha.Base.Decimal.{show_ℕ}
use ha.Base.Map.{lookup}
use ha.Exec.{Exec, pure, wrap, gets, require, ◌>>=◌, ◌>>◌}
use ha.Model.{
  Time, AgentNodeConfig, SwitchAuthorization, ReplicaStatus, NodeStatus, ClusterState, SwitchTask,
  role_primary, role_replica, uint64_mod,
}
use ha.Controller.{err, ok, Result, Services, State, Metric, outside, ask, send_alert}

-- What `Switch` returns with a task.
pub record Switched : Type 0 where
  pub task : SwitchTask
  pub error : Option String

-- `clients[id]` is there.
unfoldable pub has_client : String → List String → Bool
has_client id [] = false
has_client id (c ∷ cs) = id == c || has_client id cs

-- Nanoseconds from Go's zero time to the Unix epoch.
abbrev pub unix_offset : ℕ
unix_offset = 62135596800000000000

-- `t.UnixNano()`
unfoldable pub unix_nano : Time → ℤ
unix_nano t = if leb unix_offset t then pos (t - unix_offset) else negsuc (unix_offset - t - 1)

unfoldable pub is_running : ReplicaStatus → Bool
is_running r = r.io_thread_running && r.sql_thread_running

unfoldable pub lag_within : Option ℤ → ℤ → Bool
lag_within none max_lag = false
lag_within (some lag) max_lag = leb_ℤ lag max_lag

unfoldable pub replica_caught_up : Option ReplicaStatus → ℤ → Bool
unfolding is_running lag_within
replica_caught_up none max_lag = false
replica_caught_up (some r) max_lag = is_running r && lag_within r.seconds_behind max_lag

unfoldable pub replica_applying : Option ReplicaStatus → Bool
replica_applying none = false
replica_applying (some r) = r.sql_thread_running

-- `candidateEligible && candidate.Role == model.RoleReplica`
unfoldable pub candidate_eligible : Bool → Bool → ℤ → NodeStatus → Bool
unfolding replica_caught_up replica_applying
candidate_eligible dry_run automatic max_lag candidate =
    (if dry_run && automatic
      then candidate.reachable
        && candidate.role == role_replica
        && replica_applying candidate.replica
      else candidate.healthy && replica_caught_up candidate.replica max_lag)
    && candidate.role == role_replica

-- Five minutes and ten seconds, in nanoseconds.
abbrev pub switch_lock_ttl : ℕ
switch_lock_ttl = 300000000000

abbrev pub failover_lock_ttl : ℕ
failover_lock_ttl = 10000000000

module _ {W : Type 0} (sv : Services W) where
  abbrev Action : Type 0 → Type 0
  Action A = Exec (State W) A

  -- `finishTask`
  unfoldable pub finish_task : SwitchTask → String → State W → Switched × State W
  finish_task task e s =
      let (finished, w) = sv.now s.world in
      let failed = record task { state = "failed"; error = e; finished_at = finished } in
      let written = record s { ctl = record s.ctl { last_task = some failed }; world = w } in
      let (sent, s') = send_alert sv "critical" "MySQL HA switch failed" e written in
      (record { task = failed; error = some e }, s')

  -- A dry run: from `if dryRun` to its return.
  unfoldable pub dry_run_task : String → String → SwitchTask → State W → Switched × State W
  dry_run_task primary target task s =
      let (finished, w) = sv.now s.world in
      let done = record task { state = "dry-run"; finished_at = finished } in
      let written = record s {
        ctl = record s.ctl { last_task = some done; last_dry_run_primary = primary };
        world = w;
      } in
      let (sent, s') =
        send_alert sv "warning" "MySQL HA automatic failover dry-run"
          ("candidate=" <> target <> " current_primary=" <> primary) written in
      (record { task = done; error = none }, s')

  -- From the fence to the confirmation that the old primary is read-only.
  unfoldable pub fence_old_primary : String → SwitchAuthorization → Action (Unit {0})
  fence_old_primary primary auth = do
    outside (sv.fence primary)
    clients ← gets (λ s. s.ctl.clients)
    require (has_client primary clients) "current primary is not configured"
    wrap (λ e. "demote old primary: " <> e) (outside (sv.node.demote primary auth))
    demoted ← ask (sv.node.status primary)
    require (demoted.reachable && demoted.read_only && demoted.super_read_only)
        ("old primary " <> primary <> " could not be confirmed read-only; refusing promotion")

  -- From the reading of the old primary's GTID set to the promotion.
  unfoldable pub promote_target : String → String → SwitchAuthorization → Action (Unit {0})
  promote_target primary target auth = do
    gtid ← wrap (λ e. "read old primary GTID: " <> e) (outside (sv.node.executed_gtid primary))
    wrap (λ e. "wait for target to catch up: " <> e)
        (outside (sv.node.wait_for_gtid target auth gtid (pos 30)))
    wrap (λ e. "promote " <> target <> ": " <> e) (outside (sv.node.promote target auth))
    promoted ← ask (sv.node.status target)
    require (promoted.healthy && promoted.role == role_primary)
        ("promoted node " <> target <> " is not writable")

  -- The new cluster record: `Epoch++` wraps at 64 bits, and so does the `Epoch-1` that is expected.
  unfoldable pub persist_primary : ClusterState → String → Action ClusterState
  persist_primary state target = do
    updated ← ask sv.now
    let epoch = (state.epoch + 1) % uint64_mod
    let new = record state { primary = target; epoch = epoch; updated_at = updated }
    wrap (λ e. "persist cluster state: " <> e)
        (outside (sv.store.put_cluster_if_epoch ((epoch + (uint64_mod - 1)) % uint64_mod) new))
    pure new

  -- The loop over the clients: every node but the target follows the target.
  unfoldable pub reconfigure_replicas :
      List String → String → SwitchAuthorization → AgentNodeConfig → Action (Unit {0})
  reconfigure_replicas [] target auth source = pure tt
  reconfigure_replicas (id ∷ ids) target auth source =
      let rest = reconfigure_replicas ids target auth source in
      if id == target then rest else do
        wrap (λ e. "reconfigure replica " <> id <> ": " <> e)
            (outside (sv.node.reconfigure_replica id auth source))
        rest

  -- `c.configs[target]`, the zero value where it is missing.
  abbrev config_of : Option AgentNodeConfig → AgentNodeConfig
  config_of none = record { id = ""; address = ""; agent_url = "" }
  config_of (some config) = config

  -- The execution: an error here is one that the source hands to `finishTask`.
  unfoldable pub execute_switch : ClusterState → String → SwitchAuthorization → Action ClusterState
  execute_switch state target auth = do
    fence_old_primary state.primary auth
    promote_target state.primary target auth
    new ← persist_primary state target
    wrap (λ e. "update route: " <> e) (outside (sv.set_primary target))
    ctl ← gets (λ s. s.ctl)
    reconfigure_replicas ctl.clients target auth (config_of (lookup target ctl.configs))
    pure new

  -- The end of a switch that went through.
  unfoldable pub complete_task : String → SwitchTask → ClusterState → State W → Switched × State W
  complete_task target task new s =
      let (switched, w) = sv.now s.world in
      let (sent, s') =
        send_alert sv "info" "MySQL HA switch completed"
          ("new_primary=" <> target <> " epoch=" <> show_ℕ new.epoch)
          (record s { world = sv.observe (Metric.last_switch switched) w }) in
      let (finished, w') = sv.now s'.world in
      let done = record task { state = "completed"; finished_at = finished } in
      (
        record { task = done; error = none },
        record s' { ctl = record s'.ctl { last_task = some done }; world = w' },
      )

  -- `finishTask` on an error of the execution, the completion otherwise.
  unfoldable pub settle : String → SwitchTask → Result ClusterState → State W → Switched × State W
  settle target task (ok new) s = complete_task target task new s
  settle target task (err e) s = finish_task task e s
