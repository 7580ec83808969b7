-- ===== src/Controller/Probe.antt =====
-- The probe of the nodes and what follows from it (internal/ha/controller.go): `probe`, `failureAlert`,
-- `detectPrimary` and `tryAutomaticFailover`. The mutex is held throughout the loop over the clients, so the
-- loop sees no other change of the controller.
pub mod Adoption
pub mod Alerts
pub mod Alternation
pub mod Failover
use ha.Base.{
  String, ◌<>◌, Bool, true, false, not, ◌&&◌, ◌||◌, Option, none, some, List, [], ◌∷◌, ◌++◌,
  if◌then◌else◌, ◌==◌, is_some,
}
use ha.Base.Int.{ℤ, pos, leb_ℤ, ltb_ℤ, inc_int64}
use ha.Base.Map.{Map, lookup, insert, erase}
use ha.Exec.{Result, ok, err}
use ha.Model.{ReplicaStatus, NodeStatus, ClusterState, AlertEvent, role_primary, role_replica}
use ha.Controller.{Services, State, Metric, outside, send_alert}
use ha.Controller.Target.{choose_target, choose_dry_run_target}
use ha.Controller.Switchover.{switch}

-- The message of `failureAlert` by what the replica reports.
unfoldable pub replica_message : Option ReplicaStatus → String
replica_message none = ""
replica_message (some r) =
    if not r.io_thread_running
    then (if r.last_io_error == "" then "replica IO thread is stopped" else r.last_io_error)
    else if not r.sql_thread_running
    then (if r.last_sql_error == "" then "replica SQL thread is stopped" else r.last_sql_error)
    else if is_some r.seconds_behind
    then ""
    else "replica lag is unknown"

unfoldable pub failure_message : NodeStatus → String
unfolding replica_message
failure_message s =
    let message = if s.error == "" then replica_message s.replica else s.error in
    if message == "" then "node reported unhealthy without diagnostics" else message

-- Only the IO thread is stopped.
unfoldable pub only_io_stopped : Option ReplicaStatus → Bool
only_io_stopped none = false
only_io_stopped (some r) = not r.io_thread_running && r.sql_thread_running

-- `failureAlert`: the severity, the title and the message.
unfoldable pub failure_alert : NodeStatus → String × String × String
unfolding failure_message only_io_stopped
failure_alert s =
    if s.role == role_replica && only_io_stopped s.replica
    then ("warning", "MySQL replica IO thread unavailable", failure_message s)
    else ("critical", "MySQL node unhealthy", failure_message s)

-- `c.statuses[id].FailureCount`, 0 where the node was not probed yet.
abbrev pub failures : Option NodeStatus → ℤ
failures none = pos 0
failures (some s) = s.failure_count

-- `c.alertedNodes[id]`
abbrev pub is_alerted : Option Bool → Bool
is_alerted none = false
is_alerted (some b) = b

-- The status with its count of failures in a row.
unfoldable pub counted : Option NodeStatus → NodeStatus → NodeStatus
unfolding inc_int64
counted previous s = record s {
  failure_count = if s.healthy then pos 0 else inc_int64 (failures previous);
}

abbrev event_of : String → NodeStatus → String × String × String → AlertEvent
event_of id s (severity, title, message) = record {
  node_id = id;
  severity = severity;
  title = title;
  message = message;
  resolved = false;
  created_at = s.checked_at;
}

unfoldable pub raised : String → NodeStatus → AlertEvent
unfolding failure_alert
raised id s = event_of id s (failure_alert s)

unfoldable pub recovered : String → NodeStatus → AlertEvent
recovered id s = record {
  node_id = id;
  severity = "info";
  title = "MySQL node recovered";
  message = "health checks passed";
  resolved = true;
  created_at = s.checked_at;
}

-- The alerts that a probed status gives rise to, with the nodes that are alerted then.
unfoldable pub watch : ℤ → String → NodeStatus → Map Bool → Map Bool × List AlertEvent
watch threshold id s alerted =
    let known = is_alerted (lookup id alerted) in
    if leb_ℤ threshold s.failure_count && not known
    then (insert id true alerted, raised id s ∷ [])
    else if s.healthy && known
    then (erase id alerted, recovered id s ∷ [])
    else (alerted, [])

-- The first healthy primary of the statuses.
unfoldable pub detect_primary : Map NodeStatus → String
detect_primary [] = ""
detect_primary ((id, s) ∷ rest) =
    let more = detect_primary rest in if s.healthy && s.role == role_primary then id else more

unfoldable pub known_healthy : Option NodeStatus → Bool
known_healthy none = false
known_healthy (some s) = s.healthy

-- The primary has failed often enough, and no switch is on its way.
unfoldable pub has_failed : ℤ → Bool → Option NodeStatus → Bool
has_failed threshold tripping none = false
has_failed threshold tripping (some s) =
    not (s.healthy || ltb_ℤ s.failure_count threshold || tripping)

module _ {W : Type 0} (sv : Services W) where
  -- One turn of the loop over the clients.
  unfoldable pub probe_node : String → State W → List AlertEvent × State W
  unfolding counted watch
  probe_node id s =
      let (found, w) = sv.node.status id s.world in
      let status = counted (lookup id s.ctl.statuses) found in
      let (alerted, events) = watch s.ctl.cfg.failure_threshold id status s.ctl.alerted_nodes in
      let w' = sv.observe (Metric.probe_total id found.healthy) w in
      (
        events,
        record {
          ctl = record s.ctl {
            statuses = insert id status s.ctl.statuses;
            alerted_nodes = alerted;
          };
          world = sv.observe (Metric.probe_healthy id found.healthy) w';
        },
      )

  unfoldable pub probe_nodes : List String → State W → List AlertEvent × State W
  unfolding probe_node
  probe_nodes [] s = ([], s)
  probe_nodes (id ∷ ids) s =
      let (events, s') = probe_node id s in
      let (more, s'') = probe_nodes ids s' in (events ++ more, s'')

  -- `fmt.Sprintf("node=%s resolved=%t %s", ...)`
  abbrev event_text : AlertEvent → String
  event_text e =
      "node="
      <> (e.node_id
          <> (" resolved=" <> ((if e.resolved then "true" else "false") <> (" " <> e.message))))

  unfoldable pub send_events : List AlertEvent → State W → State W
  send_events [] s = s
  send_events (e ∷ events) s =
      let (sent, s') = send_alert sv e.severity e.title (event_text e) s in send_events events s'

  module _ (quote : String → String) where
    -- The target of an automatic failover.
    unfoldable pub failover_target : String → State W → Result String
    failover_target primary s =
        if s.ctl.cfg.auto_failover_execute
        then choose_target s.ctl.cfg.max_replica_lag_seconds s.ctl.statuses primary
        else choose_dry_run_target s.ctl.statuses primary

    unfoldable pub switch_to : Result String → State W → State W
    switch_to (err e) s = s
    switch_to (ok target) s = (switch sv quote target true s).1

    -- `tryAutomaticFailover`
    unfoldable pub try_automatic_failover : String → State W → State W
    unfolding failover_target switch_to known_healthy has_failed
    try_automatic_failover primary s =
        let status = lookup primary s.ctl.statuses in
        if not (has_failed s.ctl.cfg.failure_threshold s.ctl.tripping status)
        then (if known_healthy status
            then record s { ctl = record s.ctl { last_dry_run_primary = "" } }
            else s)
        else if not s.ctl.cfg.auto_failover_execute && s.ctl.last_dry_run_primary == primary
        then s
        else switch_to (failover_target primary s) s

    -- An unknown primary is the one that is detected.
    unfoldable pub adopt_primary : ClusterState → State W → ClusterState × State W
    adopt_primary state s =
        let (updated, w) = sv.now s.world in
        let adopted = record state {
          primary = detect_primary s.ctl.statuses;
          updated_at = updated;
        } in
        let (stored, w') = sv.store.put_cluster adopted w in
        if state.primary == "" then (adopted, record s { world = w' }) else (state, s)

    unfoldable pub after_probe : Result ClusterState → State W → State W
    unfolding adopt_primary try_automatic_failover
    after_probe (err e) s = s
    after_probe (ok state) s =
        let (known, s') = adopt_primary state s in
        if known.auto_failover && not (known.primary == "")
        then try_automatic_failover known.primary s'
        else s'

    -- `probe`
    unfoldable pub probe : State W → State W
    unfolding probe_nodes send_events after_probe
    probe s =
        let (events, s1) = probe_nodes s.ctl.clients s in
        let s2 = send_events events s1 in
        let (r, w) = sv.store.get_cluster s2.world in after_probe r (record s2 { world = w })
