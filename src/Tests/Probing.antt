-- ===== src/Tests/Probing.antt =====
-- Dry runs, alerts and automatic failovers on the simulated cluster.
use ha.Base.{List, String, ◌≡◌, ◌≢◌, refl, sym, ap, ◌∙◌, true, false, [], ◌∷◌, ==_iff, arith}
use ha.Base.Int.{pos, ◌≤ℤ◌}
use ha.Base.Map.{lookup}
use ha.Model.{NodeStatus, ClusterState}
use ha.Store.Memory
use ha.Controller.Probe.{adopt_primary, is_alerted, watch, try_automatic_failover}
use ha.Controller.Probe.Adoption.{Adopted, adopt_primary-Adopted}
use ha.Controller.{State, noop_fence, noop_set_primary}
use ha.Controller.Protocol.{Notes}
use ha.Controller.Switchover.{is_dry_run, switch}
use ha.Controller.Switchover.DryRuns.{Unchanged, switch_dry_run}
use ha.Controller.Switchover.SingleWriter.{OnlyWriter}
use ha.Controller.Probe.Alerts.{Reported, watch-Reported}
use ha.Controller.Probe.Failover.{
  Tried, try_automatic_failover-Tried, try_automatic_failover_single_writer,
}
use ha.Controller.Probe.Alternation.{Alternates, alerted, marks, rounds, rounds-Alternates}
use ha.Tests.Cluster.{
  Sim, sim, sim-WriteLaws, writable, cluster_of, two_nodes, node_status, released, value,
}

abbrev quote : String → String
quote s = s

-- No node has become writable or read-only.
abbrev AsAtFirst : Sim → Type 0
AsAtFirst w = (id : String) → w.writer id ≡ two_nodes.world.writer id

sim-Notes : Notes sim AsAtFirst
unfolding noop_fence noop_set_primary
sim-Notes = record {
  now = λ w h. h;
  observe = λ m w h. h;
  post = λ u p w h. h;
  put_task = λ t w h. h;
  acquire = λ o t a w h. h;
  release = λ o t a w got v h id.
      sym (ap (λ r. (value r.0 v).writer id) got)
      ∙ released (Memory.acquire_switch_lock o t a w.store).0 v id
      ∙ h id;
}

sim-Unchanged : Unchanged sim AsAtFirst
sim-Unchanged = record { frame = sim-Notes; get_cluster = λ w h. h; status = λ id w h. h }

-- The cluster with the execution of actions switched off.
abbrev rehearsal : State Sim
rehearsal = record two_nodes {
  ctl = record (two_nodes.ctl) { cfg = record (two_nodes.ctl.cfg) { execute_actions = false } };
}

is_rehearsal : is_dry_run rehearsal.ctl.cfg false ≡ true
unfolding is_dry_run
is_rehearsal = refl

switch_dry_run_example : AsAtFirst (switch sim quote "b" false rehearsal).1.world
switch_dry_run_example =
    switch_dry_run sim AsAtFirst false sim-Unchanged quote "b" rehearsal is_rehearsal (λ id. refl)

abbrev failing : NodeStatus
failing = record (node_status "a" true) { healthy = false; failure_count = pos 3 }

watch-Reported_example :
    Reported "a" failing [] (watch (pos 3) "a" failing [])
    × (pos 3 ≤ℤ failing.failure_count
        → is_alerted (lookup "a" (watch (pos 3) "a" failing []).0) ≡ true)
    × (failing.healthy ≡ true → is_alerted (lookup "a" (watch (pos 3) "a" failing []).0) ≡ false)
    × ((other : String)
        → other ≢ "a"
        → lookup other (watch (pos 3) "a" failing []).0 ≡ lookup other [])
watch-Reported_example = watch-Reported (pos 3) "a" failing [] (omega arith) (λ h. cc)

-- The primary has failed three times, and failovers are executed.
abbrev broken : State Sim
broken = record two_nodes {
  ctl = record (two_nodes.ctl) {
    cfg = record (two_nodes.ctl.cfg) { auto_failover_execute = true };
    statuses = ("a", failing) ∷ ("b", node_status "b" false) ∷ [];
  };
}

try_automatic_failover-Tried_example :
    Tried sim quote "a" broken (try_automatic_failover sim quote "a" broken)
try_automatic_failover-Tried_example = try_automatic_failover-Tried sim quote "a" broken

only_a : OnlyWriter sim writable cluster_of "a" broken.world
only_a id e = (==_iff id "a").0 e

try_automatic_failover_single_writer_example :
    (p : String) × OnlyWriter sim writable cluster_of p
      (try_automatic_failover sim quote "a" broken).world
try_automatic_failover_single_writer_example =
    try_automatic_failover_single_writer sim writable cluster_of sim-WriteLaws quote "a" broken
      only_a

-- Two rounds, between which nothing happens outside.
abbrev two_rounds : List (Sim → Sim)
two_rounds = (λ w. w) ∷ (λ w. w) ∷ []

rounds-Alternates_example :
    Alternates
      (alerted sim "a" broken)
      (marks "a" (rounds sim two_rounds broken).0)
      (alerted sim "a" (rounds sim two_rounds broken).1)
rounds-Alternates_example = rounds-Alternates sim "a" two_rounds broken

abbrev unknown_primary : ClusterState
unknown_primary = record (cluster_of two_nodes.world) { primary = "" }

adopt_primary-Adopted_example :
    Adopted sim unknown_primary two_nodes (adopt_primary sim quote unknown_primary two_nodes)
adopt_primary-Adopted_example = adopt_primary-Adopted sim quote unknown_primary two_nodes refl
