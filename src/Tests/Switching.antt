-- ===== src/Tests/Switching.antt =====
-- `Switch` on the simulated cluster, and the choice of targets.
use ha.Base.{String, ◌≡◌, refl, false, some, [], ◌∷◌, ==_iff, str_dec}
use ha.Base.Int.{ℤ, pos}
use ha.Base.Map.{Map}
use ha.Exec.{ok}
use ha.Model.{NodeStatus}
use ha.Controller.{State}
use ha.Base.Sort.{sort}
use ha.Base.Text.{str_lt}
use ha.Controller.Target.{
  first_candidate, candidates, is_candidate, candidate_less, replica_lag, choose_target,
}
use ha.Controller.Target.Laws.{IsBestTarget, choose_target_best}
use ha.Controller.Switchover.{switch, registered_task}
use ha.Controller.Switchover.SingleWriter.{OnlyWriter, switch_single_writer}
use ha.Controller.Switchover.Order.{Trace, IsOrdered, recorded, switch_order}
use ha.Controller.Switchover.Tripping.{Left, registered_task-Left}
use ha.Tests.Cluster.{
  Sim, sim, sim-WriteLaws, writable, cluster_of, two_nodes, node_status, in_step, auth, task,
}

abbrev pub quote : String → String
quote s = s

pub only_a : OnlyWriter sim writable cluster_of "a" two_nodes.world
only_a id e = (==_iff id "a").0 e

switch_single_writer_example :
    (p : String) × OnlyWriter sim writable cluster_of p
      (switch sim quote "b" false two_nodes).1.world
switch_single_writer_example =
    switch_single_writer sim writable cluster_of sim-WriteLaws quote "b" false two_nodes only_a

abbrev recorded_start : State (Sim × Trace)
recorded_start = record { ctl = two_nodes.ctl; world = (two_nodes.world, []) }

switch_order_example : IsOrdered (switch (recorded sim) quote "b" false recorded_start).1.world.1
switch_order_example = switch_order sim quote "b" false two_nodes

abbrev lagging : ℤ → NodeStatus
lagging lag = record (node_status "" false) {
  replica = some (record in_step { seconds_behind = some lag });
}

abbrev three : Map NodeStatus
three = ("b", lagging (pos 2)) ∷ ("a", lagging (pos 0)) ∷ ("c", lagging (pos 1)) ∷ []

abbrev reordered : Map NodeStatus
reordered = ("a", lagging (pos 0)) ∷ ("b", lagging (pos 2)) ∷ ("c", lagging (pos 1)) ∷ []

choose_target_best_example : IsBestTarget (pos 5) "a" three (choose_target (pos 5) three "a")
choose_target_best_example = choose_target_best (pos 5) three "a"

registered_task-Left_example :
    Left task
      (sim.store.put_task task two_nodes.world).0
      (registered_task sim (cluster_of two_nodes.world) "b" auth task two_nodes)
registered_task-Left_example =
    registered_task-Left sim (cluster_of two_nodes.world) "b" auth task two_nodes

-- The healthy replica with the least lag, "c", is chosen.
chosen : choose_target (pos 5) three "a" ≡ ok "c"
unfolding choose_target first_candidate sort candidates is_candidate str_dec candidate_less str_lt
    replica_lag
chosen = refl
