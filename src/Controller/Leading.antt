-- ===== src/Controller/Leading.antt =====
-- `runAsLeader`, `Status`, `Tasks` and `IsLeader` of the controller (internal/ha/controller.go). The ticks that
-- come before the context ends are a list: what happens outside the process before each of them.
use ha.Base.{
  String, ℕ, ◌≡◌, refl, Bool, true, false, Option, none, some, List, [], ◌∷◌, arith, if◌then◌else◌,
}
use ha.Base.Int.{ℤ, pos, ltb_ℤ}
use ha.Base.Map.{Map}
use ha.Exec.{Result, err, Exec, require, continue}
use ha.Model.{ClusterState, NodeStatus, SwitchTask}
use ha.Controller.{Services, State, outside}
use ha.Controller.Switchover.{switch, set_auto_failover}
use ha.Controller.Probe.{probe}

-- How `runAsLeader` ends: `time.NewTicker` panics where the interval is not positive.
pub data Ending : Type 0 where
  returned panicked : Ending

module _ {W : Type 0} (sv : Services W) (quote : String → String) where
  -- The controller leads, under a context.
  unfoldable pub take_lead : ℕ → State W → State W
  take_lead ctx s = record s { ctl = record s.ctl { leader = true; leader_ctx = some ctx } }

  -- The deferred function.
  unfoldable pub give_up_lead : State W → State W
  give_up_lead s = record s { ctl = record s.ctl { leader = false; leader_ctx = none } }

  -- The loop: a probe at each tick.
  unfoldable pub probe_at_ticks : List (W → W) → State W → State W
  probe_at_ticks [] s = s
  probe_at_ticks (meanwhile ∷ ticks) s =
      probe_at_ticks ticks (probe sv quote (record s { world = meanwhile s.world }))

  -- `runAsLeader`
  unfoldable pub run_as_leader : ℕ → List (W → W) → State W → Ending × State W
  unfolding take_lead give_up_lead probe_at_ticks
  run_as_leader ctx ticks s =
      let probed = probe sv quote (take_lead ctx s) in
      if ltb_ℤ (pos 0) probed.ctl.cfg.probe_interval
      then (returned, give_up_lead (probe_at_ticks ticks probed))
      else (panicked, give_up_lead probed)

  -- `Status`: the cluster record with the error of its reading, the statuses and the last task.
  unfoldable pub status :
      State W → (Result ClusterState × Map NodeStatus × Option SwitchTask) × State W
  status s =
      let (r, w) = sv.store.get_cluster s.world in
      ((r, s.ctl.statuses, s.ctl.last_task), record s { world = w })

  -- `Tasks`
  unfoldable pub tasks : ℤ → Exec (State W) (List SwitchTask)
  tasks limit = outside (sv.store.list_tasks limit)

  -- A controller that does not lead.
  without_lead :
      (s : State W) (target : String) (automatic enabled : Bool)
      → s.ctl.leader ≡ false
      → (switch sv quote target automatic s ≡ (err "controller is not the Etcd leader", s))
        × (set_auto_failover sv enabled s ≡ (err "controller is not the Etcd leader", s))
  unfolding switch set_auto_failover require continue
  without_lead s target automatic enabled h = rw h (refl, refl)

  gave_up :
      (ctx : ℕ) (ticks : List (W → W)) (s : State W)
      → (run_as_leader ctx ticks s).1.ctl.leader ≡ false
  unfolding run_as_leader give_up_lead
  gave_up ctx ticks s = ground arith

  -- However many ticks came, and also after a panic, a controller that led refuses to switch and to change the
  -- automatic failover, and changes nothing then.
  pub run_as_leader_refuses :
      (ctx : ℕ) (ticks : List (W → W)) (s : State W) (target : String) (automatic enabled : Bool)
      → (switch sv quote target automatic (run_as_leader ctx ticks s).1
          ≡ (err "controller is not the Etcd leader", (run_as_leader ctx ticks s).1))
        × (set_auto_failover sv enabled (run_as_leader ctx ticks s).1
            ≡ (err "controller is not the Etcd leader", (run_as_leader ctx ticks s).1))
  run_as_leader_refuses ctx ticks s target automatic enabled =
      without_lead _ target automatic enabled (gave_up ctx ticks s)
