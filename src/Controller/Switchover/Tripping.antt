-- ===== src/Controller/Switchover/Tripping.antt =====
-- When the controller counts itself as busy with a switch (`tryAutomaticFailover` reads `tripping`,
-- internal/ha/controller.go).
use ha.Base.{inr, inl, String, ◌≡◌, refl, true, false, some}
use ha.Exec.{Result-cases, Result, ok, err, continue}
use ha.Model.{SwitchAuthorization, ClusterState, SwitchTask}
use ha.Controller.{Services, State}
use ha.Controller.Switch.{Switched}
use ha.Controller.Switchover.{registered_task, close_task}

-- How a registered task leaves the controller, by what the first `PutTask` returns: where the task was stored,
-- idle, with a task that was run; where it was not, busy, with the error of the store, and with the task
-- that was never run as its last.
pub data Left {W : Type 0} (task : SwitchTask)
    : Result (Unit {0}) → Result Switched × State W → Type 0 where
  idle : (done : Switched) (s : State W) → s.ctl.tripping ≡ false → Left task (ok tt) (ok done, s)
  stuck :
      (e : String) (s : State W)
      → s.ctl.tripping ≡ true
      → s.ctl.last_task ≡ some task
      → Left task (err e) (err e, s)

closed-Left :
    {W : Type 0} (sv : Services W) (task : SwitchTask) (o : Switched × State W)
    → Left task (ok tt) (close_task sv o)
unfolding close_task
closed-Left sv task (switched, s) = idle switched (close_task sv (switched, s)).1 refl

-- A switch task that was registered, and that the first `PutTask` stored, ends with a result and `tripping` unset;
-- where `PutTask` fails, its error is returned, `tripping` stays set, and the task is the last.
pub registered_task-Left :
    {W : Type 0} (sv : Services W) (state : ClusterState) (target : String)
    (auth : SwitchAuthorization) (task : SwitchTask) (s : State W)
    → Left task (sv.store.put_task task s.world).0 (registered_task sv state target auth task s)
unfolding registered_task continue
registered_task-Left sv state target auth task s =
    elim (Result-cases (sv.store.put_task task s.world).0) [
      | inl (done, stored) ↦ rw stored (closed-Left sv task _)
      | inr (e, failed) ↦ rw failed (stuck e _ refl refl)
    ]
