-- ===== src/Controller/Switchover/Registered.antt =====
-- A registered task of `Switch` (internal/ha/controller.go) against a protocol: the ends of the task, and what they
-- leave.
use mathlib.Core.Logic.{if_pos, if_neg}
use ha.Base.{◌==◌, true, false, if◌then◌else◌, ==_iff, Bool, ◌≢◌, str_dec, String, ◌≡◌, refl}
use ha.Exec.Ends.{Ends, after, given}
use ha.Model.{SwitchAuthorization, ClusterState, SwitchTask}
use ha.Alert.{send_posts_once}
use ha.Controller.{err, ok, Result, Services, State, send_alert}
use ha.Controller.Switch.{Switched, finish_task, dry_run_task, complete_task, settle}
use ha.Controller.Switchover.{run_task, close_task, registered_task}
use ha.Controller.Protocol.{Notes, notes_of, Protocol}
use ha.Controller.Switchover.Follows.{On, Safely, called, kept, execute_switch-Ends}

either : {A : Type 0} (P : A → Type 0) (b : Bool) {x y : A} → P x → P y → P (if b then x else y)
either P true h k = h
either P false h k = k

module _ {W : Type 0} (sv : Services W) {P : W → Type 0} (frame : Notes sv P) where
  send_alert-keeps :
      (severity title message : String) (s : State W)
      → P s.world
      → P (send_alert sv severity title message s).1.world
  unfolding send_alert
  send_alert-keeps severity title message s h = elim (str_dec s.ctl.cfg.alert_webhook_url "") [
    | yes e ↦ rw (send_posts_once, if_pos _ e) h
    | no e ↦ rw (send_posts_once, if_neg _ e) (frame.post _ _ s.world h)
  ]

  finish_task-keeps :
      (task : SwitchTask) (e : String) (s : State W)
      → P s.world
      → P (finish_task sv task e s).1.world
  unfolding finish_task
  finish_task-keeps task e s h = send_alert-keeps _ _ _ _ (frame.now s.world h)

  pub dry_run_task-keeps :
      (primary target : String) (task : SwitchTask) (s : State W)
      → P s.world
      → P (dry_run_task sv primary target task s).1.world
  unfolding dry_run_task
  dry_run_task-keeps primary target task s h = send_alert-keeps _ _ _ _ (frame.now s.world h)

  pub complete_task-keeps :
      (target : String) (task : SwitchTask) (new : ClusterState) (s : State W)
      → P s.world
      → P (complete_task sv target task new s).1.world
  unfolding complete_task
  complete_task-keeps target task new s h =
      frame.now _ (send_alert-keeps _ _ _ _ (frame.observe _ _ (frame.now s.world h)))

  pub close_task-keeps : (o : Switched × State W) → P o.1.world → P (close_task sv o).1.world
  unfolding close_task
  close_task-keeps (switched, s) h = frame.put_task switched.task s.world h

module _ {W : Type 0} (sv : Services W) (proto : Protocol sv) where
  -- What a switch leaves with its task: a safe state, at which a completed task has promoted its target.
  abbrev pub Left : Switched → State W → Type 0
  Left switched s =
      proto.Safe s.world
      × (switched.task.state ≡ "completed" → proto.Promoted switched.task.to s.world)

  uncompleted :
      {A : Type 0} (state : String) → (state == "completed") ≡ false → state ≡ "completed" → A
  uncompleted state other same = absurd (let equal = (==_iff state "completed").1 same in cc)

  settle-Left :
      (target : String) (task : SwitchTask) (r : Result ClusterState) (s : State W)
      → task.to ≡ target
      → Ends (λ _. On sv proto (proto.Promoted target)) (Safely sv proto) (r, s)
      → Left (settle sv target task r s).0 (settle sv target task r s).1
  unfolding settle complete_task finish_task str_dec
  settle-Left target task (ok new) s to h =
      let kept =
        complete_task-keeps sv (notes_of sv (proto.promoted-Frame target)) target task new s
          h.how in
      (proto.promoted-Safe target _ kept, λ e. rw to kept)
  settle-Left target task (err x) s to h = (
    finish_task-keeps sv (notes_of sv proto.safe-Frame) task x s h.how,
    uncompleted "failed" refl,
  )

  run_task-Left :
      (state : ClusterState) (target : String) (auth : SwitchAuthorization) (task : SwitchTask)
      (s : State W)
      → target ≢ state.primary
      → task.to ≡ target
      → proto.Started state.primary s.world
      → Left (run_task sv state target auth task s).0 (run_task sv state target auth task s).1
  unfolding run_task dry_run_task str_dec
  run_task-Left state target auth task s other to h =
      either {A = Switched × State W} (λ o. Left o.0 o.1) task.dry_run
        (
          dry_run_task-keeps sv (notes_of sv proto.safe-Frame) state.primary target task s
              (proto.started-Safe state.primary s.world h),
          uncompleted "dry-run" refl,
        )
        (settle-Left target task _ _ to (execute_switch-Ends sv proto state target auth s other h))

  close_task-Left : (o : Switched × State W) → Left o.0 o.1 → Left o.0 (close_task sv o).1
  unfolding close_task
  close_task-Left (switched, s) (safe, promoted) = (
    proto.safe-Frame.put_task switched.task s.world safe,
    λ e. (proto.promoted-Frame switched.task.to).put_task switched.task s.world (promoted e),
  )

  pub registered_task-Ends :
      (state : ClusterState) (target : String) (auth : SwitchAuthorization) (task : SwitchTask)
      (s : State W)
      → target ≢ state.primary
      → task.to ≡ target
      → proto.Started state.primary s.world
      → Ends Left (Safely sv proto) (registered_task sv state target auth task s)
  unfolding registered_task close_task
  registered_task-Ends state target auth task s other to h =
      let P = proto.Started state.primary in
      given _ _ _ (
        after (λ _. On sv proto P) _ _ _
          (called sv proto _ (
            kept sv proto P _ (proto.started-Safe state.primary)
              ((proto.started-Frame state.primary).put_task task s.world h)))
          λ _ s1 h1. record {
            how =
                close_task-Left (run_task sv state target auth task s1)
                  (run_task-Left state target auth task s1 other to h1);
          })
