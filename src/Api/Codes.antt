-- ===== src/Api/Codes.antt =====
-- The status codes of the controller's API (internal/api/server.go) against what the controller did.
use ha.Base.{String, ◌≡◌, refl, Bool, true, false, Option, none, some, ◌==◌, if◌then◌else◌}
use ha.Exec.{Result, ok, err, with_end}
use ha.Model.{ClusterState, SwitchTask}
use ha.Store.Cas.{Swaps}
use ha.Controller.Onward.{Onward}
use ha.Controller.{Services, State}
use ha.Controller.Switch.{Switched}
use ha.Controller.Switchover.{switch}
use ha.Controller.Switchover.Completed.{switch-Fate}
use ha.Controller.Switchover.Advanced.{Fate}
use ha.Api.{Reply, Answer, switch_reply, ended, switchover}

module _ {W : Type 0} (sv : Services W) (quote : String → String) (Next Later : W → W → Type 0)
    (view : W → Result ClusterState) (onward : Onward sv Later)
    (swaps : Swaps Next Later view sv.store.put_cluster_if_epoch) where
  -- What a request to switch over has led to.
  pub data Outcome (s : State W) : Reply × State W → Type 0 where
    invalid : (e : String) → Outcome s ((400, Answer.error e), s)
    conflict :
        (task : Option SwitchTask) (e : String) (s' : State W)
        → Outcome s ((409, Answer.refused task e), s')
    accepted :
        (task : SwitchTask) (s' : State W)
        → Fate sv Next Later view task s.world s'.world
        → Outcome s ((202, Answer.accepted task), s')

  ended-Outcome :
      (s s' : State W) (task : SwitchTask) (error : Option String)
      → (error ≡ none → Fate sv Next Later view task s.world s'.world)
      → Outcome s (ended sv quote task error, s')
  unfolding ended
  ended-Outcome s s' task none h = accepted task s' (h refl)
  ended-Outcome s s' task (some e) h = conflict (some task) e s'

  replied-Outcome :
      (s s' : State W) (r : Result Switched)
      → ((switched : Switched)
          → r ≡ ok switched
          → switched.error ≡ none
          → Fate sv Next Later view switched.task s.world s'.world)
      → Outcome s (switch_reply sv quote r, s')
  unfolding switch_reply
  replied-Outcome s s' (err e) h = conflict none e s'
  replied-Outcome s s' (ok switched) h =
      ended-Outcome s s' switched.task switched.error (h switched refl)

  targeted-Outcome :
      (s : State W) (target : String) (b : Bool)
      → Outcome s (
          if b then ((400, Answer.error "target is required"), s) else (
            switch_reply sv quote (switch sv quote target false s).0,
            (switch sv quote target false s).1,
          ))
  targeted-Outcome s target true = invalid "target is required"
  targeted-Outcome s target false =
      replied-Outcome s _ (switch sv quote target false s).0 λ switched e good.
        switch-Fate sv Next Later view onward swaps quote target false s _ switched (with_end _ e)
          good

  -- Where every call moves time on and the store's conditional write is a compare-and-swap: a request to switch over
  -- is answered with 400, and nothing is changed; or with 409 and an error; or with 202 and a task, which is that
  -- of a dry run, or is completed, and then, between the request and the answer, one change of the store has
  -- advanced the cluster record to the task's target by one epoch.
  pub switchover-Outcome :
      (body : Result String) (s : State W) → Outcome s (switchover sv quote body s)
  unfolding switchover
  switchover-Outcome (err e) s = invalid "invalid JSON request"
  switchover-Outcome (ok target) s = targeted-Outcome s target (target == "")
