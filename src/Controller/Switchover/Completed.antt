-- ===== src/Controller/Switchover/Completed.antt =====
-- What a switch that ends without an error has written (internal/ha/controller.go), for any store that
-- compares and swaps, and when.
use mathlib.Core.Path.{subst}
use ha.Base.{◌≢◌, if◌then◌else◌, String, ◌≡◌, inl, refl, sym, ap, ◌∙◌, Bool, true, false, none}
use ha.Exec.{with_end, Result, ok, continue-ok, required-ok, ok_inj}
use ha.Model.{ClusterState, SwitchAuthorization, SwitchTask}
use ha.Store.Cas.{Swaps}
use ha.Controller.{Services, State}
use ha.Controller.Onward.{Onward, always, reached}
use ha.Controller.Protocol.{notes_of}
use ha.Controller.Switchover.Registered.{close_task-keeps}
use ha.Controller.Switchover.Safety.{
  resolve_target-Ends, leader_bound_context-Ends, target_is_other,
}
use ha.Controller.Switch.{Switched, execute_switch, dry_run_task}
use ha.Controller.Switchover.{
  run_task, close_task, registered_task, locked_switch, guarded_switch, switch,
}
use ha.Controller.Switchover.Advanced.{
  Advanced, Fate, wider-Fate, until, execute_switch-Advanced, settle-Fate,
}

module _ {W : Type 0} (sv : Services W) (Next Later : W → W → Type 0)
    (view : W → Result ClusterState) (onward : Onward sv Later)
    (swaps : Swaps Next Later view sv.store.put_cluster_if_epoch) where
  either-Fate :
      (b : Bool) (u : W) (x y : Switched × State W)
      → (x.0.error ≡ none → Fate sv Next Later view x.0.task u x.1.world)
      → (y.0.error ≡ none → Fate sv Next Later view y.0.task u y.1.world)
      → (if b then x else y).0.error ≡ none
      → Fate sv Next Later view (if b then x else y).0.task u (if b then x else y).1.world
  either-Fate true u x y hx hy = hx
  either-Fate false u x y hx hy = hy

  run_task-Fate :
      (state : ClusterState) (target : String) (auth : SwitchAuthorization) (task : SwitchTask)
      (s : State W)
      → target ≢ state.primary
      → task.to ≡ target
      → (run_task sv state target auth task s).0.error ≡ none
      → Fate sv Next Later view
          (run_task sv state target auth task s).0.task
          s.world
          (run_task sv state target auth task s).1.world
  unfolding run_task dry_run_task Fate
  run_task-Fate state target auth task s other to =
      either-Fate task.dry_run s.world _ _ (λ h. inl refl)
        (settle-Fate sv Next Later view onward swaps target task
          (execute_switch sv state target auth s).0 s.world _
          (λ new e.
            subst
              (λ t.
                Advanced sv Next Later view t s.world
                  (execute_switch sv state target auth s).1.world)
              (sym to)
              (execute_switch-Advanced sv Next Later view onward swaps state new target auth s _
                other (with_end _ e))))

  closed-Fate :
      (o : Switched × State W) (u : W)
      → (o.0.error ≡ none → Fate sv Next Later view o.0.task u o.1.world)
      → (switched : Switched) (s' : State W) → close_task sv o ≡ (ok switched, s')
      → switched.error ≡ none
      → Fate sv Next Later view switched.task u s'.world
  unfolding close_task
  closed-Fate (switched', s) u fate switched s' h good =
      let same = ok_inj (ap (λ o. o.0) h) in
      let ends = ap (λ (t : State W). t.world) (ap (λ o. o.1) h) in
      subst (λ (x : Switched). Fate sv Next Later view x.task u s'.world) same
        (wider-Fate sv Next Later view onward _ u u s.world s'.world (onward.now_or_later u)
          (subst (λ v. Later s.world v) ends
            (close_task-keeps sv (notes_of sv (onward.frame s.world)) (switched', s)
              (onward.now_or_later s.world)))
          (fate (ap (λ (x : Switched). x.error) same ∙ good)))

  registered_task-Fate :
      (state : ClusterState) (target : String) (auth : SwitchAuthorization) (task : SwitchTask)
      (s s' : State W) (switched : Switched)
      → target ≢ state.primary
      → task.to ≡ target
      → registered_task sv state target auth task s ≡ (ok switched, s')
      → switched.error ≡ none
      → Fate sv Next Later view switched.task s.world s'.world
  unfolding registered_task
  registered_task-Fate state target auth task s s' switched other to h good =
      let (registered, done1, h1) = continue-ok _ _ _ h in
      let (stored, done2, h2) = continue-ok _ _ _ h1 in
      wider-Fate sv Next Later view onward _ s.world _ s'.world s'.world
        ((onward.frame s.world).put_task task s.world (onward.now_or_later s.world))
        (onward.now_or_later s'.world)
        (closed-Fate _ _ (run_task-Fate state target auth task _ other to) switched s' h2 good)

  locked_switch-Fate :
      (state : ClusterState) (target : String) (automatic : Bool) (auth : SwitchAuthorization)
      (s s' : State W) (switched : Switched)
      → locked_switch sv state target automatic auth s ≡ (ok switched, s')
      → switched.error ≡ none
      → Fate sv Next Later view switched.task s.world s'.world
  unfolding locked_switch
  locked_switch-Fate state target automatic auth s s' switched h good =
      let u = s.world in
      let (locked, d1, h1) = continue-ok _ _ _ h in
      let (same, h2) = required-ok _ _ _ _ h1 in
      let (known, h3) = required-ok _ _ _ _ h2 in
      let (other, h4) = required-ok _ _ _ _ h3 in
      let (cfg, d5, h5) = continue-ok _ _ _ h4 in
      let (candidate, d6, h6) = continue-ok _ _ _ h5 in
      let (eligible, h7) = required-ok _ _ _ _ h6 in
      let (started, d8, h8) = continue-ok _ _ _ h7 in
      let read = onward.get_cluster u u (onward.now_or_later u) in
      wider-Fate sv Next Later view onward _ u _ s'.world s'.world
        ((onward.frame u).now _ (onward.status target u _ read)) (onward.now_or_later s'.world)
        (registered_task-Fate state target auth _ _ _ switched
          (target_is_other sv (always sv Later onward u) target locked state same other) refl h8
          good)

  guarded_switch-Fate :
      (quote : String → String) (asked : String) (automatic : Bool) (state : ClusterState)
      (s s' : State W) (switched : Switched)
      → guarded_switch sv quote asked automatic state s ≡ (ok switched, s')
      → switched.error ≡ none
      → Fate sv Next Later view switched.task s.world s'.world
  unfolding guarded_switch
  guarded_switch-Fate quote asked automatic state s s' switched h good =
      let u = s.world in
      let (target, d1, h1) = continue-ok _ _ _ h in
      let (clients, d2, h2) = continue-ok _ _ _ h1 in
      let (configured, h3) = required-ok _ _ _ _ h2 in
      let (other, h4) = required-ok _ _ _ _ h3 in
      let (now, d5, h5) = continue-ok _ _ _ h4 in
      let (cfg, d6, h6) = continue-ok _ _ _ h5 in
      let (release, d7, h7) = continue-ok _ _ _ h6 in
      let resolved =
        reached _ _ (
          resolve_target-Ends sv (always sv Later onward u) asked state s
            (onward.now_or_later u)) in
      let released = ap (λ (t : State W). t.world) (ap (λ o. o.1) h7) in
      wider-Fate sv Next Later view onward _ u _ _ s'.world
        ((onward.frame u).acquire _ _ _ _ ((onward.frame u).now _ resolved))
        (until sv Next Later view onward released
          ((onward.frame _).release _ _ _ _ (with_end _ d7) _ (onward.now_or_later _)))
        (locked_switch-Fate state target automatic _ _ _ switched (with_end _ (ap (λ o. o.0) h7))
          good)

  -- Where every call moves time on and the store's conditional write is a compare-and-swap: a task that `Switch`
  -- returns without an error is that of a dry run, or it is completed, and then, between the call and its
  -- return, one change of the store replaced the cluster record by one that names the task's target and has
  -- the epoch after the replaced one.
  pub switch-Fate :
      (quote : String → String) (asked : String) (automatic : Bool) (s s' : State W)
      (switched : Switched)
      → switch sv quote asked automatic s ≡ (ok switched, s')
      → switched.error ≡ none
      → Fate sv Next Later view switched.task s.world s'.world
  unfolding switch
  switch-Fate quote asked automatic s s' switched h good =
      let u = s.world in
      let (leader, d1, h1) = continue-ok _ _ _ h in
      let (leads, h2) = required-ok _ _ _ _ h1 in
      let (bound, d3, h3) = continue-ok _ _ _ h2 in
      let (state, d4, h4) = continue-ok _ _ _ h3 in
      let led =
        reached _ _
          (leader_bound_context-Ends sv (always sv Later onward u) s (onward.now_or_later u)) in
      wider-Fate sv Next Later view onward _ u _ s'.world s'.world (onward.get_cluster u _ led)
        (onward.now_or_later s'.world)
        (guarded_switch-Fate quote asked automatic state _ _ switched h4 good)
