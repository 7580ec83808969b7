-- ===== src/Controller/Switchover/Completes.antt =====
-- A `Switch` over services that answer it goes through (internal/ha/controller.go).
use mathlib.Core.Logic.{if_pos, if_neg}
use ha.Base.{
  ℕ, inl, inr, ◌⊎◌, ◌≢◌, if◌then◌else◌, ap, some, false, refl, ◌==◌, ◌&&◌, none, eqb, String, ◌<◌,
  ◌≡◌, Bool, true, arith,
}
use ha.Controller.{leader_bound_context, SwitchTask, ℤ, Services, Controller, State}
use ha.Controller.Target.{choose_target}
use ha.Controller.Switchover.{
  switch, guarded_switch, resolve_target, is_dry_run, run_task, close_task, registered_task,
  locked_switch,
}
use ha.Exec.{Result, ok, err}
use ha.Exec.Ends.{moved, after, given}
use ha.Exec.Surely.{Surely-ok, Surely, passing}
use ha.Model.{SwitchAuthorization, ClusterState, uint64_mod}
use ha.Controller.Switch.{complete_task, settle, Switched, has_client, execute_switch}
use ha.Controller.Switchover.Responsive.{Responsive}
use ha.Controller.Switchover.Responsive.Executed.{At, called, execute_switch-Surely}

otherwise :
    {A : Type 0} (P : A → Type 0) (b : Bool) (x y : A) → b ≡ false → P y → P (if b then x else y)
otherwise P true x y e h = absurd (ground (arith, e))
otherwise P false x y e h = h

module _ {W : Type 0} (sv : Services W) (c : ClusterState) (target : String) (automatic : Bool)
    (max_lag : ℤ) (resp : Responsive sv c target automatic max_lag) where
  -- A task of this switch that is completed.
  pub record IsCompleted (switched : Switched) : Type 0 where
    pub error : switched.error ≡ none
    pub state : switched.task.state ≡ "completed"
    pub from : switched.task.from ≡ c.primary
    pub to : switched.task.to ≡ target

  -- A controller that executes the switch, and knows both of its nodes.
  pub record IsReady (ctl : Controller) : Type 0 where
    pub executes : is_dry_run ctl.cfg automatic ≡ false
    pub limit : ctl.cfg.max_replica_lag_seconds ≡ max_lag
    pub knows_primary : has_client c.primary ctl.clients ≡ true
    pub knows_target : has_client target ctl.clients ≡ true

  settle-IsCompleted :
      (task : SwitchTask) (r : Result ClusterState) (s : State W)
      → task.from ≡ c.primary
      → task.to ≡ target
      → Surely (λ _ _. Unit {0}) (r, s)
      → IsCompleted (settle sv target task r s).0
  unfolding settle complete_task
  settle-IsCompleted task (ok new) s from to h = record {
    error = refl;
    state = refl;
    from = from;
    to = to;
  }
  settle-IsCompleted task (err e) s from to h = absurd h.how

  run_task-IsCompleted :
      (auth : SwitchAuthorization) (task : SwitchTask) (s : State W)
      → task.dry_run ≡ false
      → task.from ≡ c.primary
      → task.to ≡ target
      → Surely (λ _ _. Unit {0}) (execute_switch sv c target auth s)
      → IsCompleted (run_task sv c target auth task s).0
  unfolding run_task
  run_task-IsCompleted auth task s real from to h =
      otherwise (λ (o : Switched × State W). IsCompleted o.0) task.dry_run _ _ real
        (settle-IsCompleted task _ _ from to h)

  registered_task-Surely :
      (auth : SwitchAuthorization) (task : SwitchTask) (ctl : Controller) (s : State W)
      → c.epoch < uint64_mod
      → IsReady ctl
      → task.dry_run ≡ false
      → task.from ≡ c.primary
      → task.to ≡ target
      → At resp.Locked ctl s
      → Surely (λ sw _. IsCompleted sw) (registered_task sv c target auth task s)
  unfolding registered_task close_task
  registered_task-Surely auth task ctl s small ready real from to h =
      let ctl' = record ctl { tripping = true; last_task = some task } in
      let s' : State W = record s {
        ctl = record s.ctl { tripping = true; last_task = some task };
      } in
      given _ _ _ (
        after (λ _. At resp.Locked ctl') _ _ _
          (called _ ctl' s'
            (ap (λ (x : Controller). record x { tripping = true; last_task = some task }) h.0)
            (resp.put_task task s.world h.1))
          λ _ s1 h1. record {
            how = run_task-IsCompleted auth task s1 real from to (
                execute_switch-Surely sv c target automatic max_lag resp auth ctl' s1 small
                  ready.knows_primary h1);
          })

  same_cluster : (d : ClusterState) → d ≡ c → (eqb d.epoch c.epoch && d.primary == c.primary) ≡ true
  same_cluster d h = rw h (ground arith)

  locked_switch-Surely :
      (auth : SwitchAuthorization) (ctl : Controller) (s : State W)
      → c.epoch < uint64_mod
      → c.primary ≢ ""
      → target ≢ c.primary
      → IsReady ctl
      → At resp.Locked ctl s
      → Surely (λ sw _. IsCompleted sw) (locked_switch sv c target automatic auth s)
  unfolding locked_switch
  locked_switch-Surely auth ctl s small primary other ready h =
      after (λ d. At (λ v. (d ≡ c) × resp.Locked v) ctl) _ _ _
        (called _ ctl s h.0 (resp.get_cluster_locked s.world h.1))
        λ d s1 h1.
          let at1 : At resp.Locked ctl s1 = (h1.0, h1.1.1) in
          after (λ _. At resp.Locked ctl) _ _ _
            (passing (At resp.Locked ctl) _ _ s1 (same_cluster d h1.1.0) at1)
            λ _ s2 h2.
              after (λ _. At resp.Locked ctl) _ _ _
                (passing (At resp.Locked ctl) _ _ s2 (rw h1.1.0 (ground arith)) h2)
                λ _ s3 h3.
                  after (λ _. At resp.Locked ctl) _ _ _
                    (passing (At resp.Locked ctl) _ _ s3 (rw h1.1.0 (ground arith)) h3)
                    λ _ s4 h4.
                      let (eligible, still) = resp.eligible s4.world h4.1 in
                      given _ _ _ (
                        given _ _ _ (
                          after (λ _. At resp.Locked ctl) _ _ _
                            (passing (At resp.Locked ctl) _ _ _
                              (rw (h4.0, ready.executes, ready.limit) eligible) (h4.0, still))
                            λ _ s5 h5. given _ _ _ (
                              registered_task-Surely auth _ ctl _ small ready
                                (rw h4.0 ready.executes) refl refl
                                (h5.0, resp.now_locked s5.world h5.1))))

  -- The target is the one that was asked for, or the one that is chosen where none was.
  abbrev pub Aims : String → Controller → Type 0
  Aims asked ctl =
      ((asked ≢ "") × (asked ≡ target))
      ⊎ ((asked ≡ "")
          × (choose_target ctl.cfg.max_replica_lag_seconds ctl.statuses c.primary ≡ ok target))

  resolve_target-Surely :
      (asked : String) (ctl : Controller) (s : State W)
      → Aims asked ctl
      → At resp.Ready ctl s
      → Surely (λ t. At (λ v. (t ≡ target) × resp.Ready v) ctl) (resolve_target asked c s)
  unfolding resolve_target
  resolve_target-Surely asked ctl s (inl (named, same)) h =
      rw (if_neg _ named) (record { how = (h.0, (same, h.1)) })
  resolve_target-Surely asked ctl s (inr (empty, chosen)) h =
      rw (if_pos _ empty, h.0, chosen) (record { how = (refl, (refl, h.1)) })

  guarded_switch-Surely :
      (quote : String → String) (asked : String) (ctl : Controller) (s : State W)
      → c.epoch < uint64_mod
      → c.primary ≢ ""
      → target ≢ c.primary
      → IsReady ctl
      → Aims asked ctl
      → At resp.Ready ctl s
      → Surely (λ sw _. IsCompleted sw) (guarded_switch sv quote asked automatic c s)
  unfolding guarded_switch
  guarded_switch-Surely quote asked ctl s small primary other ready aims h =
      after (λ t. At (λ v. (t ≡ target) × resp.Ready v) ctl) _ _ _
        (resolve_target-Surely asked ctl s aims h)
        λ t s1 h1. rw h1.1.0 (
          given _ _ _ (
            after (λ _. At resp.Ready ctl) _ _ _
              (passing (At resp.Ready ctl) _ _ s1 (rw h1.0 ready.knows_target) (h1.0, h1.1.1))
              λ _ s2 h2.
                after (λ _. At resp.Ready ctl) _ _ _
                  (passing (At resp.Ready ctl) _ _ s2 (ground arith) h2)
                  λ _ s3 h3. given _ _ _ (
                    given _ _ _ (
                      after (λ _. At resp.Locked ctl) _ _ _
                        (called _ ctl (record s3 { world = (sv.now s3.world).1 }) h3.0
                          (resp.acquire _ _ _ _ (resp.now_ready s3.world h3.1)))
                        λ release s4 h4.
                          moved _ (λ sw done. done) (λ impossible. impossible)
                            (locked_switch-Surely _ ctl s4 small primary other ready h4)))))

  leader_bound_context-Surely :
      (s : State W) (ctx : ℕ)
      → s.ctl.leader_ctx ≡ some ctx
      → sv.ctx_err ctx s.world ≡ none
      → Surely (λ _ t. t ≡ s) (leader_bound_context sv s)
  unfolding leader_bound_context
  leader_bound_context-Surely s ctx bound live =
      simp (bound, leader_bound_context, live) (record { how = refl })

  -- Where the services answer each call as its stage of a switch needs it: a leader that executes switches and
  -- knows the primary and the target returns a completed task and no error.
  pub switch_completes :
      (quote : String → String) (asked : String) (s : State W) (ctx : ℕ)
      → s.ctl.leader ≡ true
      → s.ctl.leader_ctx ≡ some ctx
      → sv.ctx_err ctx s.world ≡ none
      → IsReady s.ctl
      → Aims asked s.ctl
      → c.epoch < uint64_mod
      → c.primary ≢ ""
      → target ≢ c.primary
      → resp.Ready s.world
      → (switched : Switched) × ((switch sv quote asked automatic s).0 ≡ ok switched)
        × IsCompleted switched
  unfolding switch
  switch_completes quote asked s ctx leads bound live ready aims small primary other h =
      Surely-ok {Q = λ sw _. IsCompleted sw} _ _ (
        given _ _ _ (
          after (λ _ t. t ≡ s) _ _ _ (passing (λ t. t ≡ s) _ _ s leads refl)
            λ _ s1 same. rw same (
              after (λ _ t. t ≡ s) _ _ _ (leader_bound_context-Surely s ctx bound live)
                λ _ s2 still. rw still (
                  after (λ d. At (λ v. (d ≡ c) × resp.Ready v) s.ctl) _ _ _
                    (called _ s.ctl s refl (resp.get_cluster s.world h))
                    λ d s3 h3. rw h3.1.0 (
                      guarded_switch-Surely quote asked s.ctl s3 small primary other ready aims
                        (h3.0, h3.1.1))))))
