-- ===== src/Controller/Switchover/Safety.antt =====
-- `Switch` as a whole (internal/ha/controller.go) against a protocol: its guards, the lock, and the deferred calls.
use mathlib.Core.Logic.{if_pos, if_neg}
use ha.Base.{
  is_some, Option-cases, ◌&&◌, not, ◌==◌, true, arith, inr, inl, Bool-cases, eqb, Bool, ◌≢◌,
  str_dec, String, ℕ, ◌≡◌, refl,
}
use ha.Exec.{ok_inj, err≢ok}
use ha.Exec.Ends.{moved, Ends, after, given}
use ha.Model.{SwitchAuthorization, ClusterState}
use ha.Controller.{err, ok, Result, Services, State, leader_bound_context}
use ha.Controller.Switch.{Switched}
use ha.Controller.Switchover.{guarded_switch, locked_switch, resolve_target, switch}
use ha.Controller.Protocol.{Protocol}
use ha.Controller.Switchover.Follows.{On, Safely, called, kept, guarded}
use ha.Controller.Switchover.Registered.{Left, registered_task-Ends}

module _ {W : Type 0} (sv : Services W) (proto : Protocol sv) where
  pub target_is_other :
      (target : String) (locked state : ClusterState)
      → (eqb locked.epoch state.epoch && locked.primary == state.primary) ≡ true
      → not (target == locked.primary) ≡ true
      → target ≢ state.primary
  target_is_other target locked state same other = ground arith

  locked_switch-Ends :
      (state : ClusterState) (target : String) (automatic : Bool) (auth : SwitchAuthorization)
      (s : State W)
      → proto.Started state.primary s.world
      → Ends (Left sv proto) (Safely sv proto) (locked_switch sv state target automatic auth s)
  unfolding locked_switch
  locked_switch-Ends state target automatic auth s h =
      let P = proto.Started state.primary in
      let weaken = proto.started-Safe state.primary in
      after (λ _. On sv proto P) _ _ _
        (called sv proto _
          (kept sv proto P _ weaken (proto.get_cluster_started state.primary s.world h)))
        λ locked s1 h1. after _ _ _ _ (guarded sv proto P _ _ s1 weaken h1) λ _ s2 h2.
          after _ _ _ _ (guarded sv proto P _ _ s2 weaken h2.0) λ _ s3 h3.
            after _ _ _ _ (guarded sv proto P _ _ s3 weaken h3.0) λ _ s4 h4. given _ _ _ (
              given _ _ _ (
                after _ _ _ _
                  (guarded sv proto P _ _ _ weaken
                    (proto.status_started state.primary target s4.world h4.0))
                  λ _ s5 h5. given _ _ _ (
                    registered_task-Ends sv proto state target auth _ _
                      (target_is_other target locked state h2.1 h4.1) refl
                      ((proto.started-Frame state.primary).now s5.world h5.0))))

  pub resolve_target-Ends :
      (asked : String) (state : ClusterState) (s : State W)
      → proto.Started state.primary s.world
      → Ends
          (λ _. On sv proto (proto.Started state.primary))
          (Safely sv proto)
          (resolve_target asked state s)
  unfolding resolve_target
  resolve_target-Ends asked state s h = elim (str_dec asked "") [
    | yes e ↦ rw (if_pos _ e) (
        called sv proto _
          (kept sv proto (proto.Started state.primary) _ (proto.started-Safe state.primary) h))
    | no e ↦ rw (if_neg _ e) (record { how = h })
  ]

  ending :
      (r : Result Switched) (t : State W)
      → Ends (Left sv proto) (Safely sv proto) (r, t)
      → proto.Safe t.world
  ending (ok switched) t e = e.how.0
  ending (err x) t e = e.how

  pub leader_bound_context-Ends :
      (s : State W)
      → proto.Before s.world
      → Ends (λ _. On sv proto proto.Before) (Safely sv proto) (leader_bound_context sv s)
  unfolding leader_bound_context
  leader_bound_context-Ends s h = elim (Option-cases s.ctl.leader_ctx) [
    | inl e ↦ rw (e, leader_bound_context) (record { how = proto.before-Safe s.world h })
    | inr (c, e) ↦ elim (Bool-cases (is_some (sv.ctx_err c s.world))) [
      | inl gone ↦
          rw (e, leader_bound_context) (rw gone (record { how = proto.before-Safe s.world h }))
      | inr alive ↦ rw (e, leader_bound_context) (rw alive (record { how = h }))
    ]
  ]

  -- The function that releases the lock keeps safe states safe, and those after a promotion too.
  acquired :
      (p holder : String) (ttl : ℕ) (auth : SwitchAuthorization) (w : W) (r : Result (W → W))
      (w' : W)
      → sv.store.acquire_switch_lock holder ttl auth w ≡ (r, w')
      → proto.Started p w'
      → Ends
          (λ release v.
            proto.Started p v
            × ((u : W) → proto.Safe u → proto.Safe (release u))
            × ((t : String) (u : W) → proto.Promoted t u → proto.Promoted t (release u)))
          proto.Safe
          (r, w')
  acquired p holder ttl auth w (ok release) w' e h = record {
    how = (
      h,
      proto.safe-Frame.release holder ttl auth w e,
      λ t. (proto.promoted-Frame t).release holder ttl auth w e,
    );
  }
  acquired p holder ttl auth w (err x) w' e h = record { how = proto.started-Safe p w' h }

  guarded_switch-Ends :
      (quote : String → String) (asked : String) (automatic : Bool) (state : ClusterState)
      (s : State W)
      → proto.Started state.primary s.world
      → Ends (Left sv proto) (Safely sv proto) (guarded_switch sv quote asked automatic state s)
  unfolding guarded_switch
  guarded_switch-Ends quote asked automatic state s h =
      let P = proto.Started state.primary in
      let weaken = proto.started-Safe state.primary in
      after _ _ _ _ (resolve_target-Ends asked state s h) λ target s1 h1. given _ _ _ (
        after _ _ _ _ (guarded sv proto P _ _ s1 weaken h1) λ _ s2 h2.
          after _ _ _ _ (guarded sv proto P _ _ s2 weaken h2.0) λ _ s3 h3.
            let F = proto.started-Frame state.primary in
            given _ _ _ (
              given _ _ _ (
                after _ _ _ _
                  (called sv proto _ (
                    acquired state.primary _ _ _ _ _ _ refl
                      (F.acquire _ _ _ _ (F.now s3.world h3.0))))
                  λ release s4 h4.
                    moved _ (λ switched left. (h4.1 _ left.0, λ e. h4.2 _ _ (left.1 e)))
                      (λ safe. h4.1 _ safe) (locked_switch-Ends state target automatic _ s4 h4.0))))

  switch-Ends :
      (quote : String → String) (asked : String) (automatic : Bool) (s : State W)
      → proto.Before s.world
      → Ends (Left sv proto) (Safely sv proto) (switch sv quote asked automatic s)
  unfolding switch
  switch-Ends quote asked automatic s h = given _ _ _ (
      after _ _ _ _ (guarded sv proto proto.Before _ _ s proto.before-Safe h) λ _ s1 h1.
        after _ _ _ _ (leader_bound_context-Ends s1 h1.0) λ _ s2 h2.
          after (λ c. On sv proto (proto.Started c.primary)) _ _ _
            (called sv proto _ (proto.get_cluster_before s2.world h2))
            λ state s3 h3. guarded_switch-Ends quote asked automatic state s3 h3)

  -- Every run of `Switch` from a state in the first stage of a protocol ends in a safe state, whether it
  -- returns a task, an error or both.
  pub switch_follows_protocol :
      (quote : String → String) (asked : String) (automatic : Bool) (s : State W)
      → proto.Before s.world
      → proto.Safe (switch sv quote asked automatic s).1.world
  switch_follows_protocol quote asked automatic s h =
      ending _ _ (switch-Ends quote asked automatic s h)

  -- A run that ends with a completed task has promoted the target of the task, and no later call undid it.
  pub switch_completes_protocol :
      (quote : String → String) (asked : String) (automatic : Bool) (s : State W)
      (switched : Switched)
      → proto.Before s.world
      → (switch sv quote asked automatic s).0 ≡ ok switched
      → switched.task.state ≡ "completed"
      → proto.Promoted switched.task.to (switch sv quote asked automatic s).1.world
  switch_completes_protocol quote asked automatic s switched h returned completed =
      reached _ _ (switch-Ends quote asked automatic s h) returned completed
    where
      reached :
          (r : Result Switched) (t : State W)
          → Ends (Left sv proto) (Safely sv proto) (r, t)
          → r ≡ ok switched
          → switched.task.state ≡ "completed"
          → proto.Promoted switched.task.to t.world
      reached (ok x) t e same = rw (← ok_inj same) e.how.1
      reached (err x) t e same = absurd (err≢ok same)
