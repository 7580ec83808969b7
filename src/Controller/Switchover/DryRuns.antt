-- ===== src/Controller/Switchover/DryRuns.antt =====
-- What a dry run of `Switch` leaves as it was (internal/ha/controller.go).
use mathlib.Core.Logic.{if_pos, if_neg}
use ha.Base.{
  is_some, Option-cases, true, false, if◌then◌else◌, inr, inl, Bool-cases, Bool, str_dec, String, ℕ,
  ◌≡◌, refl,
}
use ha.Exec.Ends.{anyhow, Ends, after, given}
use ha.Exec.{Result, ok, err, require}
use ha.Model.{SwitchAuthorization, ClusterState, SwitchTask}
use ha.Controller.{Services, State, leader_bound_context}
use ha.Controller.Switch.{Switched}
use ha.Controller.Switchover.{
  is_dry_run, guarded_switch, run_task, registered_task, locked_switch, resolve_target, switch,
}
use ha.Controller.Protocol.{Notes}
use ha.Controller.Switchover.Registered.{dry_run_task-keeps, close_task-keeps}

module _ {W : Type 0} (sv : Services W) (P : W → Type 0) where
  -- `P` survives the calls that change neither a node, nor the cluster record, nor the fence and the route: the
  -- clock, metrics, alerts, the task records, the switch lock, and reads of the cluster record and of a status.
  pub record Unchanged : Type 0 where
    pub frame : Notes sv P
    pub get_cluster : (w : W) → P w → P (sv.store.get_cluster w).1
    pub status : (id : String) (w : W) → P w → P (sv.node.status id w).1

  abbrev At : State W → Type 0
  At s = P s.world

  -- The same, while the configuration asks for a dry run.
  abbrev Dry : Bool → State W → Type 0
  Dry automatic s = P s.world × (is_dry_run s.ctl.cfg automatic ≡ true)

  chosen :
      {A : Type 0} (Q : A → Type 0) (b : Bool) {x : A} (y : A)
      → b ≡ true
      → Q x
      → Q (if b then x else y)
  chosen Q true y h k = k
  chosen Q false y h k = cc

  module _ (automatic : Bool) where
    goes_on :
        {A : Type 0} (r : Result A) (s : State W)
        → Dry automatic s
        → Ends (λ _. Dry automatic) At (r, s)
    goes_on (ok a) s h = record { how = h }
    goes_on (err e) s h = record { how = h.0 }

    guard_goes_on :
        (b : Bool) (e : String) (s : State W)
        → Dry automatic s
        → Ends (λ _. Dry automatic) At (require b e s)
    unfolding require
    guard_goes_on true e s h = record { how = h }
    guard_goes_on false e s h = record { how = h.0 }

    module _ (laws : Unchanged) where
      registered_task-At :
          (state : ClusterState) (target : String) (auth : SwitchAuthorization) (task : SwitchTask)
          (s : State W)
          → task.dry_run ≡ true
          → Dry automatic s
          → Ends (λ _. At) At (registered_task sv state target auth task s)
      unfolding registered_task run_task
      registered_task-At state target auth task s dry h = given _ _ _ (
          after (λ _. Dry automatic) _ _ _ (goes_on _ _ (laws.frame.put_task task s.world h.0, h.1))
            λ _ s1 h1. anyhow _ _ (
              close_task-keeps sv laws.frame _ (
                chosen {A = Switched × State W} (λ o. At o.1) task.dry_run _ dry
                  (dry_run_task-keeps sv laws.frame state.primary target task s1 h1.0))))

      locked_switch-At :
          (state : ClusterState) (target : String) (auth : SwitchAuthorization) (s : State W)
          → Dry automatic s
          → Ends (λ _. At) At (locked_switch sv state target automatic auth s)
      unfolding locked_switch
      locked_switch-At state target auth s h =
          let K = λ (s : State W). Dry automatic s in
          after (λ _. K) _ _ _ (goes_on _ _ (laws.get_cluster s.world h.0, h.1))
            λ locked s1 h1.
              after (λ _. K) _ _ _ (guard_goes_on _ _ s1 h1)
                λ _ s2 h2.
                  after (λ _. K) _ _ _ (guard_goes_on _ _ s2 h2)
                    λ _ s3 h3.
                      after (λ _. K) _ _ _ (guard_goes_on _ _ s3 h3)
                        λ _ s4 h4. given _ _ _ (
                          given _ _ _ (
                            after (λ _. K) _ _ _
                              (guard_goes_on _ _ _ (laws.status target s4.world h4.0, h4.1))
                              λ _ s5 h5. given _ _ _ (
                                registered_task-At state target auth _ _ h4.1
                                  (laws.frame.now s5.world h5.0, h5.1))))

      leader_bound_context-Dry :
          (s : State W) → Dry automatic s → Ends (λ _. Dry automatic) At (leader_bound_context sv s)
      unfolding leader_bound_context
      leader_bound_context-Dry s h = elim (Option-cases s.ctl.leader_ctx) [
        | inl e ↦ rw (e, leader_bound_context) (record { how = h.0 })
        | inr (c, e) ↦ elim (Bool-cases (is_some (sv.ctx_err c s.world))) [
          | inl gone ↦ rw (e, leader_bound_context) (rw gone (record { how = h.0 }))
          | inr alive ↦ rw (e, leader_bound_context) (rw alive (record { how = h }))
        ]
      ]

      resolve_target-Dry :
          (asked : String) (state : ClusterState) (s : State W)
          → Dry automatic s
          → Ends (λ _. Dry automatic) At (resolve_target asked state s)
      unfolding resolve_target
      resolve_target-Dry asked state s h = elim (str_dec asked "") [
        | yes e ↦ rw (if_pos _ e) (goes_on _ _ h)
        | no e ↦ rw (if_neg _ e) (record { how = h })
      ]

      ending : {A : Type 0} (r : Result A) (t : State W) → Ends (λ _. At) At (r, t) → At t
      ending (ok a) t e = e.how
      ending (err x) t e = e.how

      acquired :
          (holder : String) (ttl : ℕ) (auth : SwitchAuthorization) (w : W) (r : Result (W → W))
          (w' : W) (s : State W)
          → sv.store.acquire_switch_lock holder ttl auth w ≡ (r, w')
          → Dry automatic (record s { world = w' })
          → Ends
              (λ release t. Dry automatic t × ((u : W) → P u → P (release u)))
              At
              (r, record s { world = w' })
      acquired holder ttl auth w (ok release) w' s e h = record {
        how = (h, laws.frame.release holder ttl auth w e);
      }
      acquired holder ttl auth w (err x) w' s e h = record { how = h.0 }

      guarded_switch-At :
          (quote : String → String) (asked : String) (state : ClusterState) (s : State W)
          → Dry automatic s
          → Ends (λ _. At) At (guarded_switch sv quote asked automatic state s)
      unfolding guarded_switch
      guarded_switch-At quote asked state s h =
          let K = λ (s : State W). Dry automatic s in
          after (λ _. K) _ _ _ (resolve_target-Dry asked state s h)
            λ target s1 h1. given _ _ _ (
              after (λ _. K) _ _ _ (guard_goes_on _ _ s1 h1)
                λ _ s2 h2.
                  after (λ _. K) _ _ _ (guard_goes_on _ _ s2 h2)
                    λ _ s3 h3. given _ _ _ (
                      given _ _ _ (
                        after (λ release t. Dry automatic t × ((u : W) → P u → P (release u))) _ _ _
                          (acquired _ _ _ _ _ _ s3 refl
                            (laws.frame.acquire _ _ _ _ (laws.frame.now s3.world h3.0), h3.1))
                          λ release s4 h4.
                            anyhow _ _
                              (h4.1 _ (ending _ _ (locked_switch-At state target _ s4 h4.0))))))

      switch-At :
          (quote : String → String) (asked : String) (s : State W)
          → Dry automatic s
          → Ends (λ _. At) At (switch sv quote asked automatic s)
      unfolding switch
      switch-At quote asked s h = given _ _ _ (
          after (λ _. Dry automatic) _ _ _ (guard_goes_on _ _ s h)
            λ _ s1 h1.
              after (λ _. Dry automatic) _ _ _ (leader_bound_context-Dry s1 h1)
                λ _ s2 h2.
                  after (λ _. Dry automatic) _ _ _
                    (goes_on _ _ (laws.get_cluster s2.world h2.0, h2.1))
                    λ state s3 h3. guarded_switch-At quote asked state s3 h3)

      -- Where the configuration does not execute actions, or the switch is automatic and failovers are not
      -- executed, `Switch` keeps every fact that neither a look at a node, nor reads of the cluster
      -- record, nor the task records, nor the lock, nor alerts, metrics and the clock change: it reaches no
      -- fence, no route, no operation of an agent and no write of the cluster record.
      pub switch_dry_run :
          (quote : String → String) (asked : String) (s : State W)
          → is_dry_run s.ctl.cfg automatic ≡ true
          → P s.world
          → P (switch sv quote asked automatic s).1.world
      switch_dry_run quote asked s dry h = ending _ _ (switch-At quote asked s (h, dry))
