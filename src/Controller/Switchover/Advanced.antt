-- ===== src/Controller/Switchover/Advanced.antt =====
-- What the execution of a switch (internal/ha/controller.go) writes to a store that compares and swaps, and when.
use mathlib.Core.Path.{subst}
use ha.Base.{List, ◌≢◌, String, ℕ, ◌+◌, ◌-◌, ◌%◌, ◌≡◌, ◌⊎◌, inl, inr, refl, ap, none, arith}
use ha.Exec.{with_end, map_err-ok, Result, ok, err, continue-ok}
use ha.Model.{ClusterState, SwitchAuthorization, SwitchTask, uint64_mod}
use ha.Store.Cas.{Swapped, Swaps, within}
use ha.Controller.{AgentNodeConfig, Services, State}
use ha.Controller.Onward.{Onward, always, reached}
use ha.Controller.Protocol.{notes_of}
use ha.Controller.Switchover.Follows.{
  fence_old_primary-Ends, promote_target-Ends, reconfigure_replicas-Ends,
}
use ha.Controller.Switchover.Registered.{complete_task-keeps}
use ha.Controller.Switch.{
  promote_target, fence_old_primary, reconfigure_replicas, persist_primary, execute_switch,
  complete_task, finish_task, settle,
}

module _ {W : Type 0} (sv : Services W) (Next Later : W → W → Type 0)
    (view : W → Result ClusterState) where
  -- Between two states the cluster record was replaced by one that names the target, with the next epoch.
  pub record Advanced (target : String) (w w' : W) : Type 0 where
    pub new : ClusterState
    pub expected : ℕ
    pub swapped : Swapped Next Later view expected new w w'
    pub primary : new.primary ≡ target
    pub epoch : new.epoch ≡ (expected + 1) % uint64_mod

  -- How a task that has no error ended, between two states.
  unfoldable pub Fate : SwitchTask → W → W → Type 0
  Fate task w w' = (task.state ≡ "dry-run") ⊎ ((task.state ≡ "completed") × Advanced task.to w w')

  module _ (onward : Onward sv Later) where
    wider :
        {target : String} (u w w' v : W)
        → Later u w
        → Later w' v
        → Advanced target w w'
        → Advanced target u v
    wider u w w' v first last a = record {
      new = a.new;
      expected = a.expected;
      swapped = within Next Later view onward.later u w w' v first last a.swapped;
      primary = a.primary;
      epoch = a.epoch;
    }

    pub wider-Fate :
        (task : SwitchTask) (u w w' v : W) → Later u w → Later w' v → Fate task w w' → Fate task u v
    unfolding Fate
    wider-Fate task u w w' v first last (inl dry) = inl dry
    wider-Fate task u w w' v first last (inr (completed, a)) =
        inr (completed, wider u w w' v first last a)

    pub until : {a b c : W} → b ≡ c → Later a b → Later a c
    until {a} e h = subst (λ v. Later a v) e h

    module _ (swaps : Swaps Next Later view sv.store.put_cluster_if_epoch) where
      persist_primary-Advanced :
          (state new : ClusterState) (target : String) (s s' : State W)
          → persist_primary sv state target s ≡ (ok new, s')
          → Advanced target s.world s'.world
      unfolding persist_primary
      persist_primary-Advanced state new target s s' h =
          let (updated, asked, h1) = continue-ok _ _ _ h in
          let (done, written, h2) = continue-ok _ _ _ h1 in
          let epoch : ℕ = (state.epoch + 1) % uint64_mod in
          let record_of : ClusterState = record state {
            primary = target;
            epoch = epoch;
            updated_at = updated;
          } in
          let expected : ℕ = (epoch + (uint64_mod - 1)) % uint64_mod in
          let start : W = (sv.now s.world).1 in
          let end : W = (sv.store.put_cluster_if_epoch expected record_of start).1 in
          let put : (sv.store.put_cluster_if_epoch expected record_of start).0 ≡ ok done =
            map_err-ok _ _ written in
          let ends : end ≡ s'.world = ap (λ (t : State W). t.world) (ap (λ o. o.1) h2) in
          wider s.world start end s'.world
            ((onward.frame s.world).now s.world (onward.now_or_later s.world))
            (subst (λ v. Later end v) ends (onward.now_or_later end))
            (record {
              new = record_of;
              expected = expected;
              swapped =
                  swaps expected record_of start end
                    (with_end (sv.store.put_cluster_if_epoch expected record_of start) put);
              primary = refl;
              epoch = omega arith;
            })

      -- The part of a switch after the record was written.
      routed :
          (target : String) (auth : SwitchAuthorization) (source : AgentNodeConfig)
          (ids : List String) (u : W) (s : State W)
          → Later u s.world
          → Later u
              (reconfigure_replicas sv ids target auth source
                (record s { world = (sv.set_primary target s.world).1 })).1.world
      routed target auth source ids u s h = reached _ _ (
          reconfigure_replicas-Ends sv (always sv Later onward u) ids target auth source _
            ((onward.frame u).set_primary target s.world h))

      pub execute_switch-Advanced :
          (state new : ClusterState) (target : String) (auth : SwitchAuthorization) (s s' : State W)
          → target ≢ state.primary
          → execute_switch sv state target auth s ≡ (ok new, s')
          → Advanced target s.world s'.world
      unfolding execute_switch
      execute_switch-Advanced state new target auth s s' other h =
          let on = always sv Later onward s.world in
          let fenced_at = (fence_old_primary sv state.primary auth s).1 in
          let promoted_at = (promote_target sv state.primary target auth fenced_at).1 in
          let persisted_at = (persist_primary sv state target promoted_at).1 in
          let (fenced, done1, h1) = continue-ok _ _ _ h in
          let begun =
            reached _ _
              (fence_old_primary-Ends sv on state.primary auth s (onward.now_or_later s.world)) in
          let (promoted, done2, h2) = continue-ok _ _ _ h1 in
          let begun2 =
            reached _ _ (promote_target-Ends sv on state.primary target auth _ other begun) in
          let (written, done3, h3) = continue-ok _ _ _ h2 in
          let (updated, done4, h4) = continue-ok _ _ _ h3 in
          let (ctl, done5, h5) = continue-ok _ _ _ h4 in
          let (followed, done6, h6) = continue-ok _ _ _ h5 in
          let ends = ap (λ (t : State W). t.world) (ap (λ o. o.1) h6) in
          wider s.world promoted_at.world persisted_at.world s'.world begun2
            (subst (λ v. Later persisted_at.world v) ends
              (routed target auth _ _ _ _ (onward.now_or_later _)))
            (persist_primary-Advanced state written target _ _ (with_end _ done3))

      completed :
          (target : String) (task : SwitchTask) (new : ClusterState) (u : W) (s : State W)
          → Advanced task.to u (complete_task sv target task new s).1.world
          → Fate
              (complete_task sv target task new s).0.task
              u
              (complete_task sv target task new s).1.world
      unfolding complete_task Fate
      completed target task new u s a = inr (refl, a)

      pub settle-Fate :
          (target : String) (task : SwitchTask) (r : Result ClusterState) (u : W) (s : State W)
          → ((new : ClusterState) → r ≡ ok new → Advanced task.to u s.world)
          → (settle sv target task r s).0.error ≡ none
          → Fate (settle sv target task r s).0.task u (settle sv target task r s).1.world
      unfolding settle finish_task
      settle-Fate target task (ok new) u s advanced h =
          let kept =
            complete_task-keeps sv (notes_of sv (onward.frame s.world)) target task new s
              (onward.now_or_later s.world) in
          completed target task new u s
            (wider u u s.world _ (onward.now_or_later u) kept (advanced new refl))
      settle-Fate target task (err e) u s advanced h = cc
