-- ===== src/Controller/Switchover/Follows.antt =====
-- The steps of `Switch` (internal/ha/controller.go) as moves between the stages of a protocol.
use mathlib.Core.Logic.{if_pos, if_neg}
use ha.Base.{str_dec, String, ◌≡◌, ◌≢◌, Bool, true, List, [], ◌∷◌}
use ha.Exec.{Result, ok, err, require}
use ha.Exec.Ends.{checked, given, Ends, after, wrapped, required}
use ha.Model.{AgentNodeConfig, SwitchAuthorization, ClusterState}
use ha.Controller.{Services, Controller, State}
use ha.Controller.Switch.{
  fence_old_primary, promote_target, persist_primary, reconfigure_replicas, execute_switch,
  has_client,
}
use ha.Controller.Protocol.{Protocol}

module _ {W : Type 0} (sv : Services W) (proto : Protocol sv) where
  abbrev pub On : (W → Type 0) → State W → Type 0
  On P s = P s.world

  abbrev pub Safely : State W → Type 0
  Safely = On proto.Safe

  -- A call of the outside, by what it does there.
  pub called :
      {A : Type 0} {Q : A → W → Type 0} (r : Result A) {ctl : Controller} {w : W}
      → Ends Q proto.Safe (r, w)
      → Ends {S = State W} (λ a. On (Q a)) Safely (r, record { ctl = ctl; world = w })
  called (ok a) h = record { how = h.how }
  called (err e) h = record { how = h.how }

  -- A call that keeps `P` however it ends.
  pub kept :
      {A : Type 0} (P : W → Type 0) (r : Result A) {w : W}
      → ((v : W) → P v → proto.Safe v)
      → P w
      → Ends (λ _. P) proto.Safe (r, w)
  kept P (ok a) weaken h = record { how = h }
  kept P (err e) weaken h = record { how = weaken _ h }

  -- A guard on a state of the outside.
  pub guarded :
      (P : W → Type 0) (b : Bool) (e : String) (s : State W)
      → ((w : W) → P w → proto.Safe w)
      → P s.world
      → Ends (λ _ t. On P t × (b ≡ true)) Safely (require b e s)
  guarded P b e s weaken h = required (On P) Safely b e s (weaken s.world) h

  pub fence_old_primary-Ends :
      (primary : String) (auth : SwitchAuthorization) (s : State W)
      → proto.Started primary s.world
      → Ends (λ _. On (proto.Fenced primary)) Safely (fence_old_primary sv primary auth s)
  unfolding fence_old_primary
  fence_old_primary-Ends primary auth s h =
      let P = proto.Started primary in
      after (λ _. On P) _ _ _
        (called _ (
          kept P _ (proto.started-Safe primary)
            ((proto.started-Frame primary).fence primary s.world h)))
        λ _ s1 h1. given _ _ _ (
          after (λ _ t. On P t × (has_client primary s1.ctl.clients ≡ true)) _ _ _
            (guarded P _ _ s1 (proto.started-Safe primary) h1)
            λ _ s2 h2.
              after (λ _. On (proto.Demoted primary)) _ _ _
                (wrapped _ _ (called _ (proto.demote primary auth s2.world h2.0)))
                λ _ s3 h3.
                  let (safe, fenced) = proto.confirm primary s3.world h3 in
                  given _ _ _
                    (checked (λ _. On (proto.Fenced primary)) Safely _ _ _ (λ e. fenced e) safe))

  pub promote_target-Ends :
      (primary target : String) (auth : SwitchAuthorization) (s : State W)
      → target ≢ primary
      → proto.Fenced primary s.world
      → Ends (λ _. On (proto.Promoted target)) Safely (promote_target sv primary target auth s)
  unfolding promote_target
  promote_target-Ends primary target auth s other h =
      after (λ g. On (proto.GtidRead primary g)) _ _ _
        (wrapped _ _ (called _ (proto.executed_gtid primary s.world h)))
        λ g s1 h1.
          after (λ _. On (proto.CaughtUp target)) _ _ _
            (wrapped _ _ (called _ (proto.wait_for_gtid primary target g auth s1.world h1 other)))
            λ _ s2 h2.
              after (λ _. On (proto.Promoted target)) _ _ _
                (wrapped _ _ (called _ (proto.promote target auth s2.world h2)))
                λ _ s3 h3.
                  let still = proto.status_promoted target s3.world h3 in
                  given _ _ _ (
                    checked (λ _. On (proto.Promoted target)) Safely _ _ _ (λ _. still)
                      (proto.promoted-Safe target _ still))

  persist_primary-Ends :
      (state : ClusterState) (target : String) (s : State W)
      → proto.Promoted target s.world
      → Ends (λ _. On (proto.Promoted target)) Safely (persist_primary sv state target s)
  unfolding persist_primary
  persist_primary-Ends state target s h =
      let P = proto.Promoted target in
      let F = proto.promoted-Frame target in
      given _ _ _ (
        after (λ _. On P) _ _ _
          (wrapped _ _ (
            called _ (
              kept P _ (proto.promoted-Safe target)
                (proto.put_cluster target _ _ _ (F.now s.world h)))))
          λ _ s1 h1. record { how = h1 })

  pub reconfigure_replicas-Ends :
      (ids : List String) (target : String) (auth : SwitchAuthorization) (source : AgentNodeConfig)
      (s : State W)
      → proto.Promoted target s.world
      → Ends
          (λ _. On (proto.Promoted target))
          Safely
          (reconfigure_replicas sv ids target auth source s)
  unfolding reconfigure_replicas
  reconfigure_replicas-Ends [] target auth source s h = record { how = h }
  reconfigure_replicas-Ends (id ∷ ids) target auth source s h = elim (str_dec id target) [
    | yes same ↦ rw (if_pos _ same) (reconfigure_replicas-Ends ids target auth source s h)
    | no other ↦ rw (if_neg _ other) (
        after (λ _. On (proto.Promoted target)) _ _ _
          (wrapped _ _ (
            called _ (
              kept (proto.Promoted target) _ (proto.promoted-Safe target)
                (proto.reconfigure_replica target id auth source s.world h other))))
          λ _ s1 h1. reconfigure_replicas-Ends ids target auth source s1 h1)
  ]

  pub execute_switch-Ends :
      (state : ClusterState) (target : String) (auth : SwitchAuthorization) (s : State W)
      → target ≢ state.primary
      → proto.Started state.primary s.world
      → Ends (λ _. On (proto.Promoted target)) Safely (execute_switch sv state target auth s)
  unfolding execute_switch
  execute_switch-Ends state target auth s other h =
      let P = proto.Promoted target in
      after (λ _. On (proto.Fenced state.primary)) _ _ _
        (fence_old_primary-Ends state.primary auth s h)
        λ _ s1 h1.
          after (λ _. On P) _ _ _ (promote_target-Ends state.primary target auth s1 other h1)
            λ _ s2 h2.
              after (λ _. On P) _ _ _ (persist_primary-Ends state target s2 h2)
                λ new s3 h3.
                  after (λ _. On P) _ _ _
                    (wrapped _ _ (
                      called _ (
                        kept P _ (proto.promoted-Safe target)
                          ((proto.promoted-Frame target).set_primary target s3.world h3))))
                    λ _ s4 h4. given _ _ _ (
                      after (λ _. On P) _ _ _
                        (reconfigure_replicas-Ends s4.ctl.clients target auth _ s4 h4)
                        λ _ s5 h5. record { how = h5 })
