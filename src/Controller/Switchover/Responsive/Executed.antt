-- ===== src/Controller/Switchover/Responsive/Executed.antt =====
-- The steps of `Switch` (internal/ha/controller.go) over services that answer it.
use mathlib.Core.Logic.{if_pos, if_neg}
use ha.Base.{◌-◌, ◌%◌, ◌+◌, String, ◌<◌, ◌≡◌, Bool, true, List, [], ◌∷◌, str_dec, arith}
use ha.Exec.{Result, ok, err}
use ha.Exec.Ends.{after, given, wrapped}
use ha.Exec.Surely.{Surely, passing}
use ha.Model.{AgentNodeConfig, SwitchAuthorization, ClusterState, uint64_mod}
use ha.Controller.{ℤ, Services, Controller, State}
use ha.Controller.Switch.{
  has_client, fence_old_primary, promote_target, persist_primary, reconfigure_replicas,
  execute_switch,
}
use ha.Controller.Switchover.Responsive.{Responsive}

-- A stage of the outside, with the controller's own fields.
abbrev pub At : {W : Type 0} → (W → Type 0) → Controller → State W → Type 0
At P ctl s = (s.ctl ≡ ctl) × P s.world

pub called :
    {W A : Type 0} {Q : A → W → Type 0} (r : Result A) (ctl : Controller) (s : State W) {w : W}
    → s.ctl ≡ ctl
    → Surely Q (r, w)
    → Surely (λ a. At (Q a) ctl) (r, record s { world = w })
called (ok a) ctl s same h = record { how = (same, h.how) }
called (err e) ctl s same h = absurd h.how

module _ {W : Type 0} (sv : Services W) (c : ClusterState) (target : String) (automatic : Bool)
    (max_lag : ℤ) (resp : Responsive sv c target automatic max_lag) where
  fence_old_primary-Surely :
      (auth : SwitchAuthorization) (ctl : Controller) (s : State W)
      → has_client c.primary ctl.clients ≡ true
      → At resp.Locked ctl s
      → Surely (λ _. At resp.Fenced ctl) (fence_old_primary sv c.primary auth s)
  unfolding fence_old_primary
  fence_old_primary-Surely auth ctl s known h =
      after (λ _. At resp.Locked ctl) _ _ _ (called _ ctl s h.0 (resp.fence s.world h.1))
        λ _ s1 h1. given _ _ _ (
          after (λ _. At resp.Locked ctl) _ _ _
            (passing (At resp.Locked ctl) _ _ s1 (rw h1.0 known) h1)
            λ _ s2 h2.
              after (λ _. At resp.Demoted ctl) _ _ _
                (wrapped _ _ (called _ ctl s2 h2.0 (resp.demote auth s2.world h2.1)))
                λ _ s3 h3.
                  let (confirmed, fenced) = resp.confirm s3.world h3.1 in
                  given _ _ _ (passing (At resp.Fenced ctl) _ _ _ confirmed (h3.0, fenced)))

  promote_target-Surely :
      (auth : SwitchAuthorization) (ctl : Controller) (s : State W)
      → At resp.Fenced ctl s
      → Surely (λ _. At resp.Promoted ctl) (promote_target sv c.primary target auth s)
  unfolding promote_target
  promote_target-Surely auth ctl s h =
      after (λ g. At (resp.GtidRead g) ctl) _ _ _
        (wrapped _ _ (called _ ctl s h.0 (resp.executed_gtid s.world h.1)))
        λ g s1 h1.
          after (λ _. At resp.CaughtUp ctl) _ _ _
            (wrapped _ _ (called _ ctl s1 h1.0 (resp.wait_for_gtid auth g s1.world h1.1)))
            λ _ s2 h2.
              after (λ _. At resp.Promoted ctl) _ _ _
                (wrapped _ _ (called _ ctl s2 h2.0 (resp.promote auth s2.world h2.1)))
                λ _ s3 h3.
                  let (writable, still) = resp.promoted s3.world h3.1 in
                  given _ _ _ (passing (At resp.Promoted ctl) _ _ _ writable (h3.0, still))

  -- The epoch that the conditional write expects is the one that was read, also where the epoch wraps.
  expects :
      c.epoch < uint64_mod → ((c.epoch + 1) % uint64_mod + (uint64_mod - 1)) % uint64_mod ≡ c.epoch
  expects small = omega (arith, small)

  persist_primary-Surely :
      (ctl : Controller) (s : State W)
      → c.epoch < uint64_mod
      → At resp.Promoted ctl s
      → Surely (λ _. At resp.Written ctl) (persist_primary sv c target s)
  unfolding persist_primary
  persist_primary-Surely ctl s small h = rw (expects small) (
      given _ _ _ (
        after (λ _. At resp.Written ctl) _ _ _
          (wrapped _ _ (
            called _ ctl (record s { world = (sv.now s.world).1 }) h.0
              (resp.put_cluster _ _ (resp.now_promoted s.world h.1))))
          λ _ s1 h1. record { how = h1 }))

  reconfigure_replicas-Surely :
      (ids : List String) (auth : SwitchAuthorization) (source : AgentNodeConfig) (ctl : Controller)
      (s : State W)
      → At resp.Written ctl s
      → Surely (λ _. At resp.Written ctl) (reconfigure_replicas sv ids target auth source s)
  unfolding reconfigure_replicas
  reconfigure_replicas-Surely [] auth source ctl s h = record { how = h }
  reconfigure_replicas-Surely (id ∷ ids) auth source ctl s h = elim (str_dec id target) [
    | yes same ↦ rw (if_pos _ same) (reconfigure_replicas-Surely ids auth source ctl s h)
    | no other ↦ rw (if_neg _ other) (
        after (λ _. At resp.Written ctl) _ _ _
          (wrapped _ _
            (called _ ctl s h.0 (resp.reconfigure_replica id auth source s.world other h.1)))
          λ _ s1 h1. reconfigure_replicas-Surely ids auth source ctl s1 h1)
  ]

  pub execute_switch-Surely :
      (auth : SwitchAuthorization) (ctl : Controller) (s : State W)
      → c.epoch < uint64_mod
      → has_client c.primary ctl.clients ≡ true
      → At resp.Locked ctl s
      → Surely (λ _ _. Unit {0}) (execute_switch sv c target auth s)
  unfolding execute_switch
  execute_switch-Surely auth ctl s small known h =
      after _ _ _ _ (fence_old_primary-Surely auth ctl s known h) λ _ s1 h1.
        after _ _ _ _ (promote_target-Surely auth ctl s1 h1) λ _ s2 h2.
          after _ _ _ _ (persist_primary-Surely ctl s2 small h2) λ new s3 h3.
            after (λ _. At resp.Written ctl) _ _ _
              (wrapped _ _ (called _ ctl s3 h3.0 (resp.set_primary s3.world h3.1)))
              λ _ s4 h4. given _ _ _ (
                after _ _ _ _ (reconfigure_replicas-Surely s4.ctl.clients auth _ ctl s4 h4)
                  λ _ s5 h5. record { how = tt })
