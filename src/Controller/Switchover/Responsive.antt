-- ===== src/Controller/Switchover/Responsive.antt =====
-- Services that answer a switch (internal/ha/controller.go) as it needs them to: stages of the outside, and what
-- each call does at its stage.
pub mod Executed
use ha.Base.{false, String, ℕ, ◌+◌, ◌%◌, ◌≡◌, ◌≢◌, Bool, true, ◌&&◌, ◌==◌}
use ha.Base.Int.{ℤ, pos}
use ha.Exec.Surely.{Surely}
use ha.Model.{
  Time, AgentNodeConfig, SwitchAuthorization, ClusterState, SwitchTask, role_primary, uint64_mod,
}
use ha.Controller.{Services}
use ha.Controller.Protocol.{confirms_read_only}
use ha.Controller.Switch.{candidate_eligible}

-- A switch of the cluster `c` to `target`, not a dry run. No call fails at its stage; the calls that a switch
-- makes at no fixed stage, and whose errors it ignores, are not constrained.
module _ {W : Type 0} (sv : Services W) (c : ClusterState) (target : String) where
  pub record Responsive (automatic : Bool) (max_lag : ℤ) : Type 1 where
    pub Ready : W → Type 0
    pub Locked : W → Type 0
    pub Demoted : W → Type 0
    pub Fenced : W → Type 0
    pub GtidRead : String → W → Type 0
    pub CaughtUp : W → Type 0
    pub Promoted : W → Type 0
    pub Written : W → Type 0
    pub get_cluster : (w : W) → Ready w → Surely (λ d v. (d ≡ c) × Ready v) (sv.store.get_cluster w)
    pub now_ready : (w : W) → Ready w → Ready (sv.now w).1
    pub acquire :
        (holder : String) (ttl : ℕ) (auth : SwitchAuthorization) (w : W)
        → Ready w
        → Surely (λ _. Locked) (sv.store.acquire_switch_lock holder ttl auth w)
    pub get_cluster_locked :
        (w : W) → Locked w → Surely (λ d v. (d ≡ c) × Locked v) (sv.store.get_cluster w)
    pub eligible :
        (w : W)
        → Locked w
        → (candidate_eligible false automatic max_lag (sv.node.status target w).0 ≡ true)
          × Locked (sv.node.status target w).1
    pub now_locked : (w : W) → Locked w → Locked (sv.now w).1
    pub put_task :
        (t : SwitchTask) (w : W) → Locked w → Surely (λ _. Locked) (sv.store.put_task t w)
    pub fence : (w : W) → Locked w → Surely (λ _. Locked) (sv.fence c.primary w)
    pub demote :
        (auth : SwitchAuthorization) (w : W)
        → Locked w
        → Surely (λ _. Demoted) (sv.node.demote c.primary auth w)
    pub confirm :
        (w : W)
        → Demoted w
        → (confirms_read_only (sv.node.status c.primary w).0 ≡ true)
          × Fenced (sv.node.status c.primary w).1
    pub executed_gtid :
        (w : W) → Fenced w → Surely (λ g. GtidRead g) (sv.node.executed_gtid c.primary w)
    pub wait_for_gtid :
        (auth : SwitchAuthorization) (g : String) (w : W)
        → GtidRead g w
        → Surely (λ _. CaughtUp) (sv.node.wait_for_gtid target auth g (pos 30) w)
    pub promote :
        (auth : SwitchAuthorization) (w : W)
        → CaughtUp w
        → Surely (λ _. Promoted) (sv.node.promote target auth w)
    pub promoted :
        (w : W)
        → Promoted w
        → (((sv.node.status target w).0.healthy && (sv.node.status target w).0.role == role_primary)
            ≡ true)
          × Promoted (sv.node.status target w).1
    pub now_promoted : (w : W) → Promoted w → Promoted (sv.now w).1
    pub put_cluster :
        (updated : Time) (w : W)
        → Promoted w
        → Surely
            (λ _. Written)
            (sv.store.put_cluster_if_epoch c.epoch
              (record c {
                primary = target;
                epoch = (c.epoch + 1) % uint64_mod;
                updated_at = updated;
              })
              w)
    pub set_primary : (w : W) → Written w → Surely (λ _. Written) (sv.set_primary target w)
    pub reconfigure_replica :
        (id : String) (auth : SwitchAuthorization) (source : AgentNodeConfig) (w : W)
        → id ≢ target
        → Written w
        → Surely (λ _. Written) (sv.node.reconfigure_replica id auth source w)
