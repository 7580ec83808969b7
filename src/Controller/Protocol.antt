-- ===== src/Controller/Protocol.antt =====
-- The order in which a switch may touch the cluster, as an abstract protocol: predicates on the state of
-- the outside for the stages of a switch, and how each call moves between them. It is independent of the code
-- of `Switch` (internal/ha/controller.go).
use ha.Base.{String, ℕ, ◌≡◌, ◌≢◌, Bool, true, ◌&&◌}
use ha.Base.Int.{pos}
use ha.Exec.{ok}
use ha.Exec.Ends.{Ends}
use ha.Model.{AgentNodeConfig, SwitchAuthorization, NodeStatus, ClusterState, SwitchTask}
use ha.Alert.{Payload}
use ha.Controller.{Services, Metric}

-- The status confirms that the node refuses writes.
abbrev pub confirms_read_only : NodeStatus → Bool
confirms_read_only s = s.reachable && s.read_only && s.super_read_only

module _ {W : Type 0} (sv : Services W) where
  -- `P` survives the calls that are free at any time: the clock, metrics and alerts, the task records, the
  -- fence and route managers, and the switch lock.
  pub record Frame (P : W → Type 0) : Type 0 where
    pub now : (w : W) → P w → P (sv.now w).1
    pub observe : (m : Metric) (w : W) → P w → P (sv.observe m w)
    pub post : (url : String) (p : Payload) (w : W) → P w → P (sv.post url p w).1
    pub put_task : (t : SwitchTask) (w : W) → P w → P (sv.store.put_task t w).1
    pub fence : (id : String) (w : W) → P w → P (sv.fence id w).1
    pub set_primary : (id : String) (w : W) → P w → P (sv.set_primary id w).1
    pub acquire :
        (holder : String) (ttl : ℕ) (auth : SwitchAuthorization) (w : W)
        → P w
        → P (sv.store.acquire_switch_lock holder ttl auth w).1
    pub release :
        (holder : String) (ttl : ℕ) (auth : SwitchAuthorization) (w : W) {w' : W} {release : W → W}
        → sv.store.acquire_switch_lock holder ttl auth w ≡ (ok release, w')
        → (v : W) → P v
        → P (release v)

  -- The same without the fence and route managers.
  pub record Notes (P : W → Type 0) : Type 0 where
    pub now : (w : W) → P w → P (sv.now w).1
    pub observe : (m : Metric) (w : W) → P w → P (sv.observe m w)
    pub post : (url : String) (p : Payload) (w : W) → P w → P (sv.post url p w).1
    pub put_task : (t : SwitchTask) (w : W) → P w → P (sv.store.put_task t w).1
    pub acquire :
        (holder : String) (ttl : ℕ) (auth : SwitchAuthorization) (w : W)
        → P w
        → P (sv.store.acquire_switch_lock holder ttl auth w).1
    pub release :
        (holder : String) (ttl : ℕ) (auth : SwitchAuthorization) (w : W) {w' : W} {release : W → W}
        → sv.store.acquire_switch_lock holder ttl auth w ≡ (ok release, w')
        → (v : W) → P v
        → P (release v)

  pub notes_of : {P : W → Type 0} → Frame P → Notes P
  notes_of frame = record {
    now = frame.now;
    observe = frame.observe;
    post = frame.post;
    put_task = frame.put_task;
    acquire = frame.acquire;
    release = frame.release;
  }

  -- The stages of a switch, by the primary that it starts from, the GTID set that was read, and the target.
  -- Each stage is safe; `Safe` is what is left to say where a switch stops.
  pub record Protocol : Type 1 where
    pub Before : W → Type 0
    pub Safe : W → Type 0
    pub Started : String → W → Type 0
    pub Demoted : String → W → Type 0
    pub Fenced : String → W → Type 0
    pub GtidRead : String → String → W → Type 0
    pub CaughtUp : String → W → Type 0
    pub Promoted : String → W → Type 0
    pub started-Frame : (p : String) → Frame (Started p)
    pub demoted-Frame : (p : String) → Frame (Demoted p)
    pub promoted-Frame : (t : String) → Frame (Promoted t)
    pub safe-Frame : Frame Safe
    pub before-Safe : (w : W) → Before w → Safe w
    pub started-Safe : (p : String) (w : W) → Started p w → Safe w
    pub demoted-Safe : (p : String) (w : W) → Demoted p w → Safe w
    pub promoted-Safe : (t : String) (w : W) → Promoted t w → Safe w
    pub get_cluster_before :
        (w : W) → Before w → Ends (λ c. Started c.primary) Safe (sv.store.get_cluster w)
    pub get_cluster_started :
        (p : String) (w : W) → Started p w → Started p (sv.store.get_cluster w).1
    pub status_started : (p t : String) (w : W) → Started p w → Started p (sv.node.status t w).1
    pub demote :
        (p : String) (auth : SwitchAuthorization) (w : W)
        → Started p w
        → Ends (λ _. Demoted p) Safe (sv.node.demote p auth w)
    pub confirm :
        (p : String) (w : W)
        → Demoted p w
        → Safe (sv.node.status p w).1
          × (confirms_read_only (sv.node.status p w).0 ≡ true → Fenced p (sv.node.status p w).1)
    pub executed_gtid :
        (p : String) (w : W)
        → Fenced p w
        → Ends (λ g. GtidRead p g) Safe (sv.node.executed_gtid p w)
    pub wait_for_gtid :
        (p t g : String) (auth : SwitchAuthorization) (w : W)
        → GtidRead p g w
        → t ≢ p
        → Ends (λ _. CaughtUp t) Safe (sv.node.wait_for_gtid t auth g (pos 30) w)
    pub promote :
        (t : String) (auth : SwitchAuthorization) (w : W)
        → CaughtUp t w
        → Ends (λ _. Promoted t) Safe (sv.node.promote t auth w)
    pub status_promoted : (t : String) (w : W) → Promoted t w → Promoted t (sv.node.status t w).1
    pub put_cluster :
        (t : String) (expected : ℕ) (c : ClusterState) (w : W)
        → Promoted t w
        → Promoted t (sv.store.put_cluster_if_epoch expected c w).1
    pub reconfigure_replica :
        (t id : String) (auth : SwitchAuthorization) (source : AgentNodeConfig) (w : W)
        → Promoted t w
        → id ≢ t
        → Promoted t (sv.node.reconfigure_replica id auth source w).1
