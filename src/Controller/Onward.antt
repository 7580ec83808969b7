-- ===== src/Controller/Onward.antt =====
-- Time in the services of the controller (internal/ha/controller.go): every call moves it on.
use ha.Base.{String, ℕ, ◌≡◌}
use ha.Base.Int.{pos}
use ha.Exec.{Result, ok, err}
use ha.Exec.Ends.{Ends, anyhow}
use ha.Model.{AgentNodeConfig, SwitchAuthorization, ClusterState}
use ha.Controller.{Services}
use ha.Controller.Protocol.{Frame, Protocol}

module _ {W : Type 0} (sv : Services W) (Later : W → W → Type 0) where
  -- The order of the states of the outside in time, and that a call returns no earlier than it began.
  pub record Onward : Type 0 where
    pub now_or_later : (w : W) → Later w w
    pub later : (u v w : W) → Later u v → Later v w → Later u w
    pub frame : (u : W) → Frame sv (Later u)
    pub get_cluster : (u w : W) → Later u w → Later u (sv.store.get_cluster w).1
    pub put_cluster :
        (expected : ℕ) (c : ClusterState) (u w : W)
        → Later u w
        → Later u (sv.store.put_cluster_if_epoch expected c w).1
    pub acquire_lock :
        (holder : String) (ttl : ℕ) (u w : W)
        → Later u w
        → Later u (sv.store.acquire_lock holder ttl w).1
    pub release_lock :
        (holder : String) (ttl : ℕ) (w : W) {w' : W} {release : W → W}
        → sv.store.acquire_lock holder ttl w ≡ (ok release, w')
        → (u v : W) → Later u v
        → Later u (release v)
    pub status : (id : String) (u w : W) → Later u w → Later u (sv.node.status id w).1
    pub executed_gtid : (id : String) (u w : W) → Later u w → Later u (sv.node.executed_gtid id w).1
    pub wait_for_gtid :
        (id g : String) (auth : SwitchAuthorization) (u w : W)
        → Later u w
        → Later u (sv.node.wait_for_gtid id auth g (pos 30) w).1
    pub demote :
        (id : String) (auth : SwitchAuthorization) (u w : W)
        → Later u w
        → Later u (sv.node.demote id auth w).1
    pub promote :
        (id : String) (auth : SwitchAuthorization) (u w : W)
        → Later u w
        → Later u (sv.node.promote id auth w).1
    pub reconfigure_replica :
        (id : String) (auth : SwitchAuthorization) (source : AgentNodeConfig) (u w : W)
        → Later u w
        → Later u (sv.node.reconfigure_replica id auth source w).1

  -- Every stage of a switch is at or after the state `u`.
  abbrev pub always : Onward → (u : W) → Protocol sv
  always on u = record {
    Before = Later u;
    Safe = Later u;
    Started = λ _. Later u;
    Demoted = λ _. Later u;
    Fenced = λ _. Later u;
    GtidRead = λ _ _. Later u;
    CaughtUp = λ _. Later u;
    Promoted = λ _. Later u;
    started-Frame = λ _. on.frame u;
    demoted-Frame = λ _. on.frame u;
    promoted-Frame = λ _. on.frame u;
    safe-Frame = on.frame u;
    before-Safe = λ w h. h;
    started-Safe = λ p w h. h;
    demoted-Safe = λ p w h. h;
    promoted-Safe = λ t w h. h;
    get_cluster_before = λ w h. anyhow _ _ (on.get_cluster u w h);
    get_cluster_started = λ p w h. on.get_cluster u w h;
    status_started = λ p t w h. on.status t u w h;
    demote = λ p a w h. anyhow _ _ (on.demote p a u w h);
    confirm = λ p w h. (on.status p u w h, λ ro. on.status p u w h);
    executed_gtid = λ p w h. anyhow _ _ (on.executed_gtid p u w h);
    wait_for_gtid = λ p t g a w h other. anyhow _ _ (on.wait_for_gtid t g a u w h);
    promote = λ t a w h. anyhow _ _ (on.promote t a u w h);
    status_promoted = λ t w h. on.status t u w h;
    put_cluster = λ t x c w h. on.put_cluster x c u w h;
    reconfigure_replica = λ t i a c w h other. on.reconfigure_replica i a c u w h;
  }

-- What an outcome leaves where both postconditions say the same.
pub reached : {S A : Type 0} {P : S → Type 0} (r : Result A) (s : S) → Ends (λ _. P) P (r, s) → P s
reached (ok a) s h = h.how
reached (err e) s h = h.how
