-- ===== src/Controller/Switchover/SingleWriter.antt =====
-- Split brain: which nodes accept writes before and after `Switch` (internal/ha/controller.go). What is asked of
-- the nodes is what MySQL documents of the statements that the agents run, with `writable` for "the node
-- accepts writes".
use ha.Base.Int.{pos}
use ha.Base.{str_dec, String, ℕ, ◌≡◌, refl, ◌≢◌, Bool, true, false, arith}
use ha.Exec.{Result, ok, err}
use ha.Exec.Ends.{Ends}
use ha.Model.{AgentNodeConfig, SwitchAuthorization, ClusterState, SwitchTask}
use ha.Alert.{Payload}
use ha.Controller.{Services, State, Metric}
use ha.Controller.Protocol.{confirms_read_only, Frame, Protocol}
use ha.Controller.Switch.{Switched}
use ha.Controller.Switchover.{switch}
use ha.Controller.Switchover.Safety.{switch_follows_protocol, switch_completes_protocol}

module _ {W : Type 0} (sv : Services W) (writable : W → String → Bool)
    (cluster : W → ClusterState) where
  -- Every node that accepts writes in the second state did so in the first.
  abbrev pub Shrinks : W → W → Type 0
  Shrinks w w' = (id : String) → writable w' id ≡ true → writable w id ≡ true

  -- What lies beside the nodes makes none of them writable; the store returns the cluster record that it holds.
  pub record Surroundings : Type 0 where
    pub now : (w : W) → Shrinks w (sv.now w).1
    pub observe : (m : Metric) (w : W) → Shrinks w (sv.observe m w)
    pub post : (url : String) (p : Payload) (w : W) → Shrinks w (sv.post url p w).1
    pub put_task : (t : SwitchTask) (w : W) → Shrinks w (sv.store.put_task t w).1
    pub fence : (id : String) (w : W) → Shrinks w (sv.fence id w).1
    pub set_primary : (id : String) (w : W) → Shrinks w (sv.set_primary id w).1
    pub acquire :
        (holder : String) (ttl : ℕ) (auth : SwitchAuthorization) (w : W)
        → Shrinks w (sv.store.acquire_switch_lock holder ttl auth w).1
    pub release :
        (holder : String) (ttl : ℕ) (auth : SwitchAuthorization) (w : W) {w' : W} {release : W → W}
        → sv.store.acquire_switch_lock holder ttl auth w ≡ (ok release, w')
        → (v : W) → Shrinks v (release v)
    pub get_cluster : (w : W) → Shrinks w (sv.store.get_cluster w).1
    pub get_cluster_reads :
        (w : W) {w' : W} {c : ClusterState} → sv.store.get_cluster w ≡ (ok c, w') → c ≡ cluster w
    pub put_cluster :
        (expected : ℕ) (c : ClusterState) (w : W)
        → Shrinks w (sv.store.put_cluster_if_epoch expected c w).1

  -- Only promotion makes a node writable, and only the node that is promoted; after a status with
  -- both read-only flags it is not writable.
  pub record WriteLaws : Type 0 where
    pub surroundings : Surroundings
    pub status : (id : String) (w : W) → Shrinks w (sv.node.status id w).1
    pub status_read_only :
        (id : String) (w : W)
        → confirms_read_only (sv.node.status id w).0 ≡ true
        → writable (sv.node.status id w).1 id ≡ false
    pub executed_gtid : (id : String) (w : W) → Shrinks w (sv.node.executed_gtid id w).1
    pub wait_for_gtid :
        (id : String) (auth : SwitchAuthorization) (g : String) (w : W)
        → Shrinks w (sv.node.wait_for_gtid id auth g (pos 30) w).1
    pub demote :
        (id : String) (auth : SwitchAuthorization) (w : W) → Shrinks w (sv.node.demote id auth w).1
    pub promote :
        (t : String) (auth : SwitchAuthorization) (w : W) (id : String)
        → writable (sv.node.promote t auth w).1 id ≡ true
        → id ≢ t
        → writable w id ≡ true
    pub reconfigure_replica :
        (id : String) (auth : SwitchAuthorization) (source : AgentNodeConfig) (w : W)
        → Shrinks w (sv.node.reconfigure_replica id auth source w).1

  -- No node other than `p` accepts writes.
  abbrev pub OnlyWriter : String → W → Type 0
  OnlyWriter p w = (id : String) → writable w id ≡ true → id ≡ p

  abbrev NoWriter : W → Type 0
  NoWriter w = (id : String) → writable w id ≡ true → ⊥

  module _ (laws : WriteLaws) where
    shrinking : (P : String → Type 0) → Frame sv (λ w. (id : String) → writable w id ≡ true → P id)
    shrinking P = record {
      now = λ w h id e. h id (laws.surroundings.now w id e);
      observe = λ m w h id e. h id (laws.surroundings.observe m w id e);
      post = λ u p w h id e. h id (laws.surroundings.post u p w id e);
      put_task = λ t w h id e. h id (laws.surroundings.put_task t w id e);
      fence = λ p w h id e. h id (laws.surroundings.fence p w id e);
      set_primary = λ p w h id e. h id (laws.surroundings.set_primary p w id e);
      acquire = λ o t a w h id e. h id (laws.surroundings.acquire o t a w id e);
      release = λ o t a w got v h id e. h id (laws.surroundings.release o t a w got v id e);
    }

    safe_frame : Frame sv (λ w. (p : String) × OnlyWriter p w)
    safe_frame = record {
      now = λ w h. (h.0, (shrinking (λ id. id ≡ h.0)).now w h.1);
      observe = λ m w h. (h.0, (shrinking (λ id. id ≡ h.0)).observe m w h.1);
      post = λ u p w h. (h.0, (shrinking (λ id. id ≡ h.0)).post u p w h.1);
      put_task = λ t w h. (h.0, (shrinking (λ id. id ≡ h.0)).put_task t w h.1);
      fence = λ p w h. (h.0, (shrinking (λ id. id ≡ h.0)).fence p w h.1);
      set_primary = λ p w h. (h.0, (shrinking (λ id. id ≡ h.0)).set_primary p w h.1);
      acquire = λ o t a w h. (h.0, (shrinking (λ id. id ≡ h.0)).acquire o t a w h.1);
      release = λ o t a w got v h. (h.0, (shrinking (λ id. id ≡ h.0)).release o t a w got v h.1);
    }

    -- However a call ended, its postconditions hold if both follow from one fact of the state.
    whatever :
        {A : Type 0} {Q : A → W → Type 0} {E : W → Type 0} (r : Result A) (w : W)
        → ((a : A) → Q a w)
        → E w
        → Ends Q E (r, w)
    whatever (ok a) w q e = record { how = q a }
    whatever (err x) w q e = record { how = e }

    get_cluster_before :
        (w : W)
        → OnlyWriter (cluster w).primary w
        → Ends
            (λ c. OnlyWriter c.primary)
            (λ v. (p : String) × OnlyWriter p v)
            (sv.store.get_cluster w)
    get_cluster_before w h = go _ _ refl (λ id e. h id (laws.surroundings.get_cluster w id e))
      where
        go :
            (r : Result ClusterState) (w' : W)
            → sv.store.get_cluster w ≡ (r, w')
            → OnlyWriter (cluster w).primary w'
            → Ends (λ c. OnlyWriter c.primary) (λ v. (p : String) × OnlyWriter p v) (r, w')
        go (ok c) w' e k = record { how = rw (laws.surroundings.get_cluster_reads w e) k }
        go (err x) w' e k = record { how = ((cluster w).primary, k) }

    none_left : (p : String) (w : W) → OnlyWriter p w → writable w p ≡ false → NoWriter w
    none_left p w h off id e = ground (arith, h id e)

    single_writer : Protocol sv
    single_writer = record {
      Before = λ w. OnlyWriter (cluster w).primary w;
      Safe = λ w. (p : String) × OnlyWriter p w;
      Started = OnlyWriter;
      Demoted = OnlyWriter;
      Fenced = λ _. NoWriter;
      GtidRead = λ _ _. NoWriter;
      CaughtUp = λ _. NoWriter;
      Promoted = OnlyWriter;
      started-Frame = λ p. shrinking (λ id. id ≡ p);
      demoted-Frame = λ p. shrinking (λ id. id ≡ p);
      promoted-Frame = λ p. shrinking (λ id. id ≡ p);
      safe-Frame = safe_frame;
      before-Safe = λ w h. ((cluster w).primary, h);
      started-Safe = λ p w h. (p, h);
      demoted-Safe = λ p w h. (p, h);
      promoted-Safe = λ p w h. (p, h);
      get_cluster_before = get_cluster_before;
      get_cluster_started = λ p w h id e. h id (laws.surroundings.get_cluster w id e);
      status_started = λ p t w h id e. h id (laws.status t w id e);
      demote = λ p a w h.
          let kept : OnlyWriter p (sv.node.demote p a w).1 =
            λ id e. h id (laws.demote p a w id e) in
          whatever _ _ (λ _. kept) (p, kept);
      confirm = λ p w h. (
        (p, λ id e. h id (laws.status p w id e)),
        λ ro.
            none_left p (sv.node.status p w).1 (λ id e. h id (laws.status p w id e))
              (laws.status_read_only p w ro),
      );
      executed_gtid = λ p w h.
          let still : NoWriter (sv.node.executed_gtid p w).1 =
            λ id e. h id (laws.executed_gtid p w id e) in
          whatever _ _ (λ _. still) (p, λ id e. absurd (still id e));
      wait_for_gtid = λ p t g a w h other.
          let still : NoWriter (sv.node.wait_for_gtid t a g (pos 30) w).1 =
            λ id e. h id (laws.wait_for_gtid t a g w id e) in
          whatever _ _ (λ _. still) (p, λ id e. absurd (still id e));
      promote = λ t a w h. whatever _ _ (λ _. promoted t a w h) (t, promoted t a w h);
      status_promoted = λ t w h id e. h id (laws.status t w id e);
      put_cluster = λ t x c w h id e. h id (laws.surroundings.put_cluster x c w id e);
      reconfigure_replica = λ t i a c w h other id e. h id (laws.reconfigure_replica i a c w id e);
    }
      where
        promoted :
            (t : String) (a : SwitchAuthorization) (w : W)
            → NoWriter w
            → OnlyWriter t (sv.node.promote t a w).1
        promoted t a w h id e = elim (str_dec id t) [
          | yes same ↦ same
          | no other ↦ absurd (h id (laws.promote t a w id e other))
        ]

    -- Where the nodes and the store keep the laws above: if no node but the recorded primary accepts writes
    -- when `Switch` is called, there is a node such that no other accepts writes when it returns, after an
    -- error at any point as after a success.
    pub switch_single_writer :
        (quote : String → String) (asked : String) (automatic : Bool) (s : State W)
        → OnlyWriter (cluster s.world).primary s.world
        → (p : String) × OnlyWriter p (switch sv quote asked automatic s).1.world
    unfolding single_writer
    switch_single_writer quote asked automatic s h =
        switch_follows_protocol sv single_writer quote asked automatic s h

    -- Under the same laws: when `Switch` returns a completed task, no node but the target of the task accepts
    -- writes.
    pub switch_completed_single_writer :
        (quote : String → String) (asked : String) (automatic : Bool) (s : State W)
        (switched : Switched)
        → OnlyWriter (cluster s.world).primary s.world
        → (switch sv quote asked automatic s).0 ≡ ok switched
        → switched.task.state ≡ "completed"
        → OnlyWriter switched.task.to (switch sv quote asked automatic s).1.world
    unfolding single_writer
    switch_completed_single_writer quote asked automatic s switched h =
        switch_completes_protocol sv single_writer quote asked automatic s switched h
