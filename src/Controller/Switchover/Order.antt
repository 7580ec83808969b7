-- ===== src/Controller/Switchover/Order.antt =====
-- The order of the calls that `Switch` makes to the nodes, for every outside whatsoever: it is run against
-- services that record what was called, and the record is held against an order stated on its own.
use mathlib.Core.Path.{subst}
use ha.Base.{String, ◌≢◌, Bool, true, false, List, [], ◌∷◌, if◌then◌else◌}
use ha.Exec.{Result, ok, err, Exec}
use ha.Exec.Ends.{Ends, anyhow}
use ha.Model.{NodeStatus}
use ha.Store.{Store}
use ha.Controller.{Services, Node, State}
use ha.Controller.Protocol.{confirms_read_only, Frame, Protocol}
use ha.Controller.Switchover.{switch}
use ha.Controller.Switchover.Safety.{switch_follows_protocol}

-- What is recorded: a node was demoted, its status confirmed that it is read-only, its GTID set was read, a
-- node was seen to have applied a GTID set, or the promotion of a node was asked for.
pub data Event : Type 0 where
  demoted confirmed promoting : String → Event
  gtid_read caught_up : String → String → Event

-- Newest first.
abbrev pub Trace : Type 0
Trace = List Event

abbrev log_ok : {A : Type 0} → Result A → (A → Event) → Trace → Trace
log_ok (ok a) event tr = event a ∷ tr
log_ok (err e) event tr = tr

-- A call that is not recorded.
abbrev unrecorded : {A W : Type 0} → Exec W A → Exec (W × Trace) A
unrecorded m (w, tr) = let (r, w') = m w in (r, (w', tr))

-- The release of a lock of the recorded services.
abbrev releasing : {W : Type 0} → Result (W → W) → Result (W × Trace → W × Trace)
releasing (ok release) = ok (λ (w, tr). (release w, tr))
releasing (err e) = err e

module _ {W : Type 0} where
  abbrev pub recorded_node : Node W → Node (W × Trace)
  recorded_node n = record {
    status = λ id (w, tr).
        let (s, w') = n.status id w in
        (s, (w', if confirms_read_only s then confirmed id ∷ tr else tr));
    executed_gtid = λ id (w, tr).
        let (r, w') = n.executed_gtid id w in (r, (w', log_ok r (λ g. gtid_read id g) tr));
    wait_for_gtid = λ id auth g timeout (w, tr).
        let (r, w') = n.wait_for_gtid id auth g timeout w in
        (r, (w', log_ok r (λ _. caught_up id g) tr));
    demote = λ id auth (w, tr).
        let (r, w') = n.demote id auth w in (r, (w', log_ok r (λ _. demoted id) tr));
    promote = λ id auth (w, tr). let (r, w') = n.promote id auth w in (r, (w', promoting id ∷ tr));
    reconfigure_replica = λ id auth source. unrecorded (n.reconfigure_replica id auth source);
  }

  abbrev pub recorded_store : Store W → Store (W × Trace)
  recorded_store st = record {
    get_cluster = unrecorded st.get_cluster;
    put_cluster = λ c. unrecorded (st.put_cluster c);
    put_cluster_if_epoch = λ e c. unrecorded (st.put_cluster_if_epoch e c);
    acquire_lock = λ o t (w, tr). let (r, w') = st.acquire_lock o t w in (releasing r, (w', tr));
    acquire_switch_lock =
        λ o t a (w, tr). let (r, w') = st.acquire_switch_lock o t a w in (releasing r, (w', tr));
    verify_switch_operation = λ a. unrecorded (st.verify_switch_operation a);
    put_task = λ t. unrecorded (st.put_task t);
    list_tasks = λ n. unrecorded (st.list_tasks n);
  }

  -- The same services, with a record of the calls beside the state of the outside.
  abbrev pub recorded : Services W → Services (W × Trace)
  recorded sv = record {
    store = recorded_store sv.store;
    node = recorded_node sv.node;
    fence = λ id. unrecorded (sv.fence id);
    set_primary = λ id. unrecorded (sv.set_primary id);
    post = λ url p. unrecorded (sv.post url p);
    now = λ (w, tr). let (t, w') = sv.now w in (t, (w', tr));
    ctx_err = λ c (w, tr). sv.ctx_err c w;
    observe = λ m (w, tr). (sv.observe m w, tr);
  }

-- The event is in the record, and the part before it has the property.
pub data Since (e : Event) (Q : Trace → Type 0) : Trace → Type 0 where
  now : {tr : Trace} → Q tr → Since e Q (e ∷ tr)
  later : {x : Event} {tr : Trace} → Since e Q tr → Since e Q (x ∷ tr)

abbrev pub HasDemoted : String → Trace → Type 0
HasDemoted p = Since (demoted p) (λ _. Unit {0})

abbrev pub HasFenced : String → Trace → Type 0
HasFenced p = Since (confirmed p) (HasDemoted p)

abbrev pub HasRead : String → String → Trace → Type 0
HasRead p g = Since (gtid_read p g) (HasFenced p)

-- `t` has applied the GTID set that was read from another node, which was first demoted and then confirmed
-- to be read-only.
abbrev pub IsReady : String → Trace → Type 0
IsReady t tr = (p : String) × (g : String) × (t ≢ p) × Since (caught_up t g) (HasRead p g) tr

-- Whenever a node's promotion was asked for, it was ready.
abbrev pub IsOrdered : Trace → Type 0
IsOrdered [] = Unit
IsOrdered (promoting t ∷ tr) = IsReady t tr × IsOrdered tr
IsOrdered (_ ∷ tr) = IsOrdered tr

abbrev Releases : {W : Type 0} → (Trace → Type 0) → Result (W × Trace → W × Trace) → Type 0
Releases {W} P (ok release) = (v : W × Trace) → P v.1 → P (release v).1
Releases P (err e) = Unit

any_release : {W : Type 0} (P : Trace → Type 0) (r : Result (W → W)) → Releases P (releasing r)
any_release P (ok release) = λ v h. h
any_release P (err e) = tt

-- A status or its confirmation asks for no promotion.
probed :
    (s : NodeStatus) (id : String) (tr : Trace)
    → IsOrdered tr
    → IsOrdered (if confirms_read_only s then confirmed id ∷ tr else tr)
probed s id tr h = go (confirms_read_only s)
  where
    go : (b : Bool) → IsOrdered (if b then confirmed id ∷ tr else tr)
    go true = h
    go false = h

module _ {W A : Type 0} {Q : A → W × Trace → Type 0} {E : W × Trace → Type 0} where
  logged :
      (event : A → Event) (r : Result A) (w : W) (tr : Trace)
      → ((a : A) → Q a (w, event a ∷ tr))
      → E (w, tr)
      → Ends Q E (r, (w, log_ok r event tr))
  logged event (ok a) w tr q e = record { how = q a }
  logged event (err x) w tr q e = record { how = e }

module _ {W : Type 0} (sv : Services W) where
  -- What is said of the record alone survives every call that is not recorded.
  of_trace : (P : Trace → Type 0) → Frame (recorded sv) (λ s. P s.1)
  of_trace P = record {
    now = λ w h. h;
    observe = λ m w h. h;
    post = λ u p w h. h;
    put_task = λ t w h. h;
    fence = λ p w h. h;
    set_primary = λ p w h. h;
    acquire = λ o t a w h. h;
    release = λ o t a w got v h. subst (λ o. Releases P o.0) got (any_release P _) v h;
  }

  order : Protocol (recorded sv)
  order = record {
    Before = λ s. IsOrdered s.1;
    Safe = λ s. IsOrdered s.1;
    Started = λ p s. IsOrdered s.1;
    Demoted = λ p s. IsOrdered s.1 × HasDemoted p s.1;
    Fenced = λ p s. IsOrdered s.1 × HasFenced p s.1;
    GtidRead = λ p g s. IsOrdered s.1 × HasRead p g s.1;
    CaughtUp = λ t s. IsOrdered s.1 × IsReady t s.1;
    Promoted = λ t s. IsOrdered s.1;
    started-Frame = λ p. of_trace IsOrdered;
    demoted-Frame = λ p. of_trace (λ tr. IsOrdered tr × HasDemoted p tr);
    promoted-Frame = λ t. of_trace IsOrdered;
    safe-Frame = of_trace IsOrdered;
    before-Safe = λ w h. h;
    started-Safe = λ p w h. h;
    demoted-Safe = λ p w h. h.0;
    promoted-Safe = λ t w h. h;
    get_cluster_before = λ w h. anyhow _ _ h;
    get_cluster_started = λ p w h. h;
    status_started = λ p t w h. probed (sv.node.status t w.0).0 t w.1 h;
    demote = λ p a w h. logged (λ _. demoted p) _ _ w.1 (λ _. (h, Since.now tt)) h;
    confirm =
        λ p w h. (probed (sv.node.status p w.0).0 p w.1 h.0, λ ro. rw ro (h.0, Since.now h.1));
    executed_gtid = λ p w h. logged (gtid_read p) _ _ w.1 (λ g. (h.0, Since.now h.1)) h.0;
    wait_for_gtid = λ p t g a w h other.
        logged (λ _. caught_up t g) _ _ w.1 (λ _. (h.0, (p, g, other, Since.now h.1))) h.0;
    promote = λ t a w h. anyhow _ _ (h.1, h.0);
    status_promoted = λ t w h. probed (sv.node.status t w.0).0 t w.1 h;
    put_cluster = λ t x c w h. h;
    reconfigure_replica = λ t i a c w h other. h;
  }

  -- Whatever the outside does and answers, a run of `Switch` asks for a promotion only of a node that has
  -- applied the GTID set read from another node, after that one was demoted and then confirmed to be
  -- read-only, all in the same run.
  pub switch_order :
      (quote : String → String) (asked : String) (automatic : Bool) (s : State W)
      → let start : State (W × Trace) = record { ctl = s.ctl; world = (s.world, []) } in
        IsOrdered (switch (recorded sv) quote asked automatic start).1.world.1
  unfolding order
  switch_order quote asked automatic s =
      switch_follows_protocol (recorded sv) order quote asked automatic
        (record { ctl = s.ctl; world = (s.world, []) }) tt
