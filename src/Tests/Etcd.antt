-- ===== src/Tests/Etcd.antt =====
-- `EtcdStore` on the simulated etcd.
use ha.Base.{
  ◌≡◌, refl, Bool, true, false, not, ◌&&◌, List, [], ◌∷◌, Bool-cases, inl, inr, ◌==◌, eqb, str_dec,
  arith, if◌then◌else◌,
}
use ha.Exec.{ok, err, err≢ok, ok_inj, continue, require}
use ha.Exec.Ends.{Ends}
use ha.Model.{ClusterState, same_authorization}
use ha.Store.Cas.{Swapped}
use ha.Store.Etcd.{
  KeyValue, Json, RoundTrips, Formats, EtcdStore, Process, put_cluster_if_epoch, comparison_of,
  comparison_at, verify_switch_operation, get_cluster, cluster_of_entry, next_epoch,
  active_operation, same_operation, acquire_switch_lock,
}
use ha.Store.Etcd.Cas.{NextRevision, view, After, put_cluster_if_epoch-Swaps}
use ha.Store.Etcd.Authorized.{Authorized, verify_switch_operation-Authorized}
use ha.Store.Etcd.Locking.{Holding, Held, acquire_switch_lock-Held}
use ha.Store.Etcd.Election.{Terms, Returned, run_leader_election, run_leader_election-Returned}
use ha.Tests.Cluster.{auth, task}
use ha.Tests.SimulatedEtcd.{
  client-Transactions, Sim, client, client-Revisions, entry, entry_of, Later, passes, written,
}

-- The cluster before and after a switch to node "b", and their texts.
abbrev before : ClusterState
before = record { name = "c"; primary = "a"; epoch = 4; auto_failover = false; updated_at = 0 }

abbrev after : ClusterState
after = record before { primary = "b"; epoch = 5 }

abbrev is_after : ClusterState → Bool
is_after c =
    c.name == "c" && c.primary == "b" && eqb c.epoch 5 && not c.auto_failover && eqb c.updated_at 0

-- Only the cluster after the switch can be written.
abbrev clusters : Json ClusterState
clusters = record {
  marshal = λ c. if is_after c then ok "after" else err "unsupported value";
  unmarshal = λ text.
      if text == "before"
      then ok before
      else if text == "after"
      then ok after
      else err "invalid character";
}

is_after-after : (c : ClusterState) → is_after c ≡ true → after ≡ c
is_after-after c h = ground arith

pub clusters-RoundTrips : RoundTrips clusters
unfolding str_dec
clusters-RoundTrips = record {
  read_back = λ c text h. elim (Bool-cases (is_after c)) [
    | inl same ↦
        let c_is : after ≡ c = is_after-after c same in
        let text_is : "after" ≡ text = ok_inj (rw same at h) in rw (← text_is, ← c_is) refl
    | inr other ↦ absurd (err≢ok (rw other at h))
  ];
}

abbrev pub formats : Formats
formats = record {
  cluster = clusters;
  authorization = record { marshal = λ a. ok "operation"; unmarshal = λ text. ok auth };
  task = record { marshal = λ t. ok "task"; unmarshal = λ text. ok task };
}

abbrev pub store : EtcdStore Sim
store = record { client = client; formats = formats; prefix = "/ha/c" }

abbrev pub started : Process Sim
started = record {
  world = record {
    log = ("/ha/c/switch-operation", "operation") ∷ ("/ha/c/cluster", "before") ∷ [];
    opened = false;
    locked = false;
    leader = false;
    time = 3;
  };
  fired = λ n. false;
  next = 0;
}

abbrev ended : Process Sim
ended = record started { world = written "/ha/c/cluster" "after" started.world }

puts : put_cluster_if_epoch store 4 after started ≡ (ok tt, ended)
unfolding put_cluster_if_epoch comparison_of comparison_at entry_of passes continue require str_dec
puts = refl

put_cluster_if_epoch-Swaps_example :
    Swapped
      (NextRevision store entry Later client-Transactions)
      (After store entry Later)
      (view store entry Later)
      4
      after
      started
      ended
put_cluster_if_epoch-Swaps_example =
    put_cluster_if_epoch-Swaps store entry Later client-Revisions client-Transactions
      clusters-RoundTrips 4 after started ended puts

verifies : verify_switch_operation store auth started ≡ (ok tt, started)
unfolding verify_switch_operation get_cluster cluster_of_entry next_epoch active_operation
    same_operation same_authorization entry_of continue require str_dec
verifies = refl

verify_switch_operation-Authorized_example : Authorized store entry Later auth started started
verify_switch_operation-Authorized_example =
    verify_switch_operation-Authorized store entry Later client-Revisions auth started started
      verifies

abbrev holding : Holding store
holding = record {
  Free = λ w. (w.opened ≡ false) × (w.locked ≡ false);
  Open = λ session w. (w.opened ≡ true) × (w.locked ≡ false);
  Locked = λ session w. (w.opened ≡ true) × (w.locked ≡ true);
  get = λ k w h. h;
  new_session = λ ttl w h. record { how = (refl, h.1) };
  lock = λ session k w h. record { how = (h.0, refl) };
  put_leased = λ held session k text w h. h;
  delete = λ session k w h. h;
  unlock = λ session k w h. (h.0, refl);
  close = λ session w h. (refl, h.1);
}

acquire_switch_lock-Held_example :
    Ends
      (Held store holding)
      (λ p. holding.Free p.world)
      (acquire_switch_lock store "k" 10000000000 auth started)
acquire_switch_lock-Held_example =
    acquire_switch_lock-Held store holding "k" 10000000000 auth started (λ n h. refl) (refl, refl)

-- A store whose tasks are two entries.
abbrev two_entries : List KeyValue
two_entries =
    record { value = "x"; mod_revision = 2 } ∷ record { value = "y"; mod_revision = 1 } ∷ []

abbrev keeping : EtcdStore Sim
keeping = record store { client = record client { latest = λ k w. (ok two_entries, w) } }

abbrev lead : Sim → Sim
lead w = w

abbrev terms : Terms store lead "k"
terms = record {
  Idle = λ w. (w.opened ≡ false) × (w.leader ≡ false);
  Open = λ session w. (w.opened ≡ true) × (w.leader ≡ false);
  Elected = λ session w. (w.opened ≡ true) × (w.leader ≡ true);
  left = λ w. w.time;
  expired = λ w h. ground arith;
  new_session = λ w h. record { how = (refl, h.1) };
  campaign = λ session w h. record { how = (h.0, refl) };
  lead = λ session w h. h;
  resign = λ session w h. (h.0, refl);
  close = λ session w h. (refl, h.1);
  sleep = λ w h. h;
  time_new = λ w. omega arith;
  time_opened = λ session w h. omega arith;
  time_campaign = λ session w. omega arith;
  time_lead = λ w. omega arith;
  time_resign = λ session w. omega arith;
  time_close = λ session w. omega arith;
  time_sleep = λ w. omega arith;
}

run_leader_election-Returned_example :
    Returned store lead "k" terms (run_leader_election store lead "k" 4 started.world)
run_leader_election-Returned_example =
    run_leader_election-Returned store lead "k" terms 4 started.world (refl, refl) (omega arith)
