-- ===== src/Store/Etcd/Cas.antt =====
-- `EtcdStore.PutClusterIfEpoch` (internal/store/store.go) among other clients of etcd, which may write between
-- its read and its transaction.
use ha.Base.{
  ◌≢◌, ◌≤◌, suc, String, ◌<>◌, ℕ, ◌≡◌, refl, sym, ap, ◌∙◌, true, Option, none, some, arith, eqb,
  Bool-cases, inl, inr,
}
use mathlib.Core.Path.{subst}
use ha.Exec.{Result-cases, ok_inj, Result, ok, continue-ok, require-ok, err≢ok}
use ha.Model.{ClusterState}
use ha.Store.Cas.{Swapped, Swaps}
use ha.Store.Etcd.{
  Client, KeyValue, Comparison, RoundTrips, EtcdStore, Process, initial_cluster, cluster_of_entry,
  comparison_of, put_cluster_if_epoch,
}

-- The entry of a key at the moment of a transaction passes its comparison.
abbrev pub Passes : Comparison → Option KeyValue → Type 0
Passes Comparison.absent entry = entry ≡ none
Passes (Comparison.unmodified revision) entry =
    (kv : KeyValue) × (entry ≡ some kv) × (kv.mod_revision ≡ revision)

-- What etcd documents of reads: a read returns an entry as it was at a moment during the call, and an entry that
-- still has a revision is what had it before.
pub record Revisions {W : Type 0} (client : Client W) (entry : W → String → Option KeyValue)
    (Later : W → W → Type 0) : Type 0 where
  pub later : (u v w : W) → Later u v → Later v w → Later u w
  pub same_revision :
      (k : String) (u v : W) (a b : KeyValue)
      → Later u v
      → entry u k ≡ some a
      → entry v k ≡ some b
      → a.mod_revision ≡ b.mod_revision
      → a ≡ b
  pub get :
      (k : String) (w : W) (found : Option KeyValue)
      → (client.get k w).0 ≡ ok found
      → (v : W) × Later w v × Later v (client.get k w).1 × (entry v k ≡ found)

-- What etcd documents of writes: each change of the store takes the next revision of the store, which never goes
-- back; and a transaction that succeeds compares at one revision and makes the next one, in which the key holds
-- what was put and no other key is changed.
pub record Transactions {W : Type 0} (client : Client W) (entry : W → String → Option KeyValue)
    (Later : W → W → Type 0) : Type 0 where
  pub revision : W → ℕ
  pub order : (u v : W) → Later u v → revision u ≤ revision v
  pub put_if :
      (c : Comparison) (k text : String) (w : W)
      → (client.put_if c k text w).0 ≡ ok true
      → (v v' : W) × Later w v
        × Later v' (client.put_if c k text w).1
        × Passes c (entry v k)
        × (revision v' ≡ suc (revision v))
        × (entry v' k ≡ some (record { value = text; mod_revision = revision v' }))
        × ((j : String) → j ≢ k → entry v' j ≡ entry v j)

module _ {W : Type 0} (s : EtcdStore W) (entry : W → String → Option KeyValue)
    (Later : W → W → Type 0) where
  abbrev pub key : String
  key = s.prefix <> "/cluster"

  -- The cluster record that etcd holds.
  abbrev pub view : Process W → Result ClusterState
  view p = cluster_of_entry s.formats.cluster s.prefix (entry p.world key)

  abbrev pub After : Process W → Process W → Type 0
  After p q = Later p.world q.world

  -- The entry that passes the comparison has the expected epoch.
  expected_now :
      (expected : ℕ) (found now : Option KeyValue) (c : Comparison)
      → ((a b : KeyValue) → found ≡ some a → now ≡ some b → a.mod_revision ≡ b.mod_revision → a ≡ b)
      → comparison_of s.formats.cluster expected found ≡ ok c
      → Passes c now
      → (seen : ClusterState) × (cluster_of_entry s.formats.cluster s.prefix now ≡ ok seen)
        × (seen.epoch ≡ expected)
  unfolding comparison_of cluster_of_entry initial_cluster
  expected_now expected none now c same h passes = elim (Bool-cases (eqb expected 0)) [
    | inl zero ↦
        let gone : now ≡ none = subst (λ d. Passes d now) (sym (ok_inj (rw zero at h))) passes in
        (initial_cluster s.prefix, rw gone refl, ground arith)
    | inr positive ↦ absurd (err≢ok (rw positive at h))
  ]
  expected_now expected (some kv) now c same h passes =
      elim (Result-cases (s.formats.cluster.unmarshal kv.value)) [
        | inl (current, e) ↦ elim (Bool-cases (eqb current.epoch expected)) [
          | inl equal ↦
              let (b, at, revision) : Passes (Comparison.unmodified kv.mod_revision) now =
                subst (λ d. Passes d now) (sym (ok_inj (rw (e, equal) at h))) passes in
              (current, rw (at, ← same kv b refl at (sym revision)) e, ground arith)
          | inr other ↦ absurd (err≢ok (rw (e, other) at h))
        ]
        | inr (x, e) ↦ absurd (err≢ok (rw e at h))
      ]

  -- One revision of etcd after the other.
  abbrev pub NextRevision : Transactions s.client entry Later → Process W → Process W → Type 0
  NextRevision writes p q = writes.revision q.world ≡ suc (writes.revision p.world)

  module _ (laws : Revisions s.client entry Later) (writes : Transactions s.client entry Later)
      (format : RoundTrips s.formats.cluster) where
    -- The moments of a read and of a transaction that succeeded after it.
    swapped :
        (expected : ℕ) (state : ClusterState) (p p' : Process W) (found : Option KeyValue)
        (c : Comparison) (text : String)
        → (s.client.get key p.world).0 ≡ ok found
        → comparison_of s.formats.cluster expected found ≡ ok c
        → s.formats.cluster.marshal state ≡ ok text
        → (s.client.put_if c key text (s.client.get key p.world).1).0 ≡ ok true
        → (s.client.put_if c key text (s.client.get key p.world).1).1 ≡ p'.world
        → Swapped (NextRevision writes) After view expected state p p'
    unfolding cluster_of_entry
    swapped expected state p p' found c text got compared written put end =
        let (u, since_u, until_u, at_u) = laws.get key p.world found got in
        let (v, v', since_v, until_v, passes, next, now, others) = writes.put_if c key text _ put in
        let u_v = laws.later _ _ _ until_u since_v in
        let (seen, reads, epoch) =
          expected_now expected found (entry v key) c
            (λ a b fa nb r. laws.same_revision key u v a b u_v (at_u ∙ fa) nb r) compared passes in
        record {
          before = record p { world = v };
          after = record p { world = v' };
          seen = seen;
          since = laws.later _ _ _ since_u u_v;
          at_once = next;
          until = rw (← end) until_v;
          reads = reads;
          epoch = epoch;
          holds = rw now (format.read_back state text written);
        }

    -- Where JSON reads back what it wrote, and etcd keeps what it documents of reads, transactions and
    -- revisions: a conditional write that succeeds replaced a record with the expected epoch by the next revision
    -- of etcd, at one moment during the call, whatever other clients did.
    pub put_cluster_if_epoch-Swaps : Swaps (NextRevision writes) After view (put_cluster_if_epoch s)
    unfolding put_cluster_if_epoch
    put_cluster_if_epoch-Swaps expected state p p' h =
        let (found, got, h1) = continue-ok (s.client.get key p.world).0 _ _ h in
        let (c, compared, h2) = continue-ok _ _ _ h1 in
        let (text, written, h3) = continue-ok _ _ _ h2 in
        let (succeeded, put, h4) = continue-ok _ _ _ h3 in
        let (true_it_is, end) = require-ok _ _ _ h4 in
        swapped expected state p p' found c text got compared written (put ∙ ap ok true_it_is)
          (ap (λ (q : Process W). q.world) end)
