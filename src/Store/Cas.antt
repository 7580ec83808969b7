-- ===== src/Store/Cas.antt =====
-- What the controller relies on of `PutClusterIfEpoch` (internal/store/store.go), for any store: an atomic
-- compare-and-swap on the epoch of the cluster record, while others may act before and after it.
use ha.Base.{ℕ, ◌≡◌, refl, sym, inl, inr, ap, ◌∙◌}
use ha.Exec.{Result, ok, Exec, err≢ok}
use ha.Model.{ClusterState}
use ha.Store.Memory.{MemoryStore, put_cluster_if_epoch}
use ha.Store.Memory.Laws.{put_cluster_if_epoch_cas}

-- `Later` orders the states of the outside in time, `Next` holds of two states with one change of the store
-- between them, and `view` is the record that a state holds.
module _ {W : Type 0} (Next Later : W → W → Type 0) (view : W → Result ClusterState) where
  -- Between the call and its return there was one change of the store, which replaced a record with the expected
  -- epoch: nothing changed between the record that was seen and the one that replaced it.
  pub record Swapped (expected : ℕ) (state : ClusterState) (w w' : W) : Type 0 where
    pub before : W
    pub after : W
    pub seen : ClusterState
    pub since : Later w before
    pub at_once : Next before after
    pub until : Later after w'
    pub reads : view before ≡ ok seen
    pub epoch : seen.epoch ≡ expected
    pub holds : view after ≡ ok state

  -- What happened within one span of time happened within a longer one.
  pub within :
      ((u v w : W) → Later u v → Later v w → Later u w)
      → {expected : ℕ} {state : ClusterState} (u w w' v : W) → Later u w
      → Later w' v
      → Swapped expected state w w'
      → Swapped expected state u v
  within later u w w' v first last s = record {
    before = s.before;
    after = s.after;
    seen = s.seen;
    since = later u w s.before first s.since;
    at_once = s.at_once;
    until = later s.after w' v s.until last;
    reads = s.reads;
    epoch = s.epoch;
    holds = s.holds;
  }

  -- A conditional write that succeeds swaps.
  abbrev pub Swaps : (ℕ → ClusterState → Exec W (Unit {0})) → Type 0
  Swaps put =
      (expected : ℕ) (state : ClusterState) (w w' : W)
      → put expected state w ≡ (ok tt, w')
      → Swapped expected state w w'

-- In memory nothing but the record changes.
abbrev pub OnlyCluster : MemoryStore → MemoryStore → Type 0
OnlyCluster s t = t ≡ record s { cluster = t.cluster }

changed : (s t : MemoryStore) (c : ClusterState) → t ≡ record s { cluster = c } → OnlyCluster s t
changed s t c e =
    e ∙ ap (λ c. record s { cluster = c }) (sym (ap (λ (t : MemoryStore). t.cluster) e))

-- In memory the moment is the call itself.
pub memory-Swaps : Swaps OnlyCluster (λ s t. s ≡ t) (λ s. ok s.cluster) put_cluster_if_epoch
memory-Swaps expected state s s' h = elim (put_cluster_if_epoch_cas expected state s) [
  | inl (e, done) ↦ record {
    before = s;
    after = s';
    seen = s.cluster;
    since = refl;
    at_once = changed s s' state (ap (λ o. o.1) (sym h ∙ done));
    until = refl;
    reads = refl;
    epoch = e;
    holds = ap (λ (t : MemoryStore). ok t.cluster) (ap (λ o. o.1) (sym h ∙ done));
  }
  | inr (e, refused) ↦ absurd (err≢ok (ap (λ o. o.0) (sym refused ∙ h)))
]
