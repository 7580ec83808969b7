-- ===== src/Controller/Switchover/AutoFailover.antt =====
-- What `SetAutoFailover` writes (internal/ha/controller.go), for any store that compares and swaps.
use ha.Base.{◌≡◌, ap, ◌∙◌, Bool, true}
use ha.Exec.{ok_inj, ◌>>=◌, with_end, Result, ok, continue-ok, required-ok}
use ha.Model.{Time, ClusterState}
use ha.Store.Cas.{Swapped, Swaps, within}
use mathlib.Core.Path.{subst}
use ha.Controller.Onward.{Onward, always, reached}
use ha.Controller.Switchover.Safety.{leader_bound_context-Ends}
use ha.Controller.{Services, State, outside, ask}
use ha.Controller.Switchover.{set_auto_failover}

module _ {W : Type 0} (sv : Services W) (Next Later : W → W → Type 0)
    (view : W → Result ClusterState) where
  -- A read that succeeds returns the record of one moment during the call.
  abbrev pub Reads : Type 0
  Reads =
      (w w' : W) (c : ClusterState)
      → sv.store.get_cluster w ≡ (ok c, w')
      → (u : W) × Later w u × Later u w' × (view u ≡ ok c)

  -- The record of one moment between two states was read, and after it, and before the second state, one change of
  -- the store replaced a record with the same epoch by it, with nothing but the flag and the time changed.
  pub record FlagSet (enabled : Bool) (w w' : W) : Type 0 where
    pub seen : W
    pub found : ClusterState
    pub since : Later w seen
    pub reads : view seen ≡ ok found
    pub updated : Time
    pub swapped :
        Swapped Next Later view found.epoch
          (record found { auto_failover = enabled; updated_at = updated })
          seen
          w'

  within_call :
      Onward sv Later
      → (enabled : Bool) (u w w' v : W) → Later u w
      → Later w' v
      → FlagSet enabled w w'
      → FlagSet enabled u v
  within_call onward enabled u w w' v first last f = record {
    seen = f.seen;
    found = f.found;
    since = onward.later u w f.seen first f.since;
    reads = f.reads;
    updated = f.updated;
    swapped =
        within Next Later view onward.later f.seen f.seen w' v (onward.now_or_later f.seen) last
          f.swapped;
  }

  -- What runs under the lock.
  body-FlagSet :
      Onward sv Later
      → Reads
      → Swaps Next Later view sv.store.put_cluster_if_epoch
      → (enabled : Bool) (s s' : State W)
      → (outside sv.store.get_cluster >>= λ state. ask sv.now >>= λ updated. outside (
            sv.store.put_cluster_if_epoch state.epoch
              (record state { auto_failover = enabled; updated_at = updated })))
          s
        ≡ (ok tt, s')
      → FlagSet enabled s.world s'.world
  body-FlagSet onward reads swaps enabled s s' h =
      let (found, read, h1) = continue-ok (sv.store.get_cluster s.world).0 _ _ h in
      let (updated, asked, h2) = continue-ok _ _ _ h1 in
      let (u, since, until, holds) = reads s.world _ found (with_end _ read) in
      let start = (sv.now (sv.store.get_cluster s.world).1).1 in
      let new : ClusterState = record found { auto_failover = enabled; updated_at = updated } in
      let end : W = (sv.store.put_cluster_if_epoch found.epoch new start).1 in
      let ends : end ≡ s'.world = ap (λ (o : Result (Unit {0}) × State W). o.1.world) h2 in
      record {
        seen = u;
        found = found;
        since = since;
        reads = holds;
        updated = updated;
        swapped =
            within Next Later view onward.later u start end s'.world ((onward.frame u).now _ until)
              (subst (λ v. Later end v) ends (onward.now_or_later end))
              (swaps found.epoch new start _ (
                with_end (sv.store.put_cluster_if_epoch found.epoch new start) (ap (λ o. o.0) h2)));
      }

  until_end : {a b c : W} → b ≡ c → Later a b → Later a c
  until_end {a} e h = subst (λ v. Later a v) e h

  -- Where every call moves time on, the store reads what it holds and its conditional write is a compare-and-swap: a
  -- call of `SetAutoFailover` that succeeds was made by a leader; it has read the record of a moment during the
  -- call, and later, but before the return, one change of the store replaced a record of that epoch by what was
  -- read with the flag and the time changed.
  pub set_auto_failover-FlagSet :
      Onward sv Later
      → Reads
      → Swaps Next Later view sv.store.put_cluster_if_epoch
      → (enabled : Bool) (s s' : State W) → set_auto_failover sv enabled s ≡ (ok tt, s')
      → (s.ctl.leader ≡ true) × FlagSet enabled s.world s'.world
  unfolding set_auto_failover
  set_auto_failover-FlagSet onward reads swaps enabled s s' h =
      let (leader, d1, h1) = continue-ok _ _ _ h in
      let (leads, h2) = required-ok _ _ _ _ h1 in
      let (bound, d3, h3) = continue-ok _ _ _ h2 in
      let (cfg, d4, h4) = continue-ok _ _ _ h3 in
      let (release, d5, h5) = continue-ok _ _ _ h4 in
      let u = s.world in
      let led =
        reached _ _
          (leader_bound_context-Ends sv (always sv Later onward u) s (onward.now_or_later u)) in
      let released = ap (λ (o : Result (Unit {0}) × State W). o.1.world) h5 in
      (
        ok_inj d1 ∙ leads,
        within_call onward enabled u _ _ s'.world (onward.acquire_lock _ _ u _ led)
            (until_end released
              (onward.release_lock _ _ _ (with_end _ d5) _ _ (onward.now_or_later _)))
            (body-FlagSet onward reads swaps enabled _ _ (with_end _ (ap (λ o. o.0) h5))),
      )
