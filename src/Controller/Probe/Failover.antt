-- ===== src/Controller/Probe/Failover.antt =====
-- When `tryAutomaticFailover` acts (internal/ha/controller.go), and which nodes accept writes then.
use ha.Base.{
  Bool, String, ◌≡◌, ◌≢◌, ◌⊎◌, inl, inr, refl, true, false, not, ◌&&◌, ◌||◌, Option, none, some,
  arith, Bool-cases, ◌==◌,
}
use ha.Base.Int.{◌≤ℤ◌, ltb_ℤ}
use ha.Base.Map.{lookup}
use ha.Exec.{Result, ok, err}
use ha.Model.{NodeStatus}
use ha.Controller.{ClusterState, Services, State}
use ha.Controller.Probe.{
  has_failed, known_healthy, failover_target, switch_to, try_automatic_failover,
}
use ha.Controller.Switchover.SingleWriter.{WriteLaws, OnlyWriter, switch_single_writer}
use ha.Controller.Switchover.{switch}

-- The primary is known to be unhealthy, its failures in a row have reached the threshold, no switch is on its
-- way, and where failovers are only reported, this one was not reported before.
pub record Due {W : Type 0} (primary : String) (s : State W) : Type 0 where
  pub seen : NodeStatus
  pub known : lookup primary s.ctl.statuses ≡ some seen
  pub ill : seen.healthy ≡ false
  pub often : s.ctl.cfg.failure_threshold ≤ℤ seen.failure_count
  pub idle : s.ctl.tripping ≡ false
  pub news : (s.ctl.cfg.auto_failover_execute ≡ true) ⊎ (s.ctl.last_dry_run_primary ≢ primary)

module _ {W : Type 0} (sv : Services W) (quote : String → String) where
  -- What `tryAutomaticFailover` comes to: nothing; or it forgets which primary a dry run reported, for that
  -- primary is healthy; or, only where it is due, an automatic switch to the chosen target, if there is one.
  pub data Tried (primary : String) (s : State W) : State W → Type 0 where
    nothing : Tried primary s s
    well :
        (seen : NodeStatus)
        → lookup primary s.ctl.statuses ≡ some seen
        → seen.healthy ≡ true
        → Tried primary s (record s { ctl = record s.ctl { last_dry_run_primary = "" } })
    acted :
        Due primary s
        → (target : String) → failover_target sv quote primary s ≡ ok target
        → Tried primary s (switch sv quote target true s).1

  switch_to-Tried :
      (primary : String) (s : State W) (r : Result String)
      → Due primary s
      → failover_target sv quote primary s ≡ r
      → Tried primary s (switch_to sv quote r s)
  unfolding switch_to
  switch_to-Tried primary s (ok target) due e = acted due target e
  switch_to-Tried primary s (err x) due e = nothing

  -- On every path `tryAutomaticFailover` comes to one of these.
  pub try_automatic_failover-Tried :
      (primary : String) (s : State W) → Tried primary s (try_automatic_failover sv quote primary s)
  unfolding try_automatic_failover has_failed known_healthy
  try_automatic_failover-Tried primary s = decided (lookup primary s.ctl.statuses) refl
    where
      result : State W → Type 0
      result t = try_automatic_failover sv quote primary s ≡ t

      is :
          (t : State W)
          → result t
          → Tried primary s t
          → Tried primary s (try_automatic_failover sv quote primary s)
      is t e r = rw e r

      failing :
          (seen : NodeStatus)
          → lookup primary s.ctl.statuses ≡ some seen
          → seen.healthy ≡ false
          → Tried primary s (try_automatic_failover sv quote primary s)
      failing seen e ill =
          elim (Bool-cases
            (ltb_ℤ seen.failure_count s.ctl.cfg.failure_threshold || s.ctl.tripping)) [
              | inl wait ↦ is s (ground arith) nothing
              | inr go ↦
                  elim (Bool-cases (
                    not s.ctl.cfg.auto_failover_execute && s.ctl.last_dry_run_primary == primary)) [
                      | inl old ↦ is s (ground arith) nothing
                      | inr new ↦ is _ (ground arith) (
                          switch_to-Tried primary s (failover_target sv quote primary s)
                            (record {
                              seen = seen;
                              known = e;
                              ill = ill;
                              often = (ground arith);
                              idle = ground (arith, go);
                              news = (ground arith);
                            })
                            refl)
                    ]
            ]

      decided :
          (found : Option NodeStatus)
          → lookup primary s.ctl.statuses ≡ found
          → Tried primary s (try_automatic_failover sv quote primary s)
      decided none e = is s (ground arith) nothing
      decided (some seen) e = elim (Bool-cases seen.healthy) [
        | inl good ↦ is _ (ground arith) (well seen e good)
        | inr ill ↦ failing seen e ill
      ]

-- An automatic failover leaves at most one node that accepts writes, if only the recorded primary does before,
-- and the nodes behave as MySQL documents.
pub try_automatic_failover_single_writer :
    {W : Type 0} (sv : Services W) (writable : W → String → Bool) (cluster : W → ClusterState)
    (laws : WriteLaws sv writable cluster) (quote : String → String) (primary : String)
    (s : State W)
    → OnlyWriter sv writable cluster (cluster s.world).primary s.world
    → (p : String) × OnlyWriter sv writable cluster p
        (try_automatic_failover sv quote primary s).world
try_automatic_failover_single_writer {W} sv writable cluster laws quote primary s h =
    tried _ (try_automatic_failover-Tried sv quote primary s)
  where
    tried :
        (t : State W)
        → Tried sv quote primary s t
        → (p : String) × OnlyWriter sv writable cluster p t.world
    tried _ Tried.nothing = ((cluster s.world).primary, h)
    tried _ (Tried.well seen e good) = ((cluster s.world).primary, h)
    tried _ (Tried.acted due target e) =
        switch_single_writer sv writable cluster laws quote target true s h
