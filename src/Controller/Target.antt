-- ===== src/Controller/Target.antt =====
-- `chooseTarget` and `chooseDryRunTarget` (internal/ha/controller.go).
pub mod Laws
pub mod DryRun
use ha.Base.{
  String, ◌≡◌, Bool, true, false, not, ◌&&◌, ◌||◌, Option, none, some, List, [], ◌∷◌, if◌then◌else◌,
  ◌==◌,
}
use ha.Base.Int.{ℤ, pos, leb_ℤ, ltb_ℤ, eqb_ℤ}
use ha.Base.Map.{Map}
use ha.Base.Sort.{sort}
use ha.Base.Text.{str_lt}
use ha.Exec.{Result, ok, err}
use ha.Model.{ReplicaStatus, NodeStatus, role_replica}

pub record Candidate : Type 0 where
  pub id : String
  pub lag : ℤ

-- The comparison that `chooseTarget` hands to `sort.Slice`.
unfoldable pub candidate_less : Candidate → Candidate → Bool
candidate_less a b = if eqb_ℤ a.lag b.lag then str_lt a.id b.id else ltb_ℤ a.lag b.lag

-- `lag`: 0 where the status does not tell.
unfoldable pub replica_lag : Option ReplicaStatus → ℤ
replica_lag none = pos 0
replica_lag (some replica) = elim replica.seconds_behind [ none ↦ pos 0 | some lag ↦ lag ]

unfoldable pub is_candidate : ℤ → String → String → NodeStatus → Bool
unfolding replica_lag
is_candidate max_lag exclude id status =
    not (id == exclude || not status.healthy || not (status.role == role_replica))
    && leb_ℤ (replica_lag status.replica) max_lag

-- The loop over `c.statuses`.
unfoldable pub candidates : ℤ → String → Map NodeStatus → List Candidate
candidates max_lag exclude [] = []
candidates max_lag exclude ((id, status) ∷ rest) =
    let more = candidates max_lag exclude rest in
    if is_candidate max_lag exclude id status
    then record { id = id; lag = replica_lag status.replica } ∷ more
    else more

unfoldable pub first_candidate : List Candidate → Result String
first_candidate [] = err "no healthy replica is eligible for promotion"
first_candidate (c ∷ cs) = ok c.id

unfoldable pub choose_target : ℤ → Map NodeStatus → String → Result String
choose_target max_lag statuses exclude =
    first_candidate (sort candidate_less (candidates max_lag exclude statuses))

unfoldable pub sql_running : Option ReplicaStatus → Bool
sql_running none = false
sql_running (some replica) = replica.sql_thread_running

unfoldable pub is_dry_run_candidate : String → String → NodeStatus → Bool
unfolding sql_running
is_dry_run_candidate exclude id status =
    not (id == exclude)
    && status.reachable
    && status.role == role_replica
    && sql_running status.replica

unfoldable pub dry_run_candidates : String → Map NodeStatus → List String
dry_run_candidates exclude [] = []
dry_run_candidates exclude ((id, status) ∷ rest) =
    let more = dry_run_candidates exclude rest in
    if is_dry_run_candidate exclude id status then id ∷ more else more

unfoldable pub first_id : List String → Result String
first_id [] = err "no reachable replica can be reported in dry-run"
first_id (id ∷ ids) = ok id

unfoldable pub choose_dry_run_target : Map NodeStatus → String → Result String
choose_dry_run_target statuses exclude =
    first_id (sort str_lt (dry_run_candidates exclude statuses))
