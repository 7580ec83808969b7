-- ===== src/Controller/Target/DryRun.antt =====
-- Which replica a dry run reports (`chooseDryRunTarget`, internal/ha/controller.go).
use mathlib.Core.Path.{subst}
use mathlib.Core.List.Permᴰ
use mathlib.Core.List.{Memᴰ}
use ha.Base.{
  String, ◌≡◌, refl, ◌≢◌, true, false, Option, none, some, List, [], ◌∷◌, arith, Bool-cases, inl,
  inr, if◌then◌else◌,
}
use ha.Base.Map.{Map}
use ha.Base.Sort.{IsStrictOrder, sort, sort-perm, sort-first, mem-perm}
use ha.Base.Text.{str_lt, str_lt_asymm, str_lt_trans_not}
use ha.Exec.{Result, ok, err}
use ha.Model.{ReplicaStatus, NodeStatus, role_replica}
use ha.Controller.Target.{
  sql_running, is_dry_run_candidate, dry_run_candidates, first_id, choose_dry_run_target,
}

-- What the code asks of a node before a dry run may name it: the IO thread may be down.
pub record Reportable (exclude id : String) (status : NodeStatus) : Type 0 where
  pub other : id ≢ exclude
  pub reachable : status.reachable ≡ true
  pub replica : status.role ≡ role_replica
  pub applying : (r : ReplicaStatus) × (status.replica ≡ some r) × (r.sql_thread_running ≡ true)

sql_running-some :
    (o : Option ReplicaStatus)
    → sql_running o ≡ true
    → (r : ReplicaStatus) × (o ≡ some r) × (r.sql_thread_running ≡ true)
unfolding sql_running
sql_running-some none h = cc
sql_running-some (some r) h = (r, refl, h)

sound :
    (exclude id : String) (status : NodeStatus)
    → is_dry_run_candidate exclude id status ≡ true
    → Reportable exclude id status
unfolding is_dry_run_candidate
sound exclude id status h = record {
  other = ground arith;
  reachable = ground arith;
  replica = ground arith;
  applying = sql_running-some status.replica (ground arith);
}

complete :
    (exclude id : String) (status : NodeStatus)
    → Reportable exclude id status
    → is_dry_run_candidate exclude id status ≡ true
unfolding is_dry_run_candidate
complete exclude id status h = let (r, e, running) = h.applying in ground arith

str_lt-IsStrictOrder : IsStrictOrder str_lt
str_lt-IsStrictOrder = record { asymm = str_lt_asymm; trans_not = str_lt_trans_not }

module _ (exclude : String) where
  abbrev Found : Map NodeStatus → String → Type 0
  Found statuses id =
      (status : NodeStatus) × Memᴰ (id, status) statuses × Reportable exclude id status

  Found-kept :
      (id j : String) (status : NodeStatus) (rest : Map NodeStatus) (more : List String)
      → (Memᴰ j more → Found rest j)
      → Reportable exclude id status
      → Memᴰ j (id ∷ more)
      → Found ((id, status) ∷ rest) j
  Found-kept id j status rest more ih good (Memᴰ.head e) = rw e (status, Memᴰ.head refl, good)
  Found-kept id j status rest more ih good (Memᴰ.tail m) =
      let (st, at, fits) = ih m in (st, Memᴰ.tail at, fits)

  mem-dry_run_candidates :
      (statuses : Map NodeStatus) (j : String)
      → Memᴰ j (dry_run_candidates exclude statuses)
      → Found statuses j
  unfolding dry_run_candidates
  mem-dry_run_candidates [] j m = elim m [ ]
  mem-dry_run_candidates ((id, status) ∷ rest) j m =
      elim (Bool-cases (is_dry_run_candidate exclude id status)) [
        | inl h ↦
            Found-kept id j status rest _ (mem-dry_run_candidates rest j)
              (sound exclude id status h) (rw (h, dry_run_candidates) at m)
        | inr h ↦
            let (st, at, good) = mem-dry_run_candidates rest j (rw (h, dry_run_candidates) at m) in
            (st, Memᴰ.tail at, good)
      ]

  dry_run_candidates-mem :
      (statuses : Map NodeStatus) (id : String) (status : NodeStatus)
      → Memᴰ (id, status) statuses
      → Reportable exclude id status
      → Memᴰ id (dry_run_candidates exclude statuses)
  unfolding dry_run_candidates
  dry_run_candidates-mem [] id status m good = elim m [ ]
  dry_run_candidates-mem ((j, s) ∷ rest) id status (Memᴰ.head e) good =
      subst
        (λ p. Memᴰ id (
          if is_dry_run_candidate exclude p.0 p.1
          then p.0 ∷ dry_run_candidates exclude rest
          else dry_run_candidates exclude rest))
        e (rw (complete exclude id status good) (Memᴰ.head refl))
  dry_run_candidates-mem ((j, s) ∷ rest) id status (Memᴰ.tail m) good =
      elim (Bool-cases (is_dry_run_candidate exclude j s)) [
        | inl h ↦ rw h (Memᴰ.tail (dry_run_candidates-mem rest id status m good))
        | inr h ↦ rw h (dry_run_candidates-mem rest id status m good)
      ]

  -- The specification of `chooseDryRunTarget`: the reportable node with the smallest id, or an error, and
  -- then no node is reportable.
  abbrev pub IsDryRunTarget : Map NodeStatus → Result String → Type 0
  IsDryRunTarget statuses (ok id) =
      Found statuses id
      × ((j : String) (s : NodeStatus)
          → Memᴰ (j, s) statuses
          → Reportable exclude j s
          → str_lt j id ≡ false)
  IsDryRunTarget statuses (err e) =
      (e ≡ "no reachable replica can be reported in dry-run")
      × ((j : String) (s : NodeStatus) → Memᴰ (j, s) statuses → ¬ Reportable exclude j s)

  target_of_sorted :
      (statuses : Map NodeStatus) (sorted : List String)
      → sort str_lt (dry_run_candidates exclude statuses) ≡ sorted
      → IsDryRunTarget statuses (first_id sorted)
  unfolding first_id
  target_of_sorted statuses [] e = (
    refl,
    λ j s m good. nothing (
        rw e at (
          mem-perm (Permᴰ.symm (sort-perm str_lt (dry_run_candidates exclude statuses)))
            (dry_run_candidates-mem statuses j s m good))),
  )
    where
      nothing : {id : String} → Memᴰ id [] → ⊥
      nothing m = elim m [ ]
  target_of_sorted statuses (id ∷ ids) e =
      let (at, least) =
        sort-first str_lt str_lt-IsStrictOrder (dry_run_candidates exclude statuses) e in
      (
        mem-dry_run_candidates statuses id at,
        λ j s m good. least j (dry_run_candidates-mem statuses j s m good),
      )

-- Whatever the statuses are, a dry run names the first reportable node or reports that there is none.
pub choose_dry_run_target_first :
    (statuses : Map NodeStatus) (exclude : String)
    → IsDryRunTarget exclude statuses (choose_dry_run_target statuses exclude)
unfolding choose_dry_run_target
choose_dry_run_target_first statuses exclude = target_of_sorted exclude statuses _ refl
