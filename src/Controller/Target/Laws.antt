-- ===== src/Controller/Target/Laws.antt =====
-- Which replica `chooseTarget` picks (internal/ha/controller.go), and Go's random order of iteration over the map
-- of statuses.
use mathlib.Core.List.Permᴰ
use mathlib.Core.Path.{subst}
use mathlib.Core.List.{Permᴰ, Memᴰ}
use ha.Base.Map.{Map}
use ha.Base.Sort.{sort-first, IsStrictOrder, sort, sort-perm, sort-eq_of_perm, mem-perm}
use ha.Base.Text.{str_lt, str_lt_asymm, str_lt_trans_not, str_lt_antisymm}
use ha.Base.Int.{ℤ, ◌≤ℤ◌, ◌<ℤ◌, eq_of_parts}
use ha.Exec.{Result, ok, err}
use ha.Model.{NodeStatus, role_replica}
use ha.Controller.Target.{
  Candidate, candidate_less, replica_lag, is_candidate, candidates, first_candidate, choose_target,
}
use ha.Base.{
  if◌then◌else◌, Bool, ap, inr, inl, Bool-cases, String, ◌≡◌, refl, ◌≢◌, ◌⊎◌, true, false, List, [],
  ◌∷◌, arith,
}

-- What the code asks of a node before it may be promoted.
pub record Eligible (max_lag : ℤ) (exclude id : String) (status : NodeStatus) : Type 0 where
  pub other : id ≢ exclude
  pub healthy : status.healthy ≡ true
  pub replica : status.role ≡ role_replica
  pub caught_up : replica_lag status.replica ≤ℤ max_lag

is_candidate_sound :
    (max_lag : ℤ) (exclude id : String) (status : NodeStatus)
    → is_candidate max_lag exclude id status ≡ true
    → Eligible max_lag exclude id status
unfolding is_candidate
is_candidate_sound max_lag exclude id status h = record {
  other = ground arith;
  healthy = ground arith;
  replica = ground arith;
  caught_up = ground arith;
}

is_candidate_complete :
    (max_lag : ℤ) (exclude id : String) (status : NodeStatus)
    → Eligible max_lag exclude id status
    → is_candidate max_lag exclude id status ≡ true
unfolding is_candidate
is_candidate_complete max_lag exclude id status h = ground arith

candidate_less-IsStrictOrder : IsStrictOrder candidate_less
unfolding candidate_less
candidate_less-IsStrictOrder = record {
  asymm = λ a b h. ground (arith, str_lt_asymm a.id b.id);
  trans_not = λ a b c h k. ground (arith, str_lt_trans_not a.id b.id c.id);
}

candidate_less_total :
    (a b : Candidate) → candidate_less a b ≡ false → candidate_less b a ≡ false → a ≡ b
unfolding candidate_less
candidate_less_total a b h k = ground (arith, str_lt_antisymm a.id b.id, eq_of_parts a.lag b.lag)

abbrev candidate_of : String × NodeStatus → Candidate
candidate_of (id, status) = record { id = id; lag = replica_lag status.replica }

module _ (max_lag : ℤ) (exclude : String) where
  -- The entry that a candidate stands for.
  abbrev Found : Map NodeStatus → Candidate → Type 0
  Found statuses c =
      (status : NodeStatus) × Memᴰ (c.id, status) statuses
      × Eligible max_lag exclude c.id status
      × (c.lag ≡ replica_lag status.replica)

  Found-kept :
      (id : String) (status : NodeStatus) (rest : Map NodeStatus) (c : Candidate)
      (more : List Candidate)
      → (Memᴰ c more → Found rest c)
      → Eligible max_lag exclude id status
      → Memᴰ c (candidate_of (id, status) ∷ more)
      → Found ((id, status) ∷ rest) c
  Found-kept id status rest c more ih good (Memᴰ.head e) = rw e (status, Memᴰ.head refl, good, refl)
  Found-kept id status rest c more ih good (Memᴰ.tail m) =
      let (st, at, fits, lag) = ih m in (st, Memᴰ.tail at, fits, lag)

  mem-candidates :
      (statuses : Map NodeStatus) (c : Candidate)
      → Memᴰ c (candidates max_lag exclude statuses)
      → Found statuses c
  unfolding candidates
  mem-candidates [] c m = elim m [ ]
  mem-candidates ((id, status) ∷ rest) c m =
      elim (Bool-cases (is_candidate max_lag exclude id status)) [
        | inl h ↦
            Found-kept id status rest c _ (mem-candidates rest c)
              (is_candidate_sound max_lag exclude id status h) (rw (h, candidates) at m)
        | inr h ↦
            let (st, at, good, lag) = mem-candidates rest c (rw (h, candidates) at m) in
            (st, Memᴰ.tail at, good, lag)
      ]

  candidates-mem :
      (statuses : Map NodeStatus) (id : String) (status : NodeStatus)
      → Memᴰ (id, status) statuses
      → Eligible max_lag exclude id status
      → Memᴰ (candidate_of (id, status)) (candidates max_lag exclude statuses)
  unfolding candidates
  candidates-mem [] id status m good = elim m [ ]
  candidates-mem ((j, s) ∷ rest) id status (Memᴰ.head e) good =
      subst
        (λ p. Memᴰ (candidate_of (id, status)) (
          if is_candidate max_lag exclude p.0 p.1
          then candidate_of p ∷ candidates max_lag exclude rest
          else candidates max_lag exclude rest))
        e (rw (is_candidate_complete max_lag exclude id status good) (Memᴰ.head refl))
  candidates-mem ((j, s) ∷ rest) id status (Memᴰ.tail m) good =
      elim (Bool-cases (is_candidate max_lag exclude j s)) [
        | inl h ↦ rw h (Memᴰ.tail (candidates-mem rest id status m good))
        | inr h ↦ rw h (candidates-mem rest id status m good)
      ]

  -- The specification of `chooseTarget`, by its outcome: an eligible node such that no eligible node has a
  -- smaller lag, nor the same lag and a smaller id; or an error, and then no node is eligible.
  abbrev pub IsBestTarget : Map NodeStatus → Result String → Type 0
  IsBestTarget statuses (ok id) =
      (status : NodeStatus) × Memᴰ (id, status) statuses
      × Eligible max_lag exclude id status
      × ((j : String) (s : NodeStatus)
          → Memᴰ (j, s) statuses
          → Eligible max_lag exclude j s
          → (replica_lag status.replica <ℤ replica_lag s.replica)
            ⊎ ((replica_lag status.replica ≡ replica_lag s.replica) × (str_lt j id ≡ false)))
  IsBestTarget statuses (err e) =
      (e ≡ "no healthy replica is eligible for promotion")
      × ((j : String) (s : NodeStatus) → Memᴰ (j, s) statuses → ¬ Eligible max_lag exclude j s)

  not_below :
      (id j : String) (l k : ℤ)
      → candidate_less (record { id = j; lag = k }) (record { id = id; lag = l }) ≡ false
      → (l <ℤ k) ⊎ ((l ≡ k) × (str_lt j id ≡ false))
  unfolding candidate_less
  not_below id j l k h = ground (arith, eq_of_parts l k)

  best_of_sorted :
      (statuses : Map NodeStatus) (sorted : List Candidate)
      → sort candidate_less (candidates max_lag exclude statuses) ≡ sorted
      → IsBestTarget statuses (first_candidate sorted)
  unfolding first_candidate
  best_of_sorted statuses [] e = (
    refl,
    λ j s m good. nothing (
        rw e at (
          mem-perm (Permᴰ.symm (sort-perm candidate_less (candidates max_lag exclude statuses)))
            (candidates-mem statuses j s m good))),
  )
    where
      nothing : {c : Candidate} → Memᴰ c [] → ⊥
      nothing m = elim m [ ]
  best_of_sorted statuses (c ∷ cs) e =
      let (at, least) =
        sort-first candidate_less candidate_less-IsStrictOrder (candidates max_lag exclude statuses)
          e in
      let (status, m, good, lag) = mem-candidates statuses c at in
      (
        status,
        m,
        good,
        λ j s mj goodj. rw (← lag) (
            not_below c.id j c.lag (replica_lag s.replica)
              (least (candidate_of (j, s)) (candidates-mem statuses j s mj goodj))),
      )

-- Whatever the statuses are, `chooseTarget` gives the best target or reports that there is none.
pub choose_target_best :
    (max_lag : ℤ) (statuses : Map NodeStatus) (exclude : String)
    → IsBestTarget max_lag exclude statuses (choose_target max_lag statuses exclude)
unfolding choose_target
choose_target_best max_lag statuses exclude = best_of_sorted max_lag exclude statuses _ refl

candidates-perm :
    (max_lag : ℤ) (exclude : String) {xs ys : Map NodeStatus}
    → Permᴰ xs ys
    → Permᴰ (candidates max_lag exclude xs) (candidates max_lag exclude ys)
unfolding candidates
candidates-perm max_lag exclude Permᴰ.nil = Permᴰ.nil
candidates-perm max_lag exclude (Permᴰ.cons {b} e p) =
    rw e (elim (Bool-cases (is_candidate max_lag exclude b.0 b.1)) [
      | inl h ↦ rw h (Permᴰ.cons refl (candidates-perm max_lag exclude p))
      | inr h ↦ rw h (candidates-perm max_lag exclude p)
    ])
candidates-perm max_lag exclude (Permᴰ.swap {a' = a} {b' = b} {l} d e) =
    rw (d, e)
      (swapped (is_candidate max_lag exclude a.0 a.1) (is_candidate max_lag exclude b.0 b.1))
  where
    swapped :
        (p q : Bool)
        → Permᴰ
            (if q
              then candidate_of b
                ∷ (if p
                    then candidate_of a ∷ candidates max_lag exclude l
                    else candidates max_lag exclude l)
              else (if p
                  then candidate_of a ∷ candidates max_lag exclude l
                  else candidates max_lag exclude l))
            (if p
              then candidate_of a
                ∷ (if q
                    then candidate_of b ∷ candidates max_lag exclude l
                    else candidates max_lag exclude l)
              else (if q
                  then candidate_of b ∷ candidates max_lag exclude l
                  else candidates max_lag exclude l))
    swapped true true = Permᴰ.swap refl refl
    swapped true false = Permᴰ.refl _
    swapped false true = Permᴰ.refl _
    swapped false false = Permᴰ.refl _
candidates-perm max_lag exclude (Permᴰ.trans p q) =
    Permᴰ.trans (candidates-perm max_lag exclude p) (candidates-perm max_lag exclude q)

-- The target does not depend on the order in which Go's `range` visits the map of statuses.
pub choose_target_order :
    (max_lag : ℤ) (exclude : String) {xs ys : Map NodeStatus}
    → Permᴰ xs ys
    → choose_target max_lag xs exclude ≡ choose_target max_lag ys exclude
unfolding choose_target
choose_target_order max_lag exclude p = ap first_candidate (
    sort-eq_of_perm candidate_less candidate_less-IsStrictOrder candidate_less_total
      (candidates-perm max_lag exclude p))
