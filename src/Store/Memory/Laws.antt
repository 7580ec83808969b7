-- ===== src/Store/Memory/Laws.antt =====
-- `MemoryStore` (internal/store/store.go): the conditional write, the holder of the switch lock, the operation that
-- is verified, and the list of tasks.
use ha.Base.{
  String, ℕ, ◌≡◌, refl, ap, ◌∙◌, ◌&&◌, ltb, length-take, length-map, ◌≢◌, ◌↔◌, ◌⊎◌, true, false,
  Option, none, some, List, [], ◌∷◌, arith, map, All, length, take, zero, suc, ◌<◌, if◌then◌else◌,
  ◌==◌, Bool-cases, inl, inr,
}
use Prim.Native.Nat.{min}
use mathlib.Core.List.{Permᴰ}
use ha.Base.Int.{ℤ, pos, pos_part, ltb_ℤ, ◌≤ℤ◌}
use ha.Base.Sort.{IsStrictOrder, IsSorted, sort, sort-IsSorted, sort-perm, length-perm}
use ha.Base.Map.{lookup, lookup-insert}
use ha.Exec.{continue, ok, err}
use ha.Model.{ClusterState, SwitchAuthorization, SwitchTask, same_authorization_iff}
use ha.Store.Memory.{
  MemoryStore, put_cluster_if_epoch, acquire_lock, acquire_switch_lock, release_switch_lock,
  release_lock, not_operation, verify_switch_operation, put_task, newer, sort_tasks, limited,
  list_tasks,
}

-- A conditional write succeeds exactly when the expected epoch is the stored one. Then the new record is
-- stored and the rest of the store is as before; otherwise nothing changes.
pub put_cluster_if_epoch_cas :
    (expected : ℕ) (state : ClusterState) (s : MemoryStore)
    → ((s.cluster.epoch ≡ expected)
        × (put_cluster_if_epoch expected state s ≡ (ok tt, record s { cluster = state })))
      ⊎ ((s.cluster.epoch ≢ expected)
          × (put_cluster_if_epoch expected state s ≡ (err "cluster epoch changed", s)))
unfolding put_cluster_if_epoch
put_cluster_if_epoch_cas expected state s = ground arith

not_operation_iff :
    (o : Option SwitchAuthorization) (auth : SwitchAuthorization)
    → (not_operation o auth ≡ false) ↔ (o ≡ some auth)
unfolding not_operation
not_operation_iff none auth = (λ h. cc, λ h. cc)
not_operation_iff (some a) auth = ground (arith, same_authorization_iff a auth)

-- An operation is authorised exactly when it is the one that holds the switch lock and the cluster's epoch
-- is still the one that it began from or the one that it leads to.
pub verify_switch_operation_iff :
    (auth : SwitchAuthorization) (s : MemoryStore)
    → (verify_switch_operation auth s ≡ (ok tt, s)) ↔ (
        (s.operation ≡ some auth)
        × ((s.cluster.epoch ≡ auth.from_epoch) ⊎ (s.cluster.epoch ≡ auth.to_epoch)))
unfolding verify_switch_operation
verify_switch_operation_iff auth s = (
  λ h. ground (arith, not_operation_iff s.operation auth),
  λ h. ground (arith, not_operation_iff s.operation auth),
)

-- While the lock is held, both ways to acquire it fail and change nothing. Where it is free, acquiring it
-- for a switch takes it, records the operation, and leaves the cluster and the tasks as they were; the
-- function returned then frees the lock and clears the operation, whatever happened to the rest meanwhile.
pub acquire_switch_lock_exclusive :
    (holder : String) (ttl : ℕ) (auth : SwitchAuthorization) (s : MemoryStore)
    → ((s.locked ≡ true)
        × (acquire_lock holder ttl s ≡ (err "switch lock is held", s))
        × (acquire_switch_lock holder ttl auth s ≡ (err "switch lock is held", s)))
      ⊎ ((s.locked ≡ false)
          × (acquire_switch_lock holder ttl auth s ≡ (
            ok (release_switch_lock release_lock),
            record s { locked = true; operation = some auth },
          ))
          × ((t : MemoryStore)
              → release_switch_lock release_lock t ≡ record t { locked = false; operation = none }))
unfolding acquire_switch_lock acquire_lock release_switch_lock release_lock continue
acquire_switch_lock_exclusive holder ttl auth s = elim (Bool-cases s.locked) [
  | inl held ↦ inl (held, rw held, rw held)
  | inr free ↦ inr (free, rw free, λ t. refl)
]

-- Once the switch lock is released, no operation at all is authorised.
pub verify_switch_operation_released :
    (auth : SwitchAuthorization) (s : MemoryStore)
    → verify_switch_operation auth (release_switch_lock release_lock s)
      ≡ (err "switch operation is not authorized", release_switch_lock release_lock s)
unfolding verify_switch_operation release_switch_lock release_lock
verify_switch_operation_released auth s = refl

-- A stored task is found under its id, and no other task is touched.
lookup-put_task :
    (id : String) (task : SwitchTask) (s : MemoryStore)
    → lookup id (put_task task s).1.tasks ≡ (if id == task.id then some task else lookup id s.tasks)
unfolding put_task
lookup-put_task id task s = lookup-insert id task.id task s.tasks

newer-IsStrictOrder : IsStrictOrder newer
unfolding newer
newer-IsStrictOrder = record {
  asymm = λ a b h. ground arith;
  trans_not = λ a b c h k. ground arith;
}

take-IsSorted : (n : ℕ) (xs : List SwitchTask) → IsSorted newer xs → IsSorted newer (take n xs)
take-IsSorted zero xs h = tt
take-IsSorted (suc n) [] h = tt
take-IsSorted (suc n) (x ∷ xs) (least, h) = (take-All n x xs least, take-IsSorted n xs h)
  where
    take-All :
        (n : ℕ) (x : SwitchTask) (xs : List SwitchTask)
        → All (λ y. newer y x ≡ false) xs
        → All (λ y. newer y x ≡ false) (take n xs)
    take-All zero x xs h = tt
    take-All (suc n) x [] h = tt
    take-All (suc n) x (y ∷ ys) (first, rest) = (first, take-All n x ys rest)

limited-IsSorted :
    (limit : ℤ) (xs : List SwitchTask) → IsSorted newer xs → IsSorted newer (limited limit xs)
unfolding limited
limited-IsSorted limit xs h =
    elim (Bool-cases (ltb_ℤ (pos 0) limit && ltb (pos_part limit) (length xs))) [
      | inl e ↦ rw e (take-IsSorted (pos_part limit) xs h)
      | inr e ↦ rw e h
    ]

length-limited :
    (n : ℕ) (xs : List SwitchTask) → 0 < n → length (limited (pos n) xs) ≡ min n (length xs)
unfolding limited
length-limited n xs h = ground (arith, length-take n xs)

limited_all : (limit : ℤ) (xs : List SwitchTask) → limit ≤ℤ pos 0 → limited limit xs ≡ xs
unfolding limited
limited_all limit xs h = ground arith

-- The tasks come newest first; a limit of 0 or less returns every stored task, and a positive limit that
-- many, or all if there are fewer.
pub list_tasks_newest :
    (limit : ℤ) (s : MemoryStore)
    → (found : List SwitchTask) × (list_tasks limit s ≡ (ok found, s))
      × IsSorted newer found
      × ((n : ℕ) → limit ≡ pos n → 0 < n → length found ≡ min n (length s.tasks))
      × (limit ≤ℤ pos 0 → Permᴰ found (map (λ e. e.1) s.tasks))
unfolding list_tasks sort_tasks
list_tasks_newest limit s =
    let stored = map (λ e. e.1) s.tasks in
    (
      limited limit (sort newer stored),
      refl,
      limited-IsSorted limit _ (sort-IsSorted newer newer-IsStrictOrder stored),
      λ n e pos_n. rw e (
          length-limited n (sort newer stored) pos_n
          ∙ ap (min n) (length-perm (sort-perm newer stored) ∙ length-map (λ e. e.1) s.tasks)),
      λ h. rw (limited_all limit (sort newer stored) h) (sort-perm newer stored),
    )
