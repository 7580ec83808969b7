-- ===== src/Store/Memory.antt =====
-- `MemoryStore` (internal/store/store.go). Each method holds the mutex throughout, so it is one step;
-- `AcquireSwitchLock` is two, and its lock keeps others out between them.
pub mod Laws
use ha.Base.{
  String, ℕ, zero, suc, Bool, true, false, not, ◌&&◌, Option, none, some, List, [], ◌∷◌, map,
  if◌then◌else◌, ltb, eqb, length, take, is_some,
}
use ha.Base.Int.{ℤ, pos, ltb_ℤ, pos_part}
use ha.Base.Map.{Map, insert}
use ha.Base.Sort.{sort}
use ha.Exec.{Result, ok, err, Exec, pure, fail, modify, require, ◌>>=◌, ◌>>◌}
use ha.Model.{ClusterState, SwitchAuthorization, SwitchTask, same_authorization}

pub record MemoryStore : Type 0 where
  pub cluster : ClusterState
  pub locked : Bool
  pub tasks : Map SwitchTask
  pub operation : Option SwitchAuthorization

-- `NewMemoryStore`
unfoldable pub new_memory_store : String → MemoryStore
new_memory_store name = record {
  cluster = record { name = name; primary = ""; epoch = 0; auto_failover = false; updated_at = 0 };
  locked = false;
  tasks = [];
  operation = none;
}

unfoldable pub get_cluster : Exec MemoryStore ClusterState
get_cluster s = (ok s.cluster, s)

unfoldable pub put_cluster : ClusterState → Exec MemoryStore (Unit {0})
put_cluster state s = (ok tt, record s { cluster = state })

unfoldable pub put_cluster_if_epoch : ℕ → ClusterState → Exec MemoryStore (Unit {0})
put_cluster_if_epoch expected state s =
    if not (eqb s.cluster.epoch expected)
    then (err "cluster epoch changed", s)
    else (ok tt, record s { cluster = state })

-- The function that `AcquireLock` returns.
unfoldable pub release_lock : MemoryStore → MemoryStore
release_lock s = record s { locked = false }

unfoldable pub acquire_lock : String → ℕ → Exec MemoryStore (MemoryStore → MemoryStore)
acquire_lock holder ttl s =
    if s.locked
    then (err "switch lock is held", s)
    else (ok release_lock, record s { locked = true })

-- The function that `AcquireSwitchLock` returns.
unfoldable pub release_switch_lock : (MemoryStore → MemoryStore) → MemoryStore → MemoryStore
release_switch_lock release s = release (record s { operation = none })

unfoldable pub acquire_switch_lock :
    String → ℕ → SwitchAuthorization → Exec MemoryStore (MemoryStore → MemoryStore)
acquire_switch_lock holder ttl auth = do
  release ← acquire_lock holder ttl
  modify (λ s. record s { operation = some auth })
  pure (release_switch_lock release)

-- `s.operation == nil || *s.operation != auth`
unfoldable pub not_operation : Option SwitchAuthorization → SwitchAuthorization → Bool
not_operation none auth = true
not_operation (some operation) auth = not (same_authorization operation auth)

unfoldable pub verify_switch_operation : SwitchAuthorization → Exec MemoryStore (Unit {0})
unfolding not_operation
verify_switch_operation auth s =
    if not_operation s.operation auth
    then (err "switch operation is not authorized", s)
    else if not (eqb s.cluster.epoch auth.from_epoch) && not (eqb s.cluster.epoch auth.to_epoch)
    then (err "switch operation epoch is stale", s)
    else (ok tt, s)

unfoldable pub put_task : SwitchTask → Exec MemoryStore (Unit {0})
put_task task s = (ok tt, record s { tasks = insert task.id task s.tasks })

-- `tasks[i].StartedAt.After(tasks[j].StartedAt)`
unfoldable pub newer : SwitchTask → SwitchTask → Bool
newer a b = ltb b.started_at a.started_at

unfoldable pub sort_tasks : List SwitchTask → List SwitchTask
sort_tasks = sort newer

-- The first `limit` tasks, where a positive limit is exceeded.
unfoldable pub limited : ℤ → List SwitchTask → List SwitchTask
limited limit tasks =
    if ltb_ℤ (pos 0) limit && ltb (pos_part limit) (length tasks)
    then take (pos_part limit) tasks
    else tasks

unfoldable pub list_tasks : ℤ → Exec MemoryStore (List SwitchTask)
list_tasks limit s = (ok (limited limit (sort_tasks (map (λ e. e.1) s.tasks))), s)

-- `RunLeaderElection`: whoever asks leads, until its function returns. `ctx_err` is `Err` of the context.
unfoldable pub run_leader_election :
    {W : Type 0} → (W → Option String) → (W → W) → W → Option String × W
run_leader_election ctx_err on_leader w = let w' = on_leader w in (ctx_err w', w')
