-- ===== src/Store/Etcd.antt =====
-- `EtcdStore` (internal/store/store.go). The etcd client, its sessions, mutexes and elections are parameters,
-- and so is JSON; a context only decides whether a call fails. The state is that of the process: what lies
-- outside, and which of its `sync.Once` have fired.
pub mod Cas
pub mod Authorized
pub mod Onward
pub mod Locking
pub mod Tasks
pub mod Election
pub mod Open
pub use ha.Store.Backend.{KeyValue, Comparison, Session, Client, Json, RoundTrips, Formats, Process}
use ha.Base.{
  true, false, ◌≡◌, String, ◌<>◌, ℕ, zero, suc, ◌+◌, ◌/◌, ◌%◌, Bool, false, not, ◌&&◌, ◌||◌, Option,
  none, some, List, [], ◌∷◌, if◌then◌else◌, ◌==◌, eqb, ltb, leb,
}
use ha.Base.Int.{ℤ, pos, pos_part, ltb_ℤ}
use ha.Exec.{Result, ok, err, Exec, pure, fail, attempt, require, ◌>>=◌, ◌>>◌}
use ha.Model.{ClusterState, SwitchAuthorization, SwitchTask, same_authorization, uint64_mod}
use ha.Store.{Store}

-- `EtcdStore`
pub record EtcdStore (W : Type 0) : Type 0 where
  pub client : Client W
  pub formats : Formats
  pub prefix : String

-- The text after its first characters; the source's prefix begins with four bytes, `/ha/`.
unfoldable pub drop : ℕ → String → String
drop zero s = s
drop (suc n) String.[] = ""
drop (suc n) (String.◌∷◌ c s) = drop n s

-- The cluster state where none is stored.
unfoldable pub initial_cluster : String → ClusterState
unfolding drop
initial_cluster prefix = record {
  name = drop 4 prefix;
  primary = "";
  epoch = 0;
  auto_failover = false;
  updated_at = 0;
}

unfoldable pub cluster_of_entry : Json ClusterState → String → Option KeyValue → Result ClusterState
unfolding initial_cluster
cluster_of_entry format prefix none = ok (initial_cluster prefix)
cluster_of_entry format prefix (some kv) = format.unmarshal kv.value

-- The comparison for a stored record with the expected epoch.
unfoldable pub comparison_at : ℕ → ℕ → Result ClusterState → Result Comparison
comparison_at expected revision (ok current) =
    if eqb current.epoch expected
    then ok (Comparison.unmodified revision)
    else err "cluster epoch changed"
comparison_at expected revision (err e) = err e

-- The condition under which `PutClusterIfEpoch` writes.
unfoldable pub comparison_of : Json ClusterState → ℕ → Option KeyValue → Result Comparison
unfolding comparison_at
comparison_of format expected none =
    if eqb expected 0 then ok Comparison.absent else err "cluster epoch changed"
comparison_of format expected (some kv) =
    comparison_at expected kv.mod_revision (format.unmarshal kv.value)

-- `auth.ToEpoch != auth.FromEpoch+1`, on `uint64`.
unfoldable pub next_epoch : SwitchAuthorization → Bool
next_epoch auth = eqb auth.to_epoch ((auth.from_epoch + 1) % uint64_mod)

unfoldable pub same_operation : SwitchAuthorization → Result SwitchAuthorization → Result (Unit {0})
same_operation auth (ok active) =
    if same_authorization active auth then ok tt else err "switch operation authorization mismatch"
same_operation auth (err e) = err e

unfoldable pub active_operation :
    Json SwitchAuthorization → SwitchAuthorization → Option KeyValue → Result (Unit {0})
unfolding same_operation
active_operation format auth none = err "no active switch operation"
active_operation format auth (some kv) = same_operation auth (format.unmarshal kv.value)

-- One turn of the loop of `ListTasks`: what was read, whether the limit is reached, and the other turns.
unfoldable pub collect :
    Result SwitchTask → Bool → Result (List SwitchTask) → Result (List SwitchTask)
collect (err e) stop rest = err e
collect (ok task) true rest = ok (task ∷ [])
collect (ok task) false (ok tasks) = ok (task ∷ tasks)
collect (ok task) false (err e) = err e

-- The loop of `ListTasks`, after `read` tasks.
unfoldable pub decode_tasks : Json SwitchTask → ℤ → ℕ → List KeyValue → Result (List SwitchTask)
unfolding collect
decode_tasks format limit read [] = ok []
decode_tasks format limit read (kv ∷ kvs) =
    collect (format.unmarshal kv.value) (ltb_ℤ (pos 0) limit && leb (pos_part limit) (read + 1))
      (decode_tasks format limit (read + 1) kvs)

-- `int(ttl.Seconds())`, at least 1.
unfoldable pub ttl_seconds : ℕ → ℕ
ttl_seconds ttl = let s = ttl / 1000000000 in if ltb s 1 then 1 else s

module _ {W : Type 0} where
  -- A call of the client.
  abbrev pub call : {A : Type 0} → Exec W A → Exec (Process W) A
  call m p = let (r, w) = m p.world in (r, record p { world = w })

  abbrev pub returned : {A : Type 0} → Result A → Exec (Process W) A
  returned r p = (r, p)

  -- `once.Do(f)`
  unfoldable pub do_once : ℕ → (W → W) → Process W → Process W
  do_once n f p =
      if p.fired n then p else record p { world = f p.world; fired = λ m. eqb m n || p.fired m }

module _ {W : Type 0} (s : EtcdStore W) where
  unfoldable pub get_cluster : Exec (Process W) ClusterState
  unfolding cluster_of_entry
  get_cluster = do
    found ← call (s.client.get (s.prefix <> "/cluster"))
    returned (cluster_of_entry s.formats.cluster s.prefix found)

  unfoldable pub put_cluster : ClusterState → Exec (Process W) (Unit {0})
  put_cluster state = do
    payload ← returned (s.formats.cluster.marshal state)
    call (s.client.put (s.prefix <> "/cluster") payload)

  unfoldable pub put_cluster_if_epoch : ℕ → ClusterState → Exec (Process W) (Unit {0})
  unfolding comparison_of
  put_cluster_if_epoch expected state = do
    found ← call (s.client.get (s.prefix <> "/cluster"))
    comparison ← returned (comparison_of s.formats.cluster expected found)
    payload ← returned (s.formats.cluster.marshal state)
    succeeded ← call (s.client.put_if comparison (s.prefix <> "/cluster") payload)
    require succeeded "cluster state changed concurrently"

  abbrev lock_key : String
  lock_key = s.prefix <> "/switch-lock/"

  abbrev operation_key : String
  operation_key = s.prefix <> "/switch-operation"

  -- The function that `acquireEtcdLock` returns.
  unfoldable pub release_etcd_lock : ℕ → Session → Process W → Process W
  unfolding do_once
  release_etcd_lock once session =
      do_once once (λ w. s.client.close_session session (s.client.unlock session lock_key w))

  unfoldable pub locked_session :
      Session → Result (Unit {0}) → Exec (Process W) ((Process W → Process W) × Session)
  unfolding release_etcd_lock
  locked_session session (ok done) p =
      (ok (release_etcd_lock p.next session, session), record p { next = p.next + 1 })
  locked_session session (err e) p =
      (err e, record p { world = s.client.close_session session p.world })

  -- `acquireEtcdLock`
  unfoldable pub acquire_etcd_lock :
      String → ℕ → Exec (Process W) ((Process W → Process W) × Session)
  unfolding ttl_seconds locked_session
  acquire_etcd_lock holder ttl = do
    session ← call (s.client.new_session (ttl_seconds ttl))
    locked ← attempt (call (s.client.lock session lock_key))
    locked_session session locked

  unfoldable pub acquire_lock : String → ℕ → Exec (Process W) (Process W → Process W)
  unfolding acquire_etcd_lock
  acquire_lock holder ttl = do held ← acquire_etcd_lock holder ttl; pure held.0

  -- The function that `AcquireSwitchLock` returns.
  unfoldable pub release_switch_lock : (Process W → Process W) → Process W → Process W
  release_switch_lock release p =
      let (deleted, w) = s.client.delete operation_key p.world in release (record p { world = w })

  unfoldable pub published :
      (Process W → Process W) → Result (Unit {0}) → Exec (Process W) (Process W → Process W)
  unfolding release_switch_lock
  published release (ok done) p = (ok (release_switch_lock release), p)
  published release (err e) p = (err e, release p)

  unfoldable pub publish : Session → SwitchAuthorization → Exec (Process W) (Unit {0})
  publish session auth = do
    payload ← returned (s.formats.authorization.marshal auth)
    call (s.client.put_leased session operation_key payload)

  unfoldable pub acquire_switch_lock :
      String → ℕ → SwitchAuthorization → Exec (Process W) (Process W → Process W)
  unfolding get_cluster next_epoch acquire_etcd_lock published publish
  acquire_switch_lock holder ttl auth = do
    state ← get_cluster
    require
        (not (
          not (eqb state.epoch auth.from_epoch)
          || not (next_epoch auth)
          || auth.operation_id == ""))
        "invalid switch authorization epoch"
    held ← acquire_etcd_lock holder ttl
    done ← attempt (publish held.1 auth)
    published held.0 done

  unfoldable pub verify_switch_operation : SwitchAuthorization → Exec (Process W) (Unit {0})
  unfolding get_cluster next_epoch active_operation
  verify_switch_operation auth = do
    require (not (auth.operation_id == "" || not (next_epoch auth))) "invalid switch authorization"
    state ← get_cluster
    require (eqb state.epoch auth.from_epoch || eqb state.epoch auth.to_epoch)
        "switch operation epoch is stale"
    found ← call (s.client.get operation_key)
    returned (active_operation s.formats.authorization auth found)

  unfoldable pub put_task : SwitchTask → Exec (Process W) (Unit {0})
  put_task task = do
    payload ← returned (s.formats.task.marshal task)
    call (s.client.put (s.prefix <> ("/tasks/" <> task.id)) payload)

  unfoldable pub list_tasks : ℤ → Exec (Process W) (List SwitchTask)
  unfolding decode_tasks
  list_tasks limit = do
    found ← call (s.client.latest (s.prefix <> "/tasks/"))
    returned (decode_tasks s.formats.task limit 0 found)

  -- The `Store` that `NewEtcdStore` returns.
  abbrev pub etcd_store : Store (Process W)
  etcd_store = record {
    get_cluster = get_cluster;
    put_cluster = put_cluster;
    put_cluster_if_epoch = put_cluster_if_epoch;
    acquire_lock = acquire_lock;
    acquire_switch_lock = acquire_switch_lock;
    verify_switch_operation = verify_switch_operation;
    put_task = put_task;
    list_tasks = list_tasks;
  }
