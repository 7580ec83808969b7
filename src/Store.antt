-- ===== src/Store.antt =====
-- The `Store` interface (internal/store/store.go) over an unknown state `W`. A context only decides whether a call
-- fails, so it is not an argument.
pub mod Memory
pub mod Backend
pub mod Etcd
pub mod Cas
use ha.Base.{String, ℕ, ◌≡◌, List}
use ha.Base.Int.{ℤ}
use ha.Exec.{Result, ok, err, Exec}
use ha.Model.{ClusterState, SwitchAuthorization, SwitchTask}

-- `acquire_lock` returns the function that releases the lock. A ttl is in nanoseconds.
pub record Store (W : Type 0) : Type 0 where
  pub get_cluster : Exec W ClusterState
  pub put_cluster : ClusterState → Exec W (Unit {0})
  pub put_cluster_if_epoch : ℕ → ClusterState → Exec W (Unit {0})
  pub acquire_lock : String → ℕ → Exec W (W → W)
  pub acquire_switch_lock : String → ℕ → SwitchAuthorization → Exec W (W → W)
  pub verify_switch_operation : SwitchAuthorization → Exec W (Unit {0})
  pub put_task : SwitchTask → Exec W (Unit {0})
  pub list_tasks : ℤ → Exec W (List SwitchTask)
