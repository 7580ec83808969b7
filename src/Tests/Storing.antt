-- ===== src/Tests/Storing.antt =====
-- `MemoryStore` at concrete states.
use ha.Base.{◌≡◌, ◌≢◌, ◌⊎◌, ◌↔◌, true, false, some, none, [], ◌∷◌}
use ha.Exec.{ok, err}
use ha.Model.{ClusterState}
use ha.Store.Memory.{
  MemoryStore, put_cluster_if_epoch, verify_switch_operation, acquire_lock, acquire_switch_lock,
  release_lock, release_switch_lock,
}
use ha.Store.Memory.Laws.{
  put_cluster_if_epoch_cas, verify_switch_operation_iff, acquire_switch_lock_exclusive,
}
use ha.Tests.Cluster.{two_nodes, auth, task}

abbrev held : MemoryStore
held = record two_nodes.world.store {
  locked = true;
  operation = some auth;
  tasks = ("switch-7", task) ∷ [];
}

abbrev next : ClusterState
next = record held.cluster { primary = "b"; epoch = 5 }

put_cluster_if_epoch_cas_example :
    ((held.cluster.epoch ≡ 4)
      × (put_cluster_if_epoch 4 next held ≡ (ok tt, record held { cluster = next })))
    ⊎ ((held.cluster.epoch ≢ 4)
        × (put_cluster_if_epoch 4 next held ≡ (err "cluster epoch changed", held)))
put_cluster_if_epoch_cas_example = put_cluster_if_epoch_cas 4 next held

verify_switch_operation_iff_example : (verify_switch_operation auth held ≡ (ok tt, held)) ↔ (
    (held.operation ≡ some auth)
    × ((held.cluster.epoch ≡ auth.from_epoch) ⊎ (held.cluster.epoch ≡ auth.to_epoch)))
verify_switch_operation_iff_example = verify_switch_operation_iff auth held

acquire_switch_lock_exclusive_example :
    ((held.locked ≡ true)
      × (acquire_lock "k" 1 held ≡ (err "switch lock is held", held))
      × (acquire_switch_lock "k" 1 auth held ≡ (err "switch lock is held", held)))
    ⊎ ((held.locked ≡ false)
        × (acquire_switch_lock "k" 1 auth held ≡ (
          ok (release_switch_lock release_lock),
          record held { locked = true; operation = some auth },
        ))
        × ((t : MemoryStore)
            → release_switch_lock release_lock t ≡ record t { locked = false; operation = none }))
acquire_switch_lock_exclusive_example = acquire_switch_lock_exclusive "k" 1 auth held
