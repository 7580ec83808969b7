-- ===== src/Programs.antt =====
-- The start of the controller (cmd/controller/main.go), up to the signals and the HTTP server; a call of
-- `os.Exit` is an error.
pub mod Started
pub mod MysqlAgent
pub mod AlertReceiver
use ha.Base.{String, Bool, true, false, List, if◌then◌else◌}
use ha.Exec.{Result, ok, err, Exec, pure, attempt, ◌>>=◌}
use ha.Config.{Config}
use ha.Config.Load.{Environment, load}
use ha.Store.Memory.{MemoryStore, new_memory_store}
use ha.Store.Etcd.{Client, Formats, EtcdStore}
use ha.Store.Etcd.Open.{new_etcd_store}
use ha.Agent.Client.{Tls}
use ha.Controller.{Controller}
use ha.Controller.Setup.{new_controller}

-- The store that a controller works with.
pub data Backing (W : Type 0) : Type 0 where
  persistent : EtcdStore W → Backing W
  in_memory : MemoryStore → Backing W

-- What is done where etcd is not reachable.
unfoldable pub choose_store : {W : Type 0} → Config → Result (EtcdStore W) → Result (Backing W)
unfolding new_memory_store
choose_store cfg (ok store) = ok (persistent store)
choose_store cfg (err e) =
    if cfg.require_etcd then err e else ok (in_memory (new_memory_store cfg.cluster_name))

module _ {W : Type 0} (environment : Environment) (tls : Tls) (quote : String → String)
    (client : Client W) (formats : Formats) (close : W → W)
    (dial : List String → Exec W (Unit {0})) where
  unfoldable pub start_controller : Exec W (Backing W × Controller)
  unfolding load new_etcd_store choose_store new_controller
  start_controller = do
    cfg ← (λ w. (load environment, w))
    opened ← attempt (new_etcd_store client formats close dial cfg.etcd_endpoints cfg.cluster_name)
    backing ← (λ w. (choose_store cfg opened, w))
    controller ← new_controller tls quote cfg
    pure (backing, controller)
