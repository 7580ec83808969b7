-- ===== src/Controller.antt =====
-- The controller's state and what it works with (internal/ha/controller.go): the store, the agents of the
-- database nodes, the fence and route managers, the alert webhook and the clock. `W` is the state of all
-- that lies outside the process. Logging is left out.
pub mod Target
pub mod Switch
pub mod Switchover
pub mod Onward
pub mod Protocol
pub mod Probe
pub mod Leading
pub mod Setup
use ha.Base.{String, ◌<>◌, ℕ, Bool, Option, none, some, List, is_some, if◌then◌else◌}
use ha.Base.Int.{ℤ}
use ha.Base.Map.{Map}
use ha.Exec.{Result, ok, err, Exec}
use ha.Model.{Time, AgentNodeConfig, SwitchAuthorization, NodeStatus, ClusterState, SwitchTask}
use ha.Config.{Config}
use ha.Store.{Store}
use ha.Alert
use ha.Alert.{Payload}

-- `agent.Node`, for the client of each node id (internal/agent/client.go).
pub record Node (W : Type 0) : Type 0 where
  pub status : String → W → NodeStatus × W
  pub executed_gtid : String → Exec W String
  pub wait_for_gtid : String → SwitchAuthorization → String → ℤ → Exec W (Unit {0})
  pub demote : String → SwitchAuthorization → Exec W (Unit {0})
  pub promote : String → SwitchAuthorization → Exec W (Unit {0})
  pub reconfigure_replica : String → SwitchAuthorization → AgentNodeConfig → Exec W (Unit {0})

-- The Prometheus metrics that the controller sets.
pub data Metric : Type 0 where
  probe_total : String → Bool → Metric
  probe_healthy : String → Bool → Metric
  last_switch : Time → Metric

-- `fence` is `fence.Manager`, `set_primary` is `route.Manager`; `ctx_err` is `Err` of a context.
pub record Services (W : Type 0) : Type 0 where
  pub store : Store W
  pub node : Node W
  pub fence : String → Exec W (Unit {0})
  pub set_primary : String → Exec W (Unit {0})
  pub post : String → Payload → Exec W ℕ
  pub now : W → Time × W
  pub ctx_err : ℕ → W → Option String
  pub observe : Metric → W → W

-- `fence.NoopManager` and `route.NoopManager`, which `NewController` installs.
unfoldable pub noop_fence : {W : Type 0} → String → Exec W (Unit {0})
noop_fence primary w = (ok tt, w)

unfoldable pub noop_set_primary : {W : Type 0} → String → Exec W (Unit {0})
noop_set_primary primary w = (ok tt, w)

-- `clients` lists the keys of the client map; a context is a number.
pub record Controller : Type 0 where
  pub cfg : Config
  pub clients : List String
  pub configs : Map AgentNodeConfig
  pub statuses : Map NodeStatus
  pub last_task : Option SwitchTask
  pub tripping : Bool
  pub last_dry_run_primary : String
  pub leader : Bool
  pub alerted_nodes : Map Bool
  pub leader_ctx : Option ℕ

pub record State (W : Type 0) : Type 0 where
  pub ctl : Controller
  pub world : W

module _ {W : Type 0} where
  -- A call that reads and changes only the outside.
  abbrev pub outside : {A : Type 0} → Exec W A → Exec (State W) A
  outside m s = let (r, w) = m s.world in (r, record s { world = w })

  abbrev pub ask : {A : Type 0} → (W → A × W) → Exec (State W) A
  ask f s = let (a, w) = f s.world in (ok a, record s { world = w })

  abbrev pub set_ctl : (Controller → Controller) → Exec (State W) (Unit {0})
  set_ctl f s = (ok tt, record s { ctl = f s.ctl })

module _ {W : Type 0} (sv : Services W) where
  -- `c.alerts.Send`
  unfoldable pub send_alert : String → String → String → Exec (State W) (Unit {0})
  send_alert severity title message s =
      outside
        (Alert.send sv.post s.ctl.cfg.alert_webhook_url
          (record { severity = severity; title = title; message = message }))
        s

  -- `leaderBoundContext`: the guard of a request that only the leader may make.
  unfoldable pub leader_bound_context : Exec (State W) (Unit {0})
  leader_bound_context s = elim s.ctl.leader_ctx [
    | none ↦ (err "controller leadership lease is not active", s)
    | some ctx ↦
        if is_some (sv.ctx_err ctx s.world)
        then (err "controller leadership lease is not active", s)
        else (ok tt, s)
  ]
