-- ===== src/Api.antt =====
-- The controller's API (internal/api/server.go), from the decoded body of a request to the response. The
-- routes, the readers of bodies and the encoding of JSON are left out.
pub mod Codes
use ha.Base.{String, ℕ, Bool, false, Option, none, some, List, ◌==◌, if◌then◌else◌}
use ha.Base.Int.{pos}
use ha.Base.Map.{Map}
use ha.Exec.{Result, ok, err}
use ha.Model.{ClusterState, NodeStatus, SwitchTask}
use ha.Controller.{Services, State}
use ha.Controller.Leading
use ha.Controller.Switch.{Switched}
use ha.Controller.Switchover.{switch, set_auto_failover}

-- What a handler writes: the error alone, the error with a task, or what was asked for.
pub data Answer : Type 0 where
  error : String → Answer
  refused : Option SwitchTask → String → Answer
  healthy : Answer
  overview : ClusterState → Map NodeStatus → Option SwitchTask → Bool → Answer
  history : List SwitchTask → Answer
  accepted : SwitchTask → Answer
  enabled : Bool → Answer

-- A status code and a body.
abbrev pub Reply : Type 0
Reply = ℕ × Answer

-- `writeError`
unfoldable pub write_error : String → Reply
write_error e = (500, Answer.error e)

module _ {W : Type 0} (sv : Services W) (quote : String → String) where
  -- `GET /healthz`
  unfoldable pub health : State W → Reply × State W
  health s = ((200, Answer.healthy), s)

  unfoldable pub overview_of :
      Result ClusterState × Map NodeStatus × Option SwitchTask → Bool → Reply
  unfolding write_error
  overview_of (ok state, statuses, task) leads = (200, Answer.overview state statuses task leads)
  overview_of (err e, statuses, task) leads = write_error e

  -- `GET /api/v1/status`
  unfoldable pub status : State W → Reply × State W
  unfolding overview_of
  status s = let (found, s') = Leading.status sv quote s in (overview_of found s'.ctl.leader, s')

  unfoldable pub history_of : Result (List SwitchTask) → Reply
  unfolding write_error
  history_of (ok tasks) = (200, Answer.history tasks)
  history_of (err e) = write_error e

  -- `GET /api/v1/tasks`
  unfoldable pub tasks : State W → Reply × State W
  unfolding history_of
  tasks s = let (r, s') = Leading.tasks sv quote (pos 50) s in (history_of r, s')

  unfoldable pub ended : SwitchTask → Option String → Reply
  ended task (some e) = (409, Answer.refused (some task) e)
  ended task none = (202, Answer.accepted task)

  -- What `switchover` answers to what `Switch` returns.
  unfoldable pub switch_reply : Result Switched → Reply
  unfolding ended
  switch_reply (err e) = (409, Answer.refused none e)
  switch_reply (ok switched) = ended switched.task switched.error

  -- `POST /api/v1/switchover`: the target, or `err` where the body is missing or is not decoded.
  unfoldable pub switchover : Result String → State W → Reply × State W
  unfolding switch_reply
  switchover (err e) s = ((400, Answer.error "invalid JSON request"), s)
  switchover (ok target) s =
      let (r, s') = switch sv quote target false s in
      if target == "" then ((400, Answer.error "target is required"), s) else (switch_reply r, s')

  unfoldable pub enabled_reply : Bool → Result (Unit {0}) → Reply
  unfolding write_error
  enabled_reply value (ok done) = (200, Answer.enabled value)
  enabled_reply value (err e) = write_error e

  -- `POST /api/v1/auto-failover`
  unfoldable pub auto_failover : Result Bool → State W → Reply × State W
  unfolding enabled_reply
  auto_failover (err e) s = (write_error e, s)
  auto_failover (ok value) s =
      let (r, s') = set_auto_failover sv value s in (enabled_reply value r, s')
