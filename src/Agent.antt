-- ===== src/Agent.antt =====
-- The agent's HTTP server (internal/agent/server.go). The database client and the verifier of switch
-- operations are the source's interfaces; a request comes as the outcome of `decode`, which is `io` and
-- `json`. Time is the parameter `wake`: what the `select` of the waiting loop receives next.
pub mod Authorization
pub mod Promotion
pub mod Waiting
pub mod Keeps
pub mod Client
use ha.Base.{
  String, ◌<>◌, ℕ, zero, suc, Bool, true, false, not, ◌&&◌, ◌||◌, Option, none, some, ◌==◌,
  if◌then◌else◌,
}
use ha.Base.Int.{ℤ, pos, ltb_ℤ, eqb_ℤ}
use ha.Base.Strings.{trim_space}
use ha.Exec.{Result, ok, err, Exec}
use ha.Model.{
  AgentNodeConfig, SwitchAuthorization, ReplicaRequest, OperationRequest, WaitGtidRequest,
  ReplicaStatus, NodeStatus, role_primary, role_replica,
}

-- `MySQLOperator`
pub record Operator (W : Type 0) : Type 0 where
  pub status : W → NodeStatus × W
  pub executed_gtid : Exec W String
  pub wait_for_gtid : String → ℤ → Exec W (Unit {0})
  pub demote : Exec W (Unit {0})
  pub promote : Exec W (Unit {0})
  pub reconfigure_replica : AgentNodeConfig → Exec W (Unit {0})

-- What the `select` receives: the end of the request, of the deadline, or the next tick.
pub data Wakeup : Type 0 where
  request_done : String → Wakeup
  deadline tick : Wakeup

-- `Server`, with its clock.
pub record Server (W : Type 0) : Type 0 where
  pub node_id : String
  pub db : Operator W
  pub verify : SwitchAuthorization → Exec W (Unit {0})
  pub wake : W → Wakeup × W

-- The bodies that `writeJSON` and `writeError` write.
pub data Body : Type 0 where
  error status gtid : String → Body
  node : NodeStatus → Body

pub record Response : Type 0 where
  pub code : ℕ
  pub body : Body

-- `NewServer`; an interface that is nil is `none`.
unfoldable pub new_server :
    {W : Type 0}
    → String
    → Option (Operator W)
    → Option (SwitchAuthorization → Exec W (Unit {0}))
    → (W → Wakeup × W)
    → Result (Server W)
new_server node_id (some db) (some verify) wake =
    if node_id == ""
    then err "node ID, MySQL client and operation verifier are required"
    else ok (record { node_id = node_id; db = db; verify = verify; wake = wake })
new_server node_id none verify wake =
    err "node ID, MySQL client and operation verifier are required"
new_server node_id (some db) none wake =
    err "node ID, MySQL client and operation verifier are required"

-- A handler goes on with a value, or has replied.
pub data Progress (A : Type 0) : Type 0 where
  next : A → Progress A
  replied : Response → Progress A

abbrev pub Handler : Type 0 → Type 0 → Type 0
Handler W A = W → Progress A × W

module _ {W A B : Type 0} where
  abbrev proceed : Progress A → (A → Handler W B) → Handler W B
  proceed (next a) f w = f a w
  proceed (replied r) f w = (replied r, w)

  infixl 5 ◌>>=◌ ◌>>◌
  abbrev ◌>>=◌ : Handler W A → (A → Handler W B) → Handler W B
  ◌>>=◌ m f w = let (p, w') = m w in proceed p f w'

  abbrev ◌>>◌ : Handler W A → Handler W B → Handler W B
  m >> k = m >>= λ _. k

abbrev or_error : {A : Type 0} → ℕ → Result A → Progress A
or_error code (ok a) = next a
or_error code (err e) = replied (record { code = code; body = Body.error e })

module _ {W : Type 0} where
  -- `if err := call; err != nil { writeError(w, code, err); return }`
  abbrev or_reply : {A : Type 0} → ℕ → Exec W A → Handler W A
  or_reply code m w = let (r, w') = m w in (or_error code r, w')

  -- `if !b { writeError(w, code, e); return }`
  abbrev expect : Bool → ℕ → String → Handler W (Unit {0})
  expect b code e w =
      (if b then next tt else replied (record { code = code; body = Body.error e }), w)

  abbrev reply : ℕ → Body → Handler W Response
  reply code body w = (next (record { code = code; body = body }), w)

  abbrev observe : {A : Type 0} → (W → A × W) → Handler W A
  observe f w = let (a, w') = f w in (next a, w')

  abbrev decoded : {A : Type 0} → Result A → Exec W A
  decoded request w = (request, w)

-- The response of a handler that has come to its end.
abbrev response : Progress Response → Response
response (next r) = r
response (replied r) = r

abbrev serve : {W : Type 0} → Handler W Response → W → Response × W
serve h w = let (p, w') = h w in (response p, w')

-- A node that has caught up: `agent refuses promotion` otherwise.
unfoldable pub no_lag : Option ℤ → Bool
no_lag none = false
no_lag (some lag) = eqb_ℤ lag (pos 0)

unfoldable pub threads_running : Option ReplicaStatus → Bool
threads_running none = false
threads_running (some r) = r.io_thread_running && r.sql_thread_running

unfoldable pub replica_no_lag : Option ReplicaStatus → Bool
unfolding no_lag
replica_no_lag none = false
replica_no_lag (some r) = no_lag r.seconds_behind

unfoldable pub may_promote : NodeStatus → Bool
unfolding threads_running replica_no_lag
may_promote s =
    s.healthy && s.role == role_replica && threads_running s.replica && replica_no_lag s.replica

unfoldable pub is_writable_primary : NodeStatus → Bool
is_writable_primary s = s.healthy && s.role == role_primary

unfoldable pub is_following : NodeStatus → Bool
unfolding threads_running
is_following s = s.healthy && s.role == role_replica && threads_running s.replica

module _ {W : Type 0} (server : Server W) where
  unfoldable pub authorize : SwitchAuthorization → Exec W (Unit {0})
  authorize auth w =
      if auth.operation_id == "" then (err "operation ID is required", w) else server.verify auth w

  -- `GET /api/v1/status`
  unfoldable pub status_handler : W → Response × W
  status_handler w =
      let (s, w') = server.db.status w in (record { code = 200; body = Body.node s }, w')

  -- `GET /api/v1/gtid`
  unfoldable pub gtid_handler : W → Response × W
  gtid_handler = serve do set ← or_reply 503 server.db.executed_gtid; reply 200 (Body.gtid set)

  -- `POST /api/v1/wait-gtid`
  unfoldable pub wait_gtid_handler : Result WaitGtidRequest → W → Response × W
  unfolding authorize trim_space
  wait_gtid_handler body = serve do
    request ← or_reply 400 (decoded body)
    or_reply 403 (authorize request.authorization)
    expect
        (not (
          ltb_ℤ request.timeout_seconds (pos 1)
          || ltb_ℤ (pos 60) request.timeout_seconds
          || trim_space request.gtid == ""))
        400 "GTID and timeout from 1 to 60 seconds are required"
    or_reply 409 (server.db.wait_for_gtid request.gtid request.timeout_seconds)
    reply 200 (Body.status "caught_up")

  -- `POST /api/v1/demote`
  unfoldable pub demote_handler : Result OperationRequest → W → Response × W
  unfolding authorize
  demote_handler body = serve do
    request ← or_reply 400 (decoded body)
    or_reply 403 (authorize request.authorization)
    or_reply 409 server.db.demote
    reply 200 (Body.status "read_only")

  -- `POST /api/v1/promote`
  unfoldable pub promote_handler : Result OperationRequest → W → Response × W
  unfolding authorize
  promote_handler body = serve do
    request ← or_reply 400 (decoded body)
    or_reply 403 (authorize request.authorization)
    before ← observe server.db.status
    expect (may_promote before) 409
        "agent refuses promotion: node is not a healthy caught-up replica"
    or_reply 409 server.db.promote
    after ← observe server.db.status
    expect (is_writable_primary after) 409 "promoted node did not become writable"
    reply 200 (Body.status "primary")

  -- What the waiting loop replies where the node does not follow yet; `none` is to look again.
  unfoldable pub on_wakeup : Wakeup → NodeStatus → Option Response
  on_wakeup (request_done e) s = some (record { code = 408; body = Body.error e })
  on_wakeup deadline s = some (record {
    code = 409;
    body = Body.error ("replica reconfiguration did not become healthy: " <> s.error);
  })
  on_wakeup tick s = none

  -- The `for` loop of `replica`, on fuel: `none` means that the fuel ran out.
  unfoldable pub await_replica : ℕ → W → Option Response × W
  unfolding on_wakeup
  await_replica zero w = (none, w)
  await_replica (suc fuel) w =
      let (s, w1) = server.db.status w in
      let (woken, w2) = server.wake w1 in
      let again = await_replica fuel w2 in
      if is_following s
      then (some (record { code = 200; body = Body.status "replica" }), w1)
      else elim (on_wakeup woken s) [ some r ↦ (some r, w2) | none ↦ again ]

  -- `POST /api/v1/replica` up to the loop.
  unfoldable pub start_replica : Result ReplicaRequest → Handler W (Unit {0})
  unfolding authorize
  start_replica body = do
    request ← or_reply 400 (decoded body)
    or_reply 403 (authorize request.authorization)
    expect
        (not (
          request.source.id == ""
          || request.source.id == server.node_id
          || request.source.address == ""))
        400 "a different source node and address are required"
    or_reply 409 (server.db.reconfigure_replica request.source)

  unfoldable pub continue_replica : ℕ → Progress (Unit {0}) → W → Option Response × W
  continue_replica fuel (next done) w = await_replica fuel w
  continue_replica fuel (replied r) w = (some r, w)

  -- `POST /api/v1/replica`
  unfoldable pub replica_handler : ℕ → Result ReplicaRequest → W → Option Response × W
  unfolding start_replica continue_replica
  replica_handler fuel body w = let (p, w') = start_replica body w in continue_replica fuel p w'
