-- ===== src/Stack/Wire.antt =====
-- What the calls of the controller's client (internal/agent/client.go) do to the nodes, over HTTP to an agent
-- (internal/agent/server.go).
use ha.Base.{arith, String, ℕ, ◌≡◌, ◌≢◌, ◌⊎◌, inl, inr, refl, ap, Bool, true, false, Bool-cases}
use ha.Base.Int.{ℤ}
use ha.Exec.{Result, ok, err}
use ha.Model.{
  AgentNodeConfig, SwitchAuthorization, OperationRequest, WaitGtidRequest, ReplicaRequest,
  NodeStatus,
}
use ha.Controller.Protocol.{confirms_read_only}
use ha.Agent.{
  Server, Response, Body, status_handler, gtid_handler, wait_gtid_handler, demote_handler,
  promote_handler, replica_handler,
}
use ha.Agent.Client.{
  get_request, post_request, get, status, status_of, executed_gtid, wait_for_gtid, demote, promote,
  reconfigure_replica,
}
use ha.Agent.Client.Calls.{get-Answered}
use ha.Stack.{Site}
use ha.Stack.Writers.{
  Shrinks, Quiet, Documented, Neutral, agent, status_handler-Quiet, gtid_handler-Quiet,
  wait_gtid_handler-Quiet, demote_handler-Quiet, replica_handler-Quiet, promote_handler-Elsewhere,
  status_handler-Off,
}
use ha.Stack.Sending.{get-Sends, post-Sends, status-Sends}

node_inj : {a b : NodeStatus} → Body.node a ≡ Body.node b → a ≡ b
node_inj h = cc

module _ {W Stream : Type 0} (writable : W → String → Bool) (site : Site W Stream) where
  -- Between the two states of a call the handler may have run once; nothing else makes a node writable.
  abbrev pub Served : {A : Type 0} → (W → A × W) → W → W → Type 0
  Served handler w w' =
      Shrinks writable w w' ⊎ ((v : W) × Shrinks writable w v × Shrinks writable (handler v).1 w')

  abbrev server : Server W
  server = agent writable site.config site.db site.store site.wake

  -- HTTP between a client and an agent: a request that is sent runs at most the handler of its path, once and on
  -- the request that was marshalled, and an answer that arrives is the one that the handler gave.
  pub record Wire : Type 0 where
    pub now : Quiet writable site.http.now
    pub status :
        (w : W)
        → Served
            (status_handler server)
            w
            (site.http.send (get_request site.http site.node "/api/v1/status") w).1
    pub answer :
        (w : W) (code : ℕ) (body : Stream) (s : NodeStatus)
        → (site.http.send (get_request site.http site.node "/api/v1/status") w).0 ≡ ok (code, body)
        → site.http.decode_status 1048576 body ≡ ok s
        → (v : W) × ((status_handler server v).0 ≡ record { code = code; body = Body.node s })
          × Shrinks writable
              (status_handler server v).1
              (site.http.send (get_request site.http site.node "/api/v1/status") w).1
    pub gtid :
        (w : W)
        → Served
            (gtid_handler server)
            w
            (site.http.send (get_request site.http site.node "/api/v1/gtid") w).1
    pub wait :
        (request : WaitGtidRequest) (text : String) (w : W)
        → site.http.marshal_wait request ≡ ok text
        → Served
            (wait_gtid_handler server (ok request))
            w
            (site.http.send (post_request site.http site.node "/api/v1/wait-gtid" text) w).1
    pub demote :
        (request : OperationRequest) (text : String) (w : W)
        → site.http.marshal_operation request ≡ ok text
        → Served
            (demote_handler server (ok request))
            w
            (site.http.send (post_request site.http site.node "/api/v1/demote" text) w).1
    pub promote :
        (request : OperationRequest) (text : String) (w : W)
        → site.http.marshal_operation request ≡ ok text
        → Served
            (promote_handler server (ok request))
            w
            (site.http.send (post_request site.http site.node "/api/v1/promote" text) w).1
    pub replica :
        (request : ReplicaRequest) (text : String) (w : W)
        → site.http.marshal_replica request ≡ ok text
        → (fuel : ℕ) × Served
            (replica_handler server fuel (ok request))
            w
            (site.http.send (post_request site.http site.node "/api/v1/replica" text) w).1

  served-Quiet :
      {A : Type 0} (handler : W → A × W) {w w' : W}
      → Quiet writable handler
      → Served handler w w'
      → Shrinks writable w w'
  served-Quiet handler quiet (inl same) = same
  served-Quiet handler quiet (inr (v, before, after)) = λ j h. before j (quiet v j (after j h))

  -- A node whose database is documented, and whose agent's other calls and wire do their part.
  pub record IsSound : Type 0 where
    pub documented : Documented writable site.config.id site.db
    pub neutral : Neutral writable site.config site.db site.store site.wake
    pub wire : Wire

  module _ (sound : IsSound) where
    abbrev Before : String → W → W → Type 0
    Before j w v = writable v j ≡ true → writable w j ≡ true

    pub status-Quiet : Quiet writable (status site.http site.node)
    status-Quiet w j =
        status-Sends site.http site.node (Before j w) w (λ v h e. h (sound.wire.now v j e)) (λ e. e)
          (served-Quiet (status_handler server)
            (status_handler-Quiet writable site.config site.db site.store site.wake sound.documented
              sound.neutral)
            (sound.wire.status w) j)

    pub executed_gtid-Quiet : Quiet writable (executed_gtid site.http site.node)
    unfolding executed_gtid
    executed_gtid-Quiet w j =
        get-Sends site.http site.node (Before j w) "/api/v1/gtid" (site.http.decode_gtid 1048576) w
          (λ e. e)
          (served-Quiet (gtid_handler server)
            (gtid_handler-Quiet writable site.config site.db site.store site.wake sound.documented
              sound.neutral)
            (sound.wire.gtid w) j)

    pub wait_for_gtid-Quiet :
        (auth : SwitchAuthorization) (set : String) (timeout : ℤ)
        → Quiet writable (wait_for_gtid site.http site.node auth set timeout)
    unfolding wait_for_gtid
    wait_for_gtid-Quiet auth set timeout w j =
        post-Sends site.http site.node (Before j w) "/api/v1/wait-gtid" _ w (λ e. e)
          λ text written.
            served-Quiet (wait_gtid_handler server _)
              (wait_gtid_handler-Quiet writable site.config site.db site.store site.wake
                sound.documented sound.neutral _)
              (sound.wire.wait _ text w written) j

    pub demote-Quiet :
        (auth : SwitchAuthorization) → Quiet writable (demote site.http site.node auth)
    unfolding demote
    demote-Quiet auth w j =
        post-Sends site.http site.node (Before j w) "/api/v1/demote" _ w (λ e. e)
          λ text written.
            served-Quiet (demote_handler server _)
              (demote_handler-Quiet writable site.config site.db site.store site.wake
                sound.documented sound.neutral _)
              (sound.wire.demote _ text w written) j

    pub reconfigure_replica-Quiet :
        (auth : SwitchAuthorization) (source : AgentNodeConfig)
        → Quiet writable (reconfigure_replica site.http site.node auth source)
    unfolding reconfigure_replica
    reconfigure_replica-Quiet auth source w j =
        post-Sends site.http site.node (Before j w) "/api/v1/replica" _ w (λ e. e)
          λ text written.
            let (fuel, served) = sound.wire.replica _ text w written in
            served-Quiet (replica_handler server fuel _)
              (replica_handler-Quiet writable site.config site.db site.store site.wake
                sound.documented sound.neutral fuel _)
              served j

    -- Only the node of the agent can become writable by a call of `Promote`.
    pub promote-Elsewhere :
        (auth : SwitchAuthorization) (w : W) (j : String)
        → writable (promote site.http site.node auth w).1 j ≡ true
        → j ≢ site.config.id
        → writable w j ≡ true
    unfolding promote
    promote-Elsewhere auth w j e other =
        post-Sends site.http site.node (Before j w) "/api/v1/promote" _ w (λ f. f)
          (λ text written. elsewhere _ (sound.wire.promote _ text w written)) e
      where
        elsewhere :
            (request : OperationRequest) {w' : W}
            → Served (promote_handler server (ok request)) w w'
            → Before j w w'
        elsewhere request (inl same) f = same j f
        elsewhere request (inr (v, before, after)) f = before j (
            promote_handler-Elsewhere writable site.config site.db site.store site.wake
              sound.documented sound.neutral (ok request) v j (after j f) other)

    off_of :
        (w w' : W) (r : Result NodeStatus)
        → get site.http site.node "/api/v1/status" (site.http.decode_status 1048576) w ≡ (r, w')
        → confirms_read_only (status_of site.http site.node r w').0 ≡ true
        → writable (status_of site.http site.node r w').1 site.config.id ≡ false
    unfolding status_of status_handler
    off_of w w' (ok s) h confirmed =
        let a =
          get-Answered site.http site.node "/api/v1/status" (site.http.decode_status 1048576) s w w'
            h in
        let (v, answered, after) = sound.wire.answer w a.code a.body s a.sent a.taken in
        let reports : (server.db.status v).0 ≡ s =
          node_inj (ap (λ (x : Response). x.body) answered) in
        let then_off =
          status_handler-Off writable site.config site.db site.store site.wake sound.documented
            sound.neutral v (rw reports confirmed) in
        elim (Bool-cases (writable w' site.config.id)) [
          | inl on ↦ absurd (let was = after site.config.id (rw a.left on) in cc)
          | inr off ↦ off
        ]
    off_of w w' (err e) h confirmed = absurd (ground (arith, confirmed))

    -- A status that confirms to the controller that a node refuses writes is true when the call returns.
    pub status-Off :
        (w : W)
        → confirms_read_only (status site.http site.node w).0 ≡ true
        → writable (status site.http site.node w).1 site.config.id ≡ false
    unfolding status
    status-Off w h = off_of w _ _ refl h
