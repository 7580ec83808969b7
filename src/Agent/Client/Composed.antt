-- ===== src/Agent/Client/Composed.antt =====
-- The client of an agent (internal/agent/client.go) with the agent's handlers (internal/agent/server.go): what
-- happened at the node when a call of the controller succeeds.
use ha.Base.{String, ℕ, ◌<◌, ◌≡◌, ◌≢◌, true, arith}
use mathlib.Core.Path.{subst}
use ha.Exec.{ok}
use ha.Model.{AgentNodeConfig, SwitchAuthorization, OperationRequest, WaitGtidRequest}
use ha.Base.Int.{ℤ}
use ha.Agent.{
  Server, authorize, promote_handler, wait_gtid_handler, may_promote, is_writable_primary,
}
use ha.Agent.Promotion.{promote_ok_iff}
use ha.Agent.Client.{Http, post_request, promote, wait_for_gtid}
use ha.Agent.Client.Calls.{post-Answered}

module _ {W Stream : Type 0} (server : Server W) (http : Http W Stream) (node : AgentNodeConfig)
    (Later : W → W → Type 0) where
  -- HTTP and JSON between the two: an answer that arrives is the one that the agent's handler gave to the request
  -- that was marshalled, and the handler began after the request was sent and ended before the answer arrived.
  pub record Delivers : Type 0 where
    pub promote :
        (request : OperationRequest) (text : String) (w : W) (code : ℕ) (body : Stream)
        → http.marshal_operation request ≡ ok text
        → (http.send (post_request http node "/api/v1/promote" text) w).0 ≡ ok (code, body)
        → (v : W) × Later w v
          × Later
              (promote_handler server (ok request) v).1
              (http.send (post_request http node "/api/v1/promote" text) w).1
          × ((promote_handler server (ok request) v).0.code ≡ code)
    pub wait :
        (request : WaitGtidRequest) (text : String) (w : W) (code : ℕ) (body : Stream)
        → http.marshal_wait request ≡ ok text
        → (http.send (post_request http node "/api/v1/wait-gtid" text) w).0 ≡ ok (code, body)
        → (v : W) × Later w v
          × Later
              (wait_gtid_handler server (ok request) v).1
              (http.send (post_request http node "/api/v1/wait-gtid" text) w).1
          × ((wait_gtid_handler server (ok request) v).0.code ≡ code)

  -- A promotion that the agent answered with success is one that it made.
  promoted_code :
      (request : OperationRequest) (v : W)
      → (promote_handler server (ok request) v).0.code < 300
      → (promote_handler server (ok request) v).0.code ≡ 200
  unfolding promote_handler
  promoted_code request v h = ground arith

  waited_code :
      (request : WaitGtidRequest) (v : W)
      → (wait_gtid_handler server (ok request) v).0.code < 300
      → ((server.verify request.authorization v).0 ≡ ok tt)
        × ((server.db.wait_for_gtid request.gtid request.timeout_seconds
              (server.verify request.authorization v).1).0
            ≡ ok tt)
  unfolding wait_gtid_handler authorize
  waited_code request v h = ground arith

  module _ (d : Delivers) where
    -- Where HTTP and JSON deliver what they are given: a call of `Promote` with an operation id that succeeds
    -- means that during the call, from its beginning to its return, the agent's handler ran, in which it verified
    -- the operation, saw its node as a healthy caught-up replica, promoted it and then saw it as a writable
    -- primary.
    pub promote-Promoted :
        (auth : SwitchAuthorization) (w w' : W)
        → auth.operation_id ≢ ""
        → promote http node auth w ≡ (ok tt, w')
        → (v : W) × Later w v
          × Later (promote_handler server (ok (record { authorization = auth })) v).1 w'
          × ((server.verify auth v).0 ≡ ok tt)
          × (may_promote (server.db.status (server.verify auth v).1).0 ≡ true)
          × ((server.db.promote (server.db.status (server.verify auth v).1).1).0 ≡ ok tt)
          × (is_writable_primary
                (server.db.status
                  (server.db.promote (server.db.status (server.verify auth v).1).1).1).0
              ≡ true)
    unfolding promote
    promote-Promoted auth w w' named h =
        let (text, written, a) = post-Answered http node "/api/v1/promote" _ w w' h in
        let (v, began, ended, answered) =
          d.promote (record { authorization = auth }) text w a.code a.body written a.sent in
        let (verified, caught_up, done, writable) =
          (promote_ok_iff server (record { authorization = auth }) v named).0
            (promoted_code (record { authorization = auth }) v (omega (arith, answered, a.most))) in
        (
          v,
          began,
          subst (Later (promote_handler server (ok (record { authorization = auth })) v).1) a.left
              ended,
          verified,
          caught_up,
          done,
          writable,
        )

    -- Where HTTP and JSON deliver what they are given: a call of `WaitForGTID` that succeeds means that
    -- during the call the agent verified the operation and its database had applied the set in time.
    pub wait_for_gtid-Waited :
        (auth : SwitchAuthorization) (set : String) (timeout : ℤ) (w w' : W)
        → wait_for_gtid http node auth set timeout w ≡ (ok tt, w')
        → (v : W) × Later w v
          × ((server.verify auth v).0 ≡ ok tt)
          × ((server.db.wait_for_gtid set timeout (server.verify auth v).1).0 ≡ ok tt)
    unfolding wait_for_gtid
    wait_for_gtid-Waited auth set timeout w w' h =
        let (text, written, a) = post-Answered http node "/api/v1/wait-gtid" _ w w' h in
        let (v, began, ended, answered) =
          d.wait (record { authorization = auth; gtid = set; timeout_seconds = timeout }) text w
            a.code a.body written a.sent in
        let (verified, applied) =
          waited_code (record { authorization = auth; gtid = set; timeout_seconds = timeout }) v
            (omega (arith, answered, a.most)) in
        (v, began, verified, applied)
