-- ===== src/Agent/Promotion.antt =====
-- When the agent promotes its node (internal/agent/server.go).
use ha.Base.{◌≡◌, ◌≢◌, ◌↔◌, true, false, arith}
use ha.Exec.{ok}
use ha.Model.{OperationRequest}
use ha.Agent.{Server, may_promote, is_writable_primary, promote_handler}

module _ {W : Type 0} (server : Server W) (request : OperationRequest) (w : W) where
  abbrev verified : W
  verified = (server.verify request.authorization w).1

  abbrev checked : W
  checked = (server.db.status verified).1

  abbrev promoted : W
  promoted = (server.db.promote checked).1

  -- A promotion with an operation id is answered with 200 exactly when the operation is verified, the node was a healthy
  -- replica with both threads running and no lag, the promotion succeeded, and the node's status then was
  -- that of a writable primary.
  pub promote_ok_iff :
      request.authorization.operation_id ≢ ""
      → ((promote_handler server (ok request) w).0.code ≡ 200) ↔ (
          ((server.verify request.authorization w).0 ≡ ok tt)
          × (may_promote (server.db.status verified).0 ≡ true)
          × ((server.db.promote checked).0 ≡ ok tt)
          × (is_writable_primary (server.db.status promoted).0 ≡ true))
  unfolding promote_handler
  promote_ok_iff named = (λ h. ground arith, λ h. ground arith)

  -- A verified request to promote a node that is not a healthy replica without lag is refused with 409, after
  -- one look at the status and nothing else.
  pub promote_refused :
      request.authorization.operation_id ≢ ""
      → (server.verify request.authorization w).0 ≡ ok tt
      → may_promote (server.db.status verified).0 ≡ false
      → ((promote_handler server (ok request) w).0.code ≡ 409)
        × ((promote_handler server (ok request) w).1 ≡ checked)
  unfolding promote_handler
  promote_refused named good behind = ground arith
