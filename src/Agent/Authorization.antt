-- ===== src/Agent/Authorization.antt =====
-- Requests that the agent refuses before it calls the database (internal/agent/server.go).
use ha.Base.{◌≢◌, String, ℕ, ◌≡◌, Option, some, arith}
use ha.Exec.{Result, ok, err}
use ha.Model.{SwitchAuthorization, ReplicaRequest, OperationRequest, WaitGtidRequest}
use ha.Agent.{
  Server, Body, Response, authorize, start_replica, continue_replica, wait_gtid_handler,
  demote_handler, promote_handler, replica_handler,
}

-- A request that would act on the database.
pub data Request : Type 0 where
  wait_gtid : Result WaitGtidRequest → Request
  demote promote : Result OperationRequest → Request
  replica : Result ReplicaRequest → Request

-- The authorization of a request whose body was decoded; the error of `decode` otherwise.
abbrev pub claimed : Request → Result SwitchAuthorization
claimed (Request.wait_gtid (ok r)) = ok r.authorization
claimed (Request.wait_gtid (err e)) = err e
claimed (Request.demote (ok r)) = ok r.authorization
claimed (Request.demote (err e)) = err e
claimed (Request.promote (ok r)) = ok r.authorization
claimed (Request.promote (err e)) = err e
claimed (Request.replica (ok r)) = ok r.authorization
claimed (Request.replica (err e)) = err e

abbrev pub refusal : ℕ → String → Response
refusal code e = record { code = code; body = Body.error e }

module _ {W : Type 0} (server : Server W) (fuel : ℕ) where
  -- The route of a request; only `replica` can run out of fuel.
  unfoldable pub handle : Request → W → Option Response × W
  handle (Request.wait_gtid b) w = let (r, w') = wait_gtid_handler server b w in (some r, w')
  handle (Request.demote b) w = let (r, w') = demote_handler server b w in (some r, w')
  handle (Request.promote b) w = let (r, w') = promote_handler server b w in (some r, w')
  handle (Request.replica b) w = replica_handler server fuel b w

  -- A request whose body was not decoded is answered with 400 and nothing is called. One without an
  -- operation id is answered with 403 and nothing is called. One that the store does not verify is answered
  -- with 403 and the store's error, and nothing but the verification was called.
  pub handle_unauthorized :
      (request : Request) (w : W)
      → ((e : String) → claimed request ≡ err e → handle request w ≡ (some (refusal 400 e), w))
        × ((auth : SwitchAuthorization)
            → claimed request ≡ ok auth
            → auth.operation_id ≡ ""
            → handle request w ≡ (some (refusal 403 "operation ID is required"), w))
        × ((auth : SwitchAuthorization) (e : String) (w' : W)
            → claimed request ≡ ok auth
            → auth.operation_id ≢ ""
            → server.verify auth w ≡ (err e, w')
            → handle request w ≡ (some (refusal 403 e), w'))
  unfolding handle authorize start_replica continue_replica wait_gtid_handler demote_handler
      promote_handler replica_handler
  handle_unauthorized (Request.wait_gtid (ok r)) w =
      (λ e h. ground arith, λ auth h z. ground arith, λ auth e w1 h n v. ground arith)
  handle_unauthorized (Request.wait_gtid (err x)) w =
      (λ e h. ground arith, λ auth h z. ground arith, λ auth e w1 h n v. ground arith)
  handle_unauthorized (Request.demote (ok r)) w =
      (λ e h. ground arith, λ auth h z. ground arith, λ auth e w1 h n v. ground arith)
  handle_unauthorized (Request.demote (err x)) w =
      (λ e h. ground arith, λ auth h z. ground arith, λ auth e w1 h n v. ground arith)
  handle_unauthorized (Request.promote (ok r)) w =
      (λ e h. ground arith, λ auth h z. ground arith, λ auth e w1 h n v. ground arith)
  handle_unauthorized (Request.promote (err x)) w =
      (λ e h. ground arith, λ auth h z. ground arith, λ auth e w1 h n v. ground arith)
  handle_unauthorized (Request.replica (ok r)) w =
      (λ e h. ground arith, λ auth h z. ground arith, λ auth e w1 h n v. ground arith)
  handle_unauthorized (Request.replica (err x)) w =
      (λ e h. ground arith, λ auth h z. ground arith, λ auth e w1 h n v. ground arith)
