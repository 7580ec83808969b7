-- ===== src/Agent/Keeps.antt =====
-- What the agent's handlers (internal/agent/server.go) leave as it was, given that of what they call.
use ha.Base.{String, ℕ, zero, suc, Bool-cases, inl, inr, ◌==◌, Option-cases}
use ha.Base.Int.{ℤ}
use ha.Exec.{Result}
use ha.Exec.Keeps.{Keeps}
use ha.Model.{
  AgentNodeConfig, SwitchAuthorization, OperationRequest, WaitGtidRequest, ReplicaRequest,
}
use ha.Agent.{
  ◌>>◌, NodeStatus, Body, reply, proceed, ◌>>=◌, or_reply, expect, observe, decoded, may_promote,
  is_writable_primary, Progress, next, replied, Handler, Response, Server, authorize,
  status_handler, gtid_handler, wait_gtid_handler, demote_handler, promote_handler, await_replica,
  on_wakeup, is_following, start_replica, continue_replica, replica_handler,
}

module _ {W : Type 0} (server : Server W) (P : W → Type 0) where
  -- `P` survives what every handler may call.
  pub record Common : Type 0 where
    pub status : Keeps P server.db.status
    pub verify : (auth : SwitchAuthorization) → Keeps P (server.verify auth)
    pub wake : Keeps P server.wake

  proceed-Keeps :
      {A B : Type 0} (p : Progress A) (f : A → Handler W B) (w : W)
      → P w
      → ((a : A) → Keeps P (f a))
      → P (proceed p f w).1
  proceed-Keeps (next a) f w h k = k a w h
  proceed-Keeps (replied r) f w h k = h

  -- A handler, and then the rest.
  then-Keeps :
      {A B : Type 0} (m : Handler W A) (f : A → Handler W B)
      → Keeps P m
      → ((a : A) → Keeps P (f a))
      → Keeps P (m >>= f)
  then-Keeps m f k ks w h = proceed-Keeps (m w).0 f (m w).1 (k w h) ks

  authorize-Keeps : Common → (auth : SwitchAuthorization) → Keeps P (authorize server auth)
  unfolding authorize
  authorize-Keeps c auth w h = elim (Bool-cases (auth.operation_id == "")) [
    | inl unnamed ↦ rw unnamed h
    | inr named ↦ rw named (c.verify auth w h)
  ]

  pub status_handler-Keeps : Common → Keeps P (status_handler server)
  unfolding status_handler
  status_handler-Keeps c = c.status

  pub gtid_handler-Keeps : Keeps P server.db.executed_gtid → Keeps P (gtid_handler server)
  unfolding gtid_handler
  gtid_handler-Keeps k = then-Keeps (or_reply 503 server.db.executed_gtid) _ k λ set w h. h

  pub wait_gtid_handler-Keeps :
      Common
      → ((set : String) (n : ℤ) → Keeps P (server.db.wait_for_gtid set n))
      → (body : Result WaitGtidRequest) → Keeps P (wait_gtid_handler server body)
  unfolding wait_gtid_handler
  wait_gtid_handler-Keeps c k body =
      then-Keeps (or_reply 400 (decoded body)) _ (λ w h. h)
        λ request.
          then-Keeps (or_reply 403 (authorize server request.authorization)) _
            (authorize-Keeps c request.authorization)
            λ _.
              then-Keeps (expect _ 400 _) _ (λ w h. h)
                λ _.
                  then-Keeps
                    (or_reply 409 (server.db.wait_for_gtid request.gtid request.timeout_seconds)) _
                    (k request.gtid request.timeout_seconds) λ _ w h. h

  pub demote_handler-Keeps :
      Common
      → Keeps P server.db.demote
      → (body : Result OperationRequest) → Keeps P (demote_handler server body)
  unfolding demote_handler
  demote_handler-Keeps c k body =
      then-Keeps (or_reply 400 (decoded body)) _ (λ w h. h)
        λ request.
          then-Keeps (or_reply 403 (authorize server request.authorization)) _
            (authorize-Keeps c request.authorization)
            λ _. then-Keeps (or_reply 409 server.db.demote) _ k λ _ w h. h

  pub promote_handler-Keeps :
      Common
      → Keeps P server.db.promote
      → (body : Result OperationRequest) → Keeps P (promote_handler server body)
  unfolding promote_handler
  promote_handler-Keeps c k body =
      let done : Handler W Response = reply 200 (Body.status "primary") in
      let checked : NodeStatus → Handler W Response = λ after.
        expect (is_writable_primary after) 409 "promoted node did not become writable" >> done in
      let promoted : Handler W Response =
        or_reply 409 server.db.promote >> (observe server.db.status >>= checked) in
      let looked : NodeStatus → Handler W Response = λ before.
        expect (may_promote before) 409
          "agent refuses promotion: node is not a healthy caught-up replica"
        >> promoted in
      then-Keeps (or_reply 400 (decoded body)) _ (λ w h. h)
        λ request.
          then-Keeps (or_reply 403 (authorize server request.authorization))
            (λ _. observe server.db.status >>= looked) (authorize-Keeps c request.authorization)
            λ _. then-Keeps (observe server.db.status) looked c.status λ before.
              then-Keeps
                (expect (may_promote before) 409
                  "agent refuses promotion: node is not a healthy caught-up replica")
                (λ _. promoted) (λ w h. h)
                λ _.
                  then-Keeps (or_reply 409 server.db.promote)
                    (λ _. observe server.db.status >>= checked) k
                    λ _. then-Keeps (observe server.db.status) checked c.status λ after.
                      then-Keeps
                        (expect (is_writable_primary after) 409
                          "promoted node did not become writable")
                        (λ _. done) (λ w h. h) λ _ w h. h

  await_replica-Keeps : Common → (fuel : ℕ) → Keeps P (await_replica server fuel)
  unfolding await_replica
  await_replica-Keeps c zero w h = h
  await_replica-Keeps c (suc fuel) w h =
      let (s, w1) = server.db.status w in
      let (woken, w2) = server.wake w1 in
      let h1 : P w1 = c.status w h in
      let h2 : P w2 = c.wake w1 h1 in
      elim (Bool-cases (is_following s)) [
        | inl following ↦ rw following h1
        | inr other ↦ elim (Option-cases (on_wakeup server woken s)) [
          | inl again ↦ rw (other, again) (await_replica-Keeps c fuel w2 h2)
          | inr (r, e) ↦ rw (other, e) h2
        ]
      ]

  continue_replica-Keeps :
      Common → (fuel : ℕ) (p : Progress (Unit {0})) → Keeps P (continue_replica server fuel p)
  unfolding continue_replica
  continue_replica-Keeps c fuel (next done) w h = await_replica-Keeps c fuel w h
  continue_replica-Keeps c fuel (replied r) w h = h

  pub replica_handler-Keeps :
      Common
      → ((source : AgentNodeConfig) → Keeps P (server.db.reconfigure_replica source))
      → (fuel : ℕ) (body : Result ReplicaRequest) → Keeps P (replica_handler server fuel body)
  unfolding replica_handler start_replica
  replica_handler-Keeps c k fuel body w h =
      continue_replica-Keeps c fuel (start_replica server body w).0 _ (
        then-Keeps (or_reply 400 (decoded body)) _ (λ w h. h)
          (λ request.
            then-Keeps (or_reply 403 (authorize server request.authorization)) _
              (authorize-Keeps c request.authorization)
              λ _. then-Keeps (expect _ 400 _) _ (λ w h. h) λ _. k request.source)
          w h)
