-- ===== src/Agent/Client/Calls.antt =====
-- The outcomes of the calls of the agent's client (internal/agent/client.go).
use ha.Base.{String, ℕ, ◌≤◌, ◌<◌, ◌≡◌, ◌⊎◌, inl, inr, refl, ap, false, arith, Bool-cases}
use ha.Exec.{Result, ok, err, continue-ok, err≢ok}
use ha.Model.{AgentNodeConfig, NodeStatus, role_unknown}
use ha.Agent.Client.{
  Request, Http, is_success, outcome, do_request, get_request, post_request, get, post, status_of,
  status,
}

module _ {W Stream : Type 0} (http : Http W Stream) (node : AgentNodeConfig) where
  -- A request was sent, and its answer had a code from 200 to 299 and a body that was read as `a`.
  pub record Answered {A : Type 0} (request : Request) (read : Stream → Result A) (a : A) (w w' : W)
      : Type 0 where
    pub built : http.new_request request ≡ ok tt
    pub code : ℕ
    pub body : Stream
    pub sent : (http.send request w).0 ≡ ok (code, body)
    pub left : (http.send request w).1 ≡ w'
    pub least : 200 ≤ code
    pub most : code < 300
    pub taken : read body ≡ ok a

  outcome-ok :
      {A : Type 0} (read : Stream → Result A) (code : ℕ) (body : Stream) (v w' : W) (a : A)
      → outcome http node read (code, body) v ≡ (ok a, w')
      → (200 ≤ code) × (code < 300) × (read body ≡ ok a) × (v ≡ w')
  unfolding outcome is_success
  outcome-ok read code body v w' a h = elim (Bool-cases (is_success code)) [
    | inl success ↦
        let done = rw success at h in
        (ground arith, ground arith, ap (λ o. o.0) done, ap (λ o. o.1) done)
    | inr failure ↦ absurd (err≢ok (ap (λ o. o.0) (rw failure at h)))
  ]

  sent-Answered :
      {A : Type 0} (request : Request) (read : Stream → Result A) (a : A) (w w' : W)
      → http.new_request request ≡ ok tt
      → do_request http node request read w ≡ (ok a, w')
      → Answered request read a w w'
  unfolding do_request
  sent-Answered request read a w w' built h =
      let ((code, body), sent, rest) = continue-ok _ _ _ h in
      let (least, most, got, same) = outcome-ok read code body _ w' a rest in
      record {
        built = built;
        code = code;
        body = body;
        sent = sent;
        left = same;
        least = least;
        most = most;
        taken = got;
      }

  -- A call of `get` succeeds only with an answer.
  pub get-Answered :
      {A : Type 0} (path : String) (read : Stream → Result A) (a : A) (w w' : W)
      → get http node path read w ≡ (ok a, w')
      → Answered (get_request http node path) read a w w'
  unfolding get
  get-Answered path read a w w' h =
      let (built, made, rest) = continue-ok _ _ _ h in
      sent-Answered (get_request http node path) read a w w' made rest

  -- A call of `post` succeeds only with an answer to the request that holds the marshalled body.
  pub post-Answered :
      (path : String) (marshalled : Result String) (w w' : W)
      → post http node path marshalled w ≡ (ok tt, w')
      → (body : String) × (marshalled ≡ ok body)
        × Answered (post_request http node path body) http.discard tt w w'
  unfolding post
  post-Answered path marshalled w w' h =
      let (body, written, rest) = continue-ok _ _ _ h in
      let (built, made, more) = continue-ok _ _ _ rest in
      (
        body,
        written,
        sent-Answered (post_request http node path body) http.discard tt w w' made more,
      )

  -- The status that stands for a node which gave none.
  pub record IsUnknown (s : NodeStatus) : Type 0 where
    pub node_id : s.node_id ≡ node.id
    pub address : s.address ≡ node.address
    pub reachable : s.reachable ≡ false
    pub healthy : s.healthy ≡ false
    pub read_only : s.read_only ≡ false
    pub role : s.role ≡ role_unknown

  -- A status as the agent sent it, under the id and address of the configuration.
  pub record IsRelayed (s : NodeStatus) (w : W) : Type 0 where
    pub reported : NodeStatus
    pub later : W
    pub answered :
        Answered
          (get_request http node "/api/v1/status")
          (http.decode_status 1048576)
          reported
          w
          later
    pub same : s ≡ record reported { node_id = node.id; address = node.address }

  relayed :
      (w w' : W) (r : Result NodeStatus)
      → get http node "/api/v1/status" (http.decode_status 1048576) w ≡ (r, w')
      → IsUnknown (status_of http node r w').0 ⊎ IsRelayed (status_of http node r w').0 w
  unfolding status_of
  relayed w w' (ok s) h = inr (record {
    reported = s;
    later = w';
    answered = get-Answered "/api/v1/status" _ s w w' h;
    same = refl;
  })
  relayed w w' (err e) h = inl (record {
    node_id = refl;
    address = refl;
    reachable = refl;
    healthy = refl;
    read_only = refl;
    role = refl;
  })

  -- `Status` gives what the agent reports in an answer of success, or else a status
  -- that is unknown, unhealthy, unreachable and not read-only; both under the configured id and address.
  pub status-Relayed :
      (w : W) → IsUnknown (status http node w).0 ⊎ IsRelayed (status http node w).0 w
  unfolding status
  status-Relayed w = relayed w _ _ refl
