-- ===== src/Stack/Sending.antt =====
-- The calls of the controller's client (internal/agent/client.go) by the request that they send: a fact that
-- survives the sending survives the call.
use ha.Base.{String, ℕ, ◌≡◌, inl, inr, refl, Bool-cases}
use ha.Exec.{Result, ok, err, continue}
use ha.Exec.Keeps.{Keeps, continue-Keeps}
use ha.Model.{AgentNodeConfig, NodeStatus}
use ha.Agent.Client.{
  Http, Request, is_success, outcome, do_request, get_request, post_request, get, post, status,
  status_of,
}

module _ {W Stream : Type 0} (http : Http W Stream) (node : AgentNodeConfig) (P : W → Type 0) where
  outcome-Keeps :
      {A : Type 0} (read : Stream → Result A) (x : ℕ × Stream) → Keeps P (outcome http node read x)
  unfolding outcome
  outcome-Keeps read (code, body) w h = elim (Bool-cases (is_success code)) [
    | inl success ↦ rw success h
    | inr failure ↦ rw failure h
  ]

  sent-Keeps :
      {A : Type 0} (request : Request) (read : Stream → Result A) (w : W)
      → P (http.send request w).1
      → P (do_request http node request read w).1
  unfolding do_request
  sent-Keeps request read w h = continue-Keeps P (http.send request w).0 _ _ h (outcome-Keeps read)

  built-Keeps :
      {A : Type 0} (built : Result (Unit {0})) (request : Request) (read : Stream → Result A)
      (w : W)
      → P w
      → P (http.send request w).1
      → P (continue built (λ _. do_request http node request read) w).1
  unfolding continue
  built-Keeps (ok done) request read w h k = sent-Keeps request read w k
  built-Keeps (err e) request read w h k = h

  -- A call of `get` either sends its request, or does nothing.
  pub get-Sends :
      {A : Type 0} (path : String) (read : Stream → Result A) (w : W)
      → P w
      → P (http.send (get_request http node path) w).1
      → P (get http node path read w).1
  unfolding get
  get-Sends path read w h k =
      built-Keeps (http.new_request (get_request http node path)) (get_request http node path) read
        w h k

  -- A call of `post` sends its request with the marshalled body, or does nothing.
  pub post-Sends :
      (path : String) (marshalled : Result String) (w : W)
      → P w
      → ((text : String)
          → marshalled ≡ ok text
          → P (http.send (post_request http node path text) w).1)
      → P (post http node path marshalled w).1
  unfolding post continue
  post-Sends path (err e) w h k = h
  post-Sends path (ok text) w h k =
      built-Keeps (http.new_request (post_request http node path text))
        (post_request http node path text) http.discard w h (k text refl)

  status_of-Keeps : (r : Result NodeStatus) → Keeps P http.now → Keeps P (status_of http node r)
  unfolding status_of
  status_of-Keeps (ok s) now w h = h
  status_of-Keeps (err e) now w h = now w h

  pub status-Sends :
      (w : W)
      → Keeps P http.now
      → P w
      → P (http.send (get_request http node "/api/v1/status") w).1
      → P (status http node w).1
  unfolding status
  status-Sends w now h k =
      status_of-Keeps _ now _ (get-Sends "/api/v1/status" (http.decode_status 1048576) w h k)
