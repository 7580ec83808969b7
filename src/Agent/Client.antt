-- ===== src/Agent/Client.antt =====
-- The controller's client of an agent (internal/agent/client.go). HTTP, TLS, the readers of response bodies
-- and JSON are parameters; a context only decides whether a call fails.
pub mod Calls
pub mod Composed
use Prim.Native.Char.{code}
use text.Mathlib.Text
use ha.Base.{
  Option, String, ◌<>◌, ℕ, Bool, true, false, not, ◌&&◌, ◌||◌, eqb, leb, ltb, if◌then◌else◌, ◌==◌,
}
use ha.Base.Decimal.{show_ℕ}
use ha.Base.Int.{ℤ, pos}
use ha.Base.Strings.{trim_space, is_empty}
use ha.Exec.{Result, ok, err, Exec, pure, fail, require, wrap, ◌>>=◌, ◌>>◌}
use ha.Model.{
  Time, AgentNodeConfig, SwitchAuthorization, OperationRequest, WaitGtidRequest, ReplicaRequest,
  NodeStatus, role_unknown,
}
use ha.Controller.{Node}

-- `http.Request`, as far as the client sets it; a `POST` says that its body is JSON.
pub record Request : Type 0 where
  pub method : String
  pub url : String
  pub body : String

-- What the client calls of `net/http`, `io` and `encoding/json`. A response is its status code and the stream
-- of its body, of which the readers take at most a number of bytes.
pub record Http (W Stream : Type 0) : Type 0 where
  pub new_request : Request → Result (Unit {0})
  pub send : Request → Exec W (ℕ × Stream)
  pub read_all : ℕ → Stream → String
  pub discard : Stream → Result (Unit {0})
  pub decode_status : ℕ → Stream → Result NodeStatus
  pub decode_gtid : ℕ → Stream → Result String
  pub marshal_operation : OperationRequest → Result String
  pub marshal_wait : WaitGtidRequest → Result String
  pub marshal_replica : ReplicaRequest → Result String
  pub now : W → Time × W

-- What `NewClient` calls of `os`, `crypto/x509` and `crypto/tls`.
pub record Tls : Type 0 where
  pub read_file : String → Result String
  pub has_certificates : String → Bool
  pub load_key_pair : String → String → Result (Unit {0})

-- `strings.TrimRight(s, "/")`; a slash is 47.
unfoldable pub trim_slashes : String → String
unfolding is_empty
trim_slashes String.[] = ""
trim_slashes (String.◌∷◌ c s) =
    let rest = trim_slashes s in if is_empty rest && eqb (code c) 47 then "" else String.◌∷◌ c rest

-- `NewClient`, up to the client's value: the state is not used.
unfoldable pub new_client :
    {W : Type 0} → Tls → AgentNodeConfig → String → String → String → Exec W AgentNodeConfig
new_client tls node ca_file cert_file key_file = do
  require (not (node.id == "" || node.agent_url == "")) "agent id and URL are required"
  require (Text.starts_with node.agent_url "https://")
      ("agent " <> (node.id <> " URL must use HTTPS"))
  ca ← wrap (λ e. "read agent CA: " <> e) (λ w. (tls.read_file ca_file, w))
  require (tls.has_certificates ca) "agent CA file contains no certificates"
  wrap (λ e. "load controller client certificate: " <> e)
      (λ w. (tls.load_key_pair cert_file key_file, w))
  pure node

-- A status code of success.
unfoldable pub is_success : ℕ → Bool
is_success status = not (ltb status 200 || leb 300 status)

module _ {W Stream : Type 0} (http : Http W Stream) (node : AgentNodeConfig) where
  -- What `do` makes of a response; `read` decodes or discards the body.
  unfoldable pub outcome : {A : Type 0} → (Stream → Result A) → ℕ × Stream → Exec W A
  unfolding is_success trim_space
  outcome read (status, body) w = if is_success status then (read body, w) else (
    err (
        "agent "
        <> (node.id
            <> (" returned HTTP "
                <> (show_ℕ status <> (": " <> trim_space (http.read_all 65536 body)))))),
    w,
  )

  -- `do`
  unfoldable pub do_request : {A : Type 0} → Request → (Stream → Result A) → Exec W A
  unfolding outcome
  do_request request read = http.send request >>= outcome read

  abbrev pub url_of : String → String
  url_of path = trim_slashes node.agent_url <> path

  unfoldable pub get_request : String → Request
  unfolding trim_slashes
  get_request path = record { method = "GET"; url = url_of path; body = "" }

  unfoldable pub post_request : String → String → Request
  unfolding trim_slashes
  post_request path body = record { method = "POST"; url = url_of path; body = body }

  -- `c.get`
  unfoldable pub get : {A : Type 0} → String → (Stream → Result A) → Exec W A
  unfolding do_request get_request
  get path read =
      (λ w. (http.new_request (get_request path), w)) >> do_request (get_request path) read

  -- `c.post` of a marshalled body, where nothing is to be decoded.
  unfoldable pub post : String → Result String → Exec W (Unit {0})
  unfolding do_request post_request
  post path marshalled = do
    body ← (λ w. (marshalled, w))
    (λ w. (http.new_request (post_request path body), w))
    do_request (post_request path body) http.discard

  -- What `Status` makes of an answer.
  unfoldable pub status_of : Result NodeStatus → W → NodeStatus × W
  status_of (ok s) w = (record s { node_id = node.id; address = node.address }, w)
  status_of (err e) w =
      let (checked_at, w') = http.now w in
      (
        record {
          node_id = node.id;
          address = node.address;
          reachable = false;
          healthy = false;
          role = role_unknown;
          server_uuid = "";
          read_only = false;
          super_read_only = false;
          replica = Option.none;
          error = e;
          checked_at = checked_at;
          failure_count = pos 0;
        },
        w',
      )

  unfoldable pub status : W → NodeStatus × W
  unfolding get status_of
  status w = let (r, w') = get "/api/v1/status" (http.decode_status 1048576) w in status_of r w'

  unfoldable pub executed_gtid : Exec W String
  unfolding get
  executed_gtid = get "/api/v1/gtid" (http.decode_gtid 1048576)

  unfoldable pub wait_for_gtid : SwitchAuthorization → String → ℤ → Exec W (Unit {0})
  unfolding post
  wait_for_gtid auth set timeout =
      post "/api/v1/wait-gtid"
        (http.marshal_wait (record { authorization = auth; gtid = set; timeout_seconds = timeout }))

  unfoldable pub demote : SwitchAuthorization → Exec W (Unit {0})
  unfolding post
  demote auth = post "/api/v1/demote" (http.marshal_operation (record { authorization = auth }))

  unfoldable pub promote : SwitchAuthorization → Exec W (Unit {0})
  unfolding post
  promote auth = post "/api/v1/promote" (http.marshal_operation (record { authorization = auth }))

  unfoldable pub reconfigure_replica : SwitchAuthorization → AgentNodeConfig → Exec W (Unit {0})
  unfolding post
  reconfigure_replica auth source =
      post "/api/v1/replica"
        (http.marshal_replica (record { authorization = auth; source = source }))

-- The clients of a controller, by the id of their node.
abbrev pub remote_nodes :
    {W Stream : Type 0} → (String → Http W Stream) → (String → AgentNodeConfig) → Node W
remote_nodes http node = record {
  status = λ id. status (http id) (node id);
  executed_gtid = λ id. executed_gtid (http id) (node id);
  wait_for_gtid = λ id. wait_for_gtid (http id) (node id);
  demote = λ id. demote (http id) (node id);
  promote = λ id. promote (http id) (node id);
  reconfigure_replica = λ id. reconfigure_replica (http id) (node id);
}
