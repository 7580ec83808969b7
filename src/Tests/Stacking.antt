-- ===== src/Tests/Stacking.antt =====
-- Two MySQL servers with their agents, and a controller that reaches them by HTTP.
use Prim.Native.Char.{Char, code}
use ha.Base.{
  ◌<>◌, ◌∙◌, ==_iff, ◌||◌, ◌+◌, ap, [], ◌∷◌, Option, ◌&&◌, List, String, ℕ, ◌≡◌, refl, Bool, true,
  false, not, some, if◌then◌else◌, ◌==◌, str_dec, Bool-cases, inl, inr, arith,
}
use ha.Base.Int.{ℤ, eq_of_parts, eqb_ℤ, pos}
use ha.Exec.{ok_inj, err≢ok, Result, ok, err}
use ha.Model.{
  NodeStatus, MySqlNodeConfig, OperationRequest, WaitGtidRequest, same_authorization,
  same_authorization_iff, SwitchAuthorization,
}
use ha.Mysql.{Db}
use ha.Mysql.Keeps.{Restricts}
use ha.Mysql.Quoting.{Place}
use ha.Mysql.Skeleton.{skeleton, change_rest, change_skeleton}
use text.Mathlib.TextLemmas.{cons-append}
use ha.Agent.{
  Server, Wakeup, Response, Body, status_handler, gtid_handler, wait_gtid_handler, demote_handler,
  promote_handler,
}
use ha.Agent.Client.{Request, get_request, post_request, trim_slashes}
use ha.Controller.{State}
use ha.Controller.Switch.{unix_offset}
use ha.Controller.Switchover.{switch}
use ha.Controller.Switchover.SingleWriter.{OnlyWriter}
use ha.Stack.{Site, agent_of}
use ha.Stack.Writers.{Documented, Neutral}
use ha.Stack.Wire.{Wire, IsSound}
use ha.Stack.SingleWriter.{stack, stack_single_writer}
use ha.Tests.Cluster.{
  Sim, sim, sim_store, sim-Surroundings, set_writer, writable, cluster_of, two_nodes,
}
use ha.Tests.Switching.{quote, only_a}

-- The statements after which a server accepts writes.
abbrev allows_writes : String → Bool
allows_writes q = q == "SET GLOBAL super_read_only = OFF" || q == "SET GLOBAL read_only = OFF"

-- A server that accepts writes, or is a replica that has caught up.
abbrev executed : String → String → Sim → Sim
executed id query w =
    if allows_writes query
    then set_writer id true w
    else if query == "SET GLOBAL super_read_only = ON"
    then set_writer id false w
    else w

abbrev replica_row : List (String × Option String)
replica_row =
    ("Replica_IO_Running", some "Yes")
    ∷ ("Replica_SQL_Running", some "Yes")
    ∷ ("Seconds_Behind_Source", some "0")
    ∷ []

abbrev database : String → Db Sim
database id = record {
  ping = λ w. (ok tt, w);
  exec = λ query w. (ok tt, executed id query w);
  globals = λ w. (
    ok (record {
      server_uuid = id;
      read_only = not (w.writer id);
      super_read_only = not (w.writer id);
    }),
    w,
  );
  gtid_executed = λ w. (ok "g", w);
  wait_for_executed_gtid_set = λ set timeout w. (ok (some (pos 0)), w);
  query_row = λ query w. (ok (ok (some replica_row)), w);
  now = λ w. (w.time, w);
}

abbrev mysql_config : String → MySqlNodeConfig
mysql_config id = record {
  id = id;
  address = id;
  dsn = "";
  replication_user = "r";
  replication_pass = "p";
}

abbrev ticking : Sim → Wakeup × Sim
ticking w = (Wakeup.tick, w)

abbrev server : String → Server Sim
server id = agent_of (mysql_config id) (database id) sim_store ticking

-- The operation of the switch below; JSON knows no other.
abbrev operation : SwitchAuthorization
operation = record { operation_id = "switch-7"; from_epoch = 4; to_epoch = 5 }

abbrev known_operation : OperationRequest → Result String
known_operation request =
    if same_authorization request.authorization operation then ok "operation" else err "not known"

abbrev answered : Response × Sim → Result (ℕ × Body) × Sim
answered (r, w) = (ok (r.code, r.body), w)

abbrev routed : String → Request → Sim → Result (ℕ × Body) × Sim
routed id request w =
    if request.url == "/api/v1/status"
    then answered (status_handler (server id) w)
    else if request.url == "/api/v1/gtid"
    then answered (gtid_handler (server id) w)
    else if request.url == "/api/v1/demote"
    then answered (demote_handler (server id) (ok (record { authorization = operation })) w)
    else if request.url == "/api/v1/promote"
    then answered (promote_handler (server id) (ok (record { authorization = operation })) w)
    else if request.url == "/api/v1/wait-gtid"
    then answered (
        wait_gtid_handler (server id)
          (ok (record { authorization = operation; gtid = "g"; timeout_seconds = pos 30 })) w)
    else (err "not found", w)

abbrev known_wait : WaitGtidRequest → Result String
known_wait request =
    if same_authorization request.authorization operation
      && request.gtid == "g"
      && eqb_ℤ request.timeout_seconds (pos 30)
    then ok "wait"
    else err "not known"

abbrev decoded_status : Body → Result NodeStatus
decoded_status (Body.node s) = ok s
decoded_status (Body.error e) = err e
decoded_status (Body.status e) = err e
decoded_status (Body.gtid e) = err e

abbrev decoded_gtid : Body → Result String
decoded_gtid (Body.node s) = err "no GTID"
decoded_gtid (Body.error e) = err e
decoded_gtid (Body.status e) = err e
decoded_gtid (Body.gtid g) = ok g

abbrev site : String → Site Sim Body
site id = record {
  http = record {
    new_request = λ request. ok tt;
    send = routed id;
    read_all = λ limit body. "";
    discard = λ body. ok tt;
    decode_status = λ limit. decoded_status;
    decode_gtid = λ limit. decoded_gtid;
    marshal_operation = known_operation;
    marshal_wait = known_wait;
    marshal_replica = λ request. err "not known";
    now = λ w. (w.time, w);
  };
  node = record { id = id; address = id; agent_url = "" };
  config = mysql_config id;
  db = database id;
  store = sim_store;
  wake = ticking;
}

-- The code of the first character.
abbrev first_code : String → ℕ
first_code String.[] = 0
first_code (String.◌∷◌ c s) = code c

first_code-append : (c : Char) (s t : String) → first_code (String.◌∷◌ c s <> t) ≡ code c
first_code-append c s t = rw (cons-append c s t) refl

-- No statement with the skeleton of `CHANGE REPLICATION SOURCE` sets a flag.
changes_no_flag :
    (q flag : String) (port : ℤ)
    → first_code (skeleton Place.outside flag) ≡ 83
    → skeleton Place.outside q ≡ change_skeleton port
    → (q == flag) ≡ false
changes_no_flag q flag port starts changes = elim (Bool-cases (q == flag)) [
  | inl same ↦
      let e : first_code (skeleton Place.outside q) ≡ 83 =
        ap (λ t. first_code (skeleton Place.outside t)) ((==_iff q flag).0 same) ∙ starts in
      let k : first_code (skeleton Place.outside q) ≡ 67 =
        ap first_code changes
        ∙ first_code-append "C" "HANGE REPLICATION SOURCE TO SOURCE_HOST = " (change_rest port) in
      absurd (omega (arith, e, k))
  | inr other ↦ other
]

restricts_writes : (q : String) → Restricts q → allows_writes q ≡ false
unfolding str_dec skeleton
restricts_writes _ Restricts.stop = refl
restricts_writes _ Restricts.reset = refl
restricts_writes _ Restricts.start = refl
restricts_writes _ Restricts.super_read_only = refl
restricts_writes _ Restricts.read_only = refl
restricts_writes _ (Restricts.change q port changes) =
    let a = changes_no_flag q "SET GLOBAL super_read_only = OFF" port refl changes in
    let b = changes_no_flag q "SET GLOBAL read_only = OFF" port refl changes in rw (a, b) refl

quiet :
    (id q : String) (w : Sim) (j : String)
    → allows_writes q ≡ false
    → writable (executed id q w) j ≡ true
    → writable w j ≡ true
quiet id q w j h e = ground arith

documented : (id : String) → Documented writable id (database id)
documented id = record {
  ping = λ w j e. e;
  globals = λ w j e. e;
  gtid_executed = λ w j e. e;
  wait = λ set n w j e. e;
  query_row = λ q w j e. e;
  now = λ w j e. e;
  restricting = λ q restricts w j e. quiet id q w j (restricts_writes q restricts) e;
  elsewhere = λ q w j e other. ground arith;
  read_only = λ w g h on. ground arith;
}

neutral : (id : String) → Neutral writable (mysql_config id) (database id) sim_store ticking
neutral id = record { verify = λ auth w j e. e; wake_up = λ w j e. e }

knows_operation :
    (request : OperationRequest) (text : String)
    → known_operation request ≡ ok text
    → request ≡ record { authorization = operation }
knows_operation request text h =
    elim (Bool-cases (same_authorization request.authorization operation)) [
      | inl same ↦
          ap (λ (a : SwitchAuthorization). record { authorization = a })
            ((same_authorization_iff request.authorization operation).0 same)
      | inr other ↦ absurd (err≢ok (rw other at h))
    ]

knows_wait :
    (request : WaitGtidRequest) (text : String)
    → known_wait request ≡ ok text
    → request ≡ record { authorization = operation; gtid = "g"; timeout_seconds = pos 30 }
knows_wait request text h =
    let same : (same_authorization request.authorization operation ≡ true)
        × (request.gtid ≡ "g")
        × (eqb_ℤ request.timeout_seconds (pos 30) ≡ true) =
      ground (arith, h) in
    let who = (same_authorization_iff request.authorization operation).0 same.0 in
    let long = eq_of_parts request.timeout_seconds (pos 30) (ground (arith, same.2)) in
    λ i. record { authorization = who i; gtid = same.1 i; timeout_seconds = long i }

wire : (id : String) → Wire writable (site id)
unfolding get_request post_request trim_slashes str_dec status_handler
wire id = record {
  now = λ w j e. e;
  status = λ w. inr (w, λ j e. e, λ j e. e);
  answer = λ w code body s sent decoded.
      let same = ok_inj sent in
      let same_code = ap (λ o. o.0) same in
      let same_body = ap (λ o. o.1) same in
      (w, rw (← same_code, ← ok_inj (rw (← same_body) at decoded)) refl, λ j e. e);
  gtid = λ w. inr (w, λ j e. e, λ j e. e);
  wait = λ request text w h. inr (w, λ j e. e, λ j e. rw (knows_wait request text h) e);
  demote = λ request text w h. inr (w, λ j e. e, λ j e. rw (knows_operation request text h) e);
  promote = λ request text w h. inr (w, λ j e. e, λ j e. rw (knows_operation request text h) e);
  replica = λ request text w h. absurd (err≢ok h);
}

sound : (id : String) → IsSound writable (site id)
sound id = record { documented = documented id; neutral = neutral id; wire = wire id }

-- The wall clock stands at a Unix time of 7 ns, so that the operation is "switch-7".
abbrev stacked : State Sim
stacked = record two_nodes { world = record two_nodes.world { time = unix_offset + 7 } }

stack_single_writer_example :
    (p : String) × OnlyWriter
      (stack sim site)
      writable
      cluster_of
      p
      (switch (stack sim site) quote "b" false stacked).1.world
stack_single_writer_example =
    stack_single_writer sim site writable cluster_of (sim-Surroundings _) sound (λ id. refl) quote
      "b" false stacked only_a

abbrev outcome : Bool × Bool
outcome =
    let (r, s) = switch (stack sim site) quote "b" false stacked in
    (writable s.world "a", writable s.world "b")
