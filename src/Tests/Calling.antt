-- ===== src/Tests/Calling.antt =====
-- The client of an agent that serves a simulated node: the node accepts writes or follows.
use mathlib.Core.Path.{subst}
use ha.Base.{
  String, ℕ, ◌≡◌, refl, ap, ◌∙◌, Bool, true, false, ◌==◌, str_dec, if◌then◌else◌, Bool-cases, inl,
  inr,
}
use ha.Model.{
  SwitchAuthorization, same_authorization, same_authorization_iff, AgentNodeConfig,
  OperationRequest, NodeStatus,
}
use ha.Agent.Client.{
  trim_slashes, Http, post_request, get, post, do_request, outcome, is_success, promote,
}
use ha.Agent.{
  authorize, Response, no_lag, threads_running, replica_no_lag, Server, Wakeup, promote_handler,
  may_promote, is_writable_primary,
}
use ha.Exec.{ok_inj, err≢ok, Result, ok, err, continue}
use ha.Agent.Client.Composed.{Delivers, promote-Promoted}
use ha.Tests.Serving.{is_named}
use ha.Tests.Cluster.{node_status, auth}

abbrev served : Server Bool
served = record {
  node_id = "b";
  db = record {
    status = λ w. (node_status "b" w, w);
    executed_gtid = λ w. (ok "g", w);
    wait_for_gtid = λ set timeout w. (ok tt, w);
    demote = λ w. (ok tt, false);
    promote = λ w. (ok tt, true);
    reconfigure_replica = λ source w. (ok tt, false);
  };
  verify = λ a w. (ok tt, w);
  wake = λ w. (Wakeup.tick, w);
}

-- JSON knows one operation.
abbrev operation_text : OperationRequest → Result String
operation_text request =
    if same_authorization request.authorization auth then ok "operation" else err "not known"

abbrev operation : OperationRequest
operation = record { authorization = auth }

abbrev promotion : Response × Bool → Result (ℕ × NodeStatus) × Bool
promotion (r, w) = (ok (r.code, node_status "b" w), w)

-- A request to promote runs the agent's handler; no other is answered.
abbrev wire : Http Bool NodeStatus
wire = record {
  new_request = λ request. ok tt;
  send = λ request w.
      if request.url == "/api/v1/promote"
      then promotion (promote_handler served (ok operation) w)
      else (err "not found", w);
  read_all = λ limit s. "";
  discard = λ s. ok tt;
  decode_status = λ limit s. ok s;
  decode_gtid = λ limit s. ok "g";
  marshal_operation = operation_text;
  marshal_wait = λ request. err "not known";
  marshal_replica = λ request. err "not known";
  now = λ w. (0, w);
}

abbrev node_b : AgentNodeConfig
node_b = record { id = "b"; address = "10.0.0.2"; agent_url = "" }

knows_operation :
    (request : OperationRequest) (text : String)
    → operation_text request ≡ ok text
    → request ≡ operation
knows_operation request text h = elim (Bool-cases (same_authorization request.authorization auth)) [
  | inl same ↦
      ap (λ (a : SwitchAuthorization). record { authorization = a })
        ((same_authorization_iff request.authorization auth).0 same)
  | inr other ↦ absurd (err≢ok (rw other at h))
]

-- Once promoted, the node stays so.
abbrev Later : Bool → Bool → Type 0
Later v w = v ≡ true → w ≡ true

delivers : Delivers served wire node_b Later
unfolding post_request trim_slashes str_dec
delivers = record {
  promote = λ request text w code body h sent. (
    w,
    λ e. e,
    λ e. subst (λ r. (promote_handler served (ok r) w).1 ≡ true) (knows_operation request text h) e,
    ap (λ r. (promote_handler served (ok r) w).0.code) (knows_operation request text h)
        ∙ ap (λ o. o.0) (ok_inj sent),
  );
  wait = λ request text w code body h. absurd (err≢ok h);
}

asks : promote wire node_b auth false ≡ (ok tt, true)
unfolding promote post get do_request outcome is_success str_dec continue post_request trim_slashes
    promote_handler authorize may_promote threads_running replica_no_lag no_lag is_writable_primary
    same_authorization
asks = refl

-- The node that was not writable is promoted.
promote-Promoted_example :
    (v : Bool) × Later false v
    × Later (promote_handler served (ok operation) v).1 true
    × ((served.verify auth v).0 ≡ ok tt)
    × (may_promote (served.db.status v).0 ≡ true)
    × ((served.db.promote v).0 ≡ ok tt)
    × (is_writable_primary (served.db.status true).0 ≡ true)
promote-Promoted_example =
    promote-Promoted served wire node_b Later delivers auth false true is_named asks
