-- ===== src/Tests/Serving.antt =====
-- The agent's server over a database that counts down.
use text.Mathlib.TextEquality.{eq_iff}
use ha.Base.{String, ℕ, zero, suc, ◌<◌, ◌≡◌, ◌≢◌, ◌↔◌, Bool, true, false, some, arith}
use ha.Exec.{ok, err}
use ha.Model.{OperationRequest, SwitchAuthorization}
use ha.Agent.{
  Operator, Server, Wakeup, may_promote, is_writable_primary, promote_handler, await_replica,
}
use ha.Agent.Authorization.{Request, claimed, refusal, handle, handle_unauthorized}
use ha.Agent.Promotion.{promote_ok_iff}
use ha.Agent.Waiting.{Deadline, Answered, await_replica_answers}
use ha.Tests.Cluster.{node_status, auth}

-- A node that stays writable, or stays read-only; the state is the number of ticks to the deadline.
abbrev node : Bool → Operator ℕ
node writable = record {
  status = λ n. (node_status "b" writable, n);
  executed_gtid = λ n. (ok "g", n);
  wait_for_gtid = λ g t n. (ok tt, n);
  demote = λ n. (ok tt, n);
  promote = λ n. (ok tt, n);
  reconfigure_replica = λ c n. (ok tt, n);
}

abbrev countdown : ℕ → Wakeup × ℕ
countdown zero = (Wakeup.deadline, zero)
countdown (suc n) = (Wakeup.tick, n)

abbrev server : Bool → Server ℕ
server writable = record {
  node_id = "b";
  db = node writable;
  verify = λ a n. (ok tt, n);
  wake = countdown;
}

abbrev closed : Server ℕ
closed = record (server true) { verify = λ a n. (err "switch operation is not authorized", n) }

abbrev order : OperationRequest
order = record { authorization = auth }

false≢true : false ≡ true → ⊥
false≢true h = cc

pub is_named : auth.operation_id ≢ ""
is_named h = absurd (false≢true ((eq_iff auth.operation_id "").1 h))

handle_unauthorized_example :
    ((e : String)
      → claimed (Request.promote (ok order)) ≡ err e
      → handle closed 9 (Request.promote (ok order)) 3 ≡ (some (refusal 400 e), 3))
    × ((a : SwitchAuthorization)
        → claimed (Request.promote (ok order)) ≡ ok a
        → a.operation_id ≡ ""
        → handle closed 9 (Request.promote (ok order)) 3
          ≡ (some (refusal 403 "operation ID is required"), 3))
    × ((a : SwitchAuthorization) (e : String) (w' : ℕ)
        → claimed (Request.promote (ok order)) ≡ ok a
        → a.operation_id ≢ ""
        → closed.verify a 3 ≡ (err e, w')
        → handle closed 9 (Request.promote (ok order)) 3 ≡ (some (refusal 403 e), w'))
handle_unauthorized_example = handle_unauthorized closed 9 (Request.promote (ok order)) 3

promote_ok_iff_example : ((promote_handler (server false) (ok order) 3).0.code ≡ 200) ↔ (
    (((server false).verify auth 3).0 ≡ ok tt)
    × (may_promote (node_status "b" false) ≡ true)
    × (((server false).db.promote 3).0 ≡ ok tt)
    × (is_writable_primary (node_status "b" false) ≡ true))
promote_ok_iff_example = promote_ok_iff (server false) order 3 is_named

deadline≢tick : Wakeup.deadline ≡ Wakeup.tick → ⊥
deadline≢tick e = cc

ticking : (n : ℕ) → (countdown n).0 ≡ Wakeup.tick → (countdown n).1 < n
ticking zero e = absurd (deadline≢tick e)
ticking (suc n) e = omega arith

clock : Deadline (server true) (λ n. n)
clock = record { look = λ w. omega arith; pass = λ w t. ticking w t }

await_replica_answers_example : Answered (server true) (await_replica (server true) 4 3)
await_replica_answers_example = await_replica_answers (server true) (λ n. n) clock 4 3 (omega arith)
