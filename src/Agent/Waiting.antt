-- ===== src/Agent/Waiting.antt =====
-- The waiting loop of the agent's `replica` handler (internal/agent/server.go): its end, and its success.
use ha.Base.{
  ◌<>◌, ℕ, zero, suc, ◌≡◌, refl, true, false, Option, some, arith, ◌<◌, ◌≤◌, Bool-cases, ◌⊎◌, inl,
  inr,
}
use ha.Model.{NodeStatus}
use ha.Agent.{String, Server, Wakeup, Body, Response, on_wakeup, is_following, await_replica}

-- A clock that runs down: looking at the database gives it no more time, and each tick takes some. So it
-- does with a deadline of a minute and a tick each second, where the `select` does not pass over the deadline
-- for ever.
pub record Deadline {W : Type 0} (server : Server W) (left : W → ℕ) : Type 0 where
  pub look : (w : W) → left (server.db.status w).1 ≤ left w
  pub pass : (w : W) → (server.wake w).0 ≡ Wakeup.tick → left (server.wake w).1 < left w

chain : {a b c d : ℕ} → a < b → b ≤ c → c < suc d → a < d
chain p q r = omega arith

module _ {W : Type 0} (server : Server W) where
  -- The reply is the success of a status that follows, read last; or it is an error after a status that does
  -- not follow: 408 with its error at the end of the request, and 409 with the status' error at the deadline.
  pub data Answered : Option Response × W → Type 0 where
    following :
        (w : W)
        → is_following (server.db.status w).0 ≡ true
        → Answered
            (some (record { code = 200; body = Body.status "replica" }), (server.db.status w).1)
    cancelled :
        (w : W) (e : String)
        → is_following (server.db.status w).0 ≡ false
        → (server.wake (server.db.status w).1).0 ≡ Wakeup.request_done e
        → Answered (
          some (record { code = 408; body = Body.error e }),
          (server.wake (server.db.status w).1).1,
        )
    expired :
        (w : W)
        → is_following (server.db.status w).0 ≡ false
        → (server.wake (server.db.status w).1).0 ≡ Wakeup.deadline
        → Answered (
          some (record {
            code = 409;
            body = Body.error (
                "replica reconfiguration did not become healthy: " <> (server.db.status w).0.error);
          }),
          (server.wake (server.db.status w).1).1,
        )

  Wakeup-cases :
      (x : Wakeup)
      → (x ≡ Wakeup.tick) ⊎ (((e : String) × (x ≡ Wakeup.request_done e)) ⊎ (x ≡ Wakeup.deadline))
  Wakeup-cases (Wakeup.request_done e) = inr (inl (e, refl))
  Wakeup-cases Wakeup.deadline = inr (inr refl)
  Wakeup-cases Wakeup.tick = inl refl

  -- With a clock that runs down, and more fuel than it has left, the loop replies: with 200 after a status of a
  -- healthy replica with both threads running, and after any other status with 408 at the end of the request or
  -- with 409 at the deadline.
  pub await_replica_answers :
      (left : W → ℕ)
      → Deadline server left
      → (fuel : ℕ) (w : W) → left w < fuel
      → Answered (await_replica server fuel w)
  unfolding await_replica on_wakeup
  await_replica_answers left clock zero w h = ground arith
  await_replica_answers left clock (suc fuel) w h = elim (Bool-cases (is_following seen)) [
    | inl f ↦ rw (f) (following w f)
    | inr f ↦ elim (Wakeup-cases (server.wake looked).0) [
      | inl t ↦
          rw (f, t)
            (await_replica_answers left clock fuel _ (chain (clock.pass looked t) (clock.look w) h))
      | inr (inl (e, done)) ↦ rw (f, done) (cancelled w e f done)
      | inr (inr late) ↦ rw (f, late) (expired w f late)
    ]
  ]
    where
      seen : NodeStatus
      seen = (server.db.status w).0

      looked : W
      looked = (server.db.status w).1
