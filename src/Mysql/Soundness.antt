-- ===== src/Mysql/Soundness.antt =====
-- What the status that the agent reports promises (internal/mysql/client.go, `Status`).
use text.Mathlib.TextEquality.{eq_iff}
use ha.Base.Int.{ℤ}
use mathlib.Core.Path.{subst}
use ha.Base.{
  ◌↔◌, none, ap, Option-cases, sym, ◌∙◌, ◌≡◌, refl, ◌⊎◌, inl, inr, true, false, not, ◌&&◌, some,
  Bool-cases, arith,
}
use ha.Exec.{Result, ok, err, ok_inj, err≢ok}
use ha.Model.{
  Time, MySqlNodeConfig, NodeStatus, ReplicaStatus, role_primary, role_replica, role_unknown,
}
use ha.Mysql.{
  Globals, Db, initial_status, with_replica, replica_healthy, replica_status, with_globals,
  after_ping, status,
}

-- A replica whose threads both run and whose lag is known.
pub record IsRunning (r : ReplicaStatus) : Type 0 where
  pub io_thread : r.io_thread_running ≡ true
  pub sql_thread : r.sql_thread_running ≡ true
  pub lag : ℤ
  pub known : r.seconds_behind ≡ some lag

-- A replica that is reported with both threads running and a known lag.
abbrev pub HealthyReplica : NodeStatus → Type 0
HealthyReplica s =
    (s.role ≡ role_replica) × ((r : ReplicaStatus) × (s.replica ≡ some r) × IsRunning r)

-- The server let itself be read, and neither flag was set.
abbrev pub IsWritable : Result Globals → Type 0
IsWritable globals =
    (g : Globals) × (globals ≡ ok g) × (g.read_only ≡ false) × (g.super_read_only ≡ false)

-- A status keeps its word, by what the server answered to the ping and to the query of its globals: it is
-- reachable exactly where the ping succeeded, and a node that was not reached has an unknown role and is not
-- healthy; it is a primary exactly where it was reached, its globals were read, and neither flag is set; it is
-- healthy exactly where it is a primary, or a replica whose threads both run and whose lag is known; and a
-- healthy node was reached and has no error.
pub record IsSound (pinged : Result (Unit {0})) (globals : Result Globals) (s : NodeStatus)
    : Type 0 where
  pub reached : (pinged ≡ ok tt) ↔ (s.reachable ≡ true)
  pub unreached : s.reachable ≡ false → (s.healthy ≡ false) × (s.role ≡ role_unknown)
  pub primary : (s.role ≡ role_primary) ↔ ((pinged ≡ ok tt) × IsWritable globals)
  pub healthy : (s.healthy ≡ true) ↔ ((s.role ≡ role_primary) ⊎ HealthyReplica s)
  pub clean : s.healthy ≡ true → (s.reachable ≡ true) × (s.error ≡ "")

false≢true : false ≡ true → ⊥
false≢true h = cc

unknown≢replica : role_unknown ≡ role_replica → ⊥
unknown≢replica h = false≢true ((eq_iff role_unknown role_replica).1 h)

none≢some : {A : Type 0} {a : A} → none ≡ some a → ⊥
none≢some h = cc

bounded : (g : Globals) → (not g.read_only && not g.super_read_only) ≡ false → IsWritable (ok g) → ⊥
bounded g h (g', same, off, super_off) =
    let e = ok_inj same in
    let a : g.read_only ≡ false = ap (λ (x : Globals). x.read_only) e ∙ off in
    let b : g.super_read_only ≡ false = ap (λ (x : Globals). x.super_read_only) e ∙ super_off in
    ground arith

replica≢primary : role_replica ≡ role_primary → ⊥
replica≢primary h = false≢true ((eq_iff role_replica role_primary).1 h)

unknown≢primary : role_unknown ≡ role_primary → ⊥
unknown≢primary h = false≢true ((eq_iff role_unknown role_primary).1 h)

running : (r : ReplicaStatus) → (replica_healthy r ≡ true) ↔ IsRunning r
unfolding replica_healthy
running r = elim (Option-cases r.seconds_behind) [
  | inl e ↦ (λ h. absurd (ground arith), λ k. absurd (none≢some (sym e ∙ k.known)))
  | inr (n, e) ↦ (
    λ h. record { io_thread = ground arith; sql_thread = ground arith; lag = n; known = e },
    λ k. let a = k.io_thread in let b = k.sql_thread in rw (a, b, e) refl,
  )
]

some_inj : {A : Type 0} {a b : A} → some a ≡ some b → a ≡ b
some_inj h = cc

-- A status whose role is not that of a primary, where the server is not writable.
module _ (s : NodeStatus) (globals : Result Globals) where
  ill-IsSound :
      s.reachable ≡ true
      → s.healthy ≡ false
      → (s.role ≡ role_primary → ⊥)
      → (IsWritable globals → ⊥)
      → (HealthyReplica s → ⊥)
      → IsSound (ok tt) globals s
  ill-IsSound reached ill other bound none_running = record {
    reached = (λ _. reached, λ _. refl);
    unreached = λ h. absurd (false≢true (sym h ∙ reached));
    primary = (λ h. absurd (other h), λ h. absurd (bound h.1));
    healthy = (
      λ h. absurd (false≢true (sym ill ∙ h)),
      λ h. elim h [ inl p ↦ absurd (other p) | inr r ↦ absurd (none_running r) ],
    );
    clean = λ h. absurd (false≢true (sym ill ∙ h));
  }

module _ {W : Type 0} (config : MySqlNodeConfig) (db : Db W) where
  with_replica-IsSound :
      (s : NodeStatus) (globals : Result Globals) (r : Result ReplicaStatus)
      → s.reachable ≡ true
      → s.healthy ≡ false
      → s.error ≡ ""
      → s.replica ≡ none
      → (IsWritable globals → ⊥)
      → IsSound (ok tt) globals (with_replica s r)
  unfolding with_replica
  with_replica-IsSound s globals (err e) reached ill fine unread bound =
      ill-IsSound _ globals reached ill replica≢primary bound
        λ h. let (r, found, k) = h.1 in none≢some (sym unread ∙ found)
  with_replica-IsSound s globals (ok r) reached ill fine unread bound = record {
    reached = (λ _. reached, λ _. refl);
    unreached = λ h. absurd (false≢true (sym h ∙ reached));
    primary = (λ h. absurd (replica≢primary h), λ h. absurd (bound h.1));
    healthy = (
      λ h. inr (refl, (r, refl, (running r).0 h)),
      λ h. elim h [
        | inl p ↦ absurd (replica≢primary p)
        | inr (_, (r', found, k)) ↦ (running r).1 (subst IsRunning (sym (some_inj found)) k)
      ],
    );
    clean = λ h. (reached, fine);
  }

  with_globals-IsSound :
      (s : NodeStatus) (g : Result Globals) (w : W)
      → s.reachable ≡ true
      → s.healthy ≡ false
      → s.role ≡ role_unknown
      → s.error ≡ ""
      → s.replica ≡ none
      → IsSound (ok tt) g (with_globals config db s g w).0
  unfolding with_globals
  with_globals-IsSound s (err e) w reached ill unknown fine unread =
      ill-IsSound _ (err e) reached ill (λ h. unknown≢primary (sym unknown ∙ h)) (λ k. err≢ok k.1)
        λ h. unknown≢replica (sym unknown ∙ h.0)
  with_globals-IsSound s (ok g) w reached ill unknown fine unread =
      elim (Bool-cases (not g.read_only && not g.super_read_only)) [
        | inl free ↦ rw free (record {
          reached = (λ _. reached, λ _. refl);
          unreached = λ h. absurd (false≢true (sym h ∙ reached));
          primary = (λ h. (refl, (g, refl, ground arith, ground arith)), λ h. refl);
          healthy = (λ h. inl refl, λ h. refl);
          clean = λ h. (reached, fine);
        })
        | inr bound ↦ rw bound (
            with_replica-IsSound
              (record s {
                server_uuid = g.server_uuid;
                read_only = g.read_only;
                super_read_only = g.super_read_only;
              })
              (ok g) (replica_status config db w).0 reached ill fine unread (bounded g bound))
      ]

  after_ping-IsSound :
      (now : Time) (r : Result (Unit {0})) (w : W)
      → IsSound r (db.globals w).0 (after_ping config db (initial_status config now) r w).0
  unfolding after_ping initial_status
  after_ping-IsSound now (err e) w = record {
    reached = (λ h. absurd (err≢ok h), λ h. absurd (false≢true h));
    unreached = λ h. (refl, refl);
    primary = (λ h. absurd (unknown≢primary h), λ h. absurd (err≢ok h.0));
    healthy = (
      λ h. absurd (false≢true h),
      λ h. elim h [ inl p ↦ absurd (unknown≢primary p) | inr r ↦ absurd (unknown≢replica r.0) ],
    );
    clean = λ h. absurd (false≢true h);
  }
  after_ping-IsSound now (ok done) w =
      with_globals-IsSound _ (db.globals w).0 (db.globals w).1 refl refl refl refl refl

  -- Whatever the server answers, the status is sound: reachable exactly where the ping succeeded, a primary exactly
  -- where the globals were read with neither flag set, healthy exactly where it is a primary or a replica
  -- whose threads both run with a known lag; a node that was not reached is unknown and unhealthy, and a
  -- healthy one has no error.
  pub status-IsSound :
      (w : W)
      → IsSound
          (db.ping (db.now w).1).0
          (db.globals (db.ping (db.now w).1).1).0
          (status config db w).0
  unfolding status
  status-IsSound w = after_ping-IsSound (db.now w).0 (db.ping (db.now w).1).0 _
