-- ===== src/Mysql/Keeps.antt =====
-- What the database client (internal/mysql/client.go) leaves as it was, given that of the statements and queries
-- which it sends.
use ha.Base.{
  String, ◌<>◌, ◌≡◌, refl, Bool, true, false, not, ◌&&◌, Option, Bool-cases, inl, inr,
  if◌then◌else◌, arith,
}
use ha.Base.Int.{ℤ}
use ha.Exec.{Result-cases, pure, Result, ok, err, Exec}
use ha.Exec.Keeps.{Keeps, continue-Keeps, require-Keeps}
use ha.Model.{ReplicaStatus, AgentNodeConfig, MySqlNodeConfig, NodeStatus}
use ha.Controller.Protocol.{confirms_read_only}
use ha.Mysql.Quoting.{Place}
use ha.Mysql.Skeleton.{skeleton, change_skeleton, skeleton-change_source}
use ha.Mysql.{
  with_replica, initial_status, Row, Db, Globals, change_source, replica_status, with_globals,
  after_ping, status, wait_for_gtid, set_read_only, exec_on_channel, promote, demote,
  reconfigure_replica,
}

-- The statements by which the client restricts a server or sets up its replication: five fixed ones, and one that
-- changes nothing but the source of replication, where only its literals and its port vary.
pub data Restricts : String → Type 0 where
  stop : Restricts "STOP REPLICA"
  reset : Restricts "RESET REPLICA ALL"
  start : Restricts "START REPLICA"
  super_read_only : Restricts "SET GLOBAL super_read_only = ON"
  read_only : Restricts "SET GLOBAL read_only = ON"
  change : (q : String) (port : ℤ) → skeleton Place.outside q ≡ change_skeleton port → Restricts q

module _ {W : Type 0} (config : MySqlNodeConfig) (db : Db W) (P : W → Type 0) where
  -- `P` survives what only asks.
  pub record Queries : Type 0 where
    pub ping : Keeps P db.ping
    pub globals : Keeps P db.globals
    pub gtid_executed : Keeps P db.gtid_executed
    pub wait : (set : String) (n : ℤ) → Keeps P (db.wait_for_executed_gtid_set set n)
    pub query_row : (q : String) → Keeps P (db.query_row q)
    pub now : Keeps P db.now

  replica_status-Keeps : Queries → Keeps P (replica_status config db)
  unfolding replica_status
  replica_status-Keeps q w h =
      continue-Keeps P (ok (db.query_row "SHOW REPLICA STATUS" w).0) _ _ (q.query_row _ w h)
        λ answer v k. continue-Keeps P _ _ _ (fallback answer v k) λ found u g. g
    where
      fallback :
          (answer : Result (Result (Option Row)))
          → Keeps P (elim answer as (λ _. Exec W (Result (Option Row))) [
            | ok found ↦ pure found
            | err e ↦ db.query_row "SHOW SLAVE STATUS"
          ])
      fallback (ok found) v k = k
      fallback (err e) v k = q.query_row _ v k

  with_globals-Keeps :
      Queries → (s : NodeStatus) (g : Result Globals) → Keeps P (with_globals config db s g)
  unfolding with_globals
  with_globals-Keeps q s (err e) w h = h
  with_globals-Keeps q s (ok g) w h = elim (Bool-cases (not g.read_only && not g.super_read_only)) [
    | inl writable ↦ rw writable h
    | inr other ↦ rw other (replica_status-Keeps q w h)
  ]

  after_ping-Keeps :
      Queries → (s : NodeStatus) (r : Result (Unit {0})) → Keeps P (after_ping config db s r)
  unfolding after_ping
  after_ping-Keeps q s (err e) w h = h
  after_ping-Keeps q s (ok done) w h = with_globals-Keeps q _ (db.globals w).0 _ (q.globals w h)

  pub status-Keeps : Queries → Keeps P (status config db)
  unfolding status
  status-Keeps q w h = after_ping-Keeps q _ (db.ping (db.now w).1).0 _ (q.ping _ (q.now w h))

  pub wait_for_gtid-Keeps :
      Queries → (set : String) (n : ℤ) → Keeps P (wait_for_gtid config db set n)
  unfolding wait_for_gtid
  wait_for_gtid-Keeps q set n w h =
      continue-Keeps P _ _ _ (require-Keeps P _ _ w h)
        λ _ v k. continue-Keeps P _ _ _ (q.wait set n v k) λ _. require-Keeps P _ _

  -- `P` survives a statement.
  abbrev pub Survives : String → Type 0
  Survives statement = Keeps P (db.exec statement)

  pub set_read_only-Keeps :
      (b : Bool)
      → Survives ("SET GLOBAL super_read_only = " <> (if b then "ON" else "OFF"))
      → Survives ("SET GLOBAL read_only = " <> (if b then "ON" else "OFF"))
      → Keeps P (set_read_only config db b)
  unfolding set_read_only
  set_read_only-Keeps b first second w h = continue-Keeps P _ _ _ (first w h) λ _. second

  pub promote-Keeps : ((q : String) → Survives q) → Keeps P (promote config db)
  unfolding promote exec_on_channel
  promote-Keeps all w h = continue-Keeps P _ _ _ (all "STOP REPLICA" w h) λ _ v k.
      continue-Keeps P _ _ _ (all "RESET REPLICA ALL" v k)
        λ _. set_read_only-Keeps false (all _) (all _)

  -- How the statements of `set_read_only true` are built.
  super_on : Restricts ("SET GLOBAL super_read_only = " <> "ON")
  super_on = Restricts.super_read_only

  on : Restricts ("SET GLOBAL read_only = " <> "ON")
  on = Restricts.read_only

  -- `P` survives the statements that restrict a server.
  abbrev pub Restricting : Type 0
  Restricting = (q : String) → Restricts q → Survives q

  pub demote-Keeps : Restricting → Keeps P (demote config db)
  unfolding demote
  demote-Keeps all = set_read_only-Keeps true (all _ super_on) (all _ on)

  pub reconfigure_replica-Keeps :
      Restricting → (source : AgentNodeConfig) → Keeps P (reconfigure_replica config db source)
  unfolding reconfigure_replica exec_on_channel
  reconfigure_replica-Keeps all source w h =
      continue-Keeps P _ _ _ (all "STOP REPLICA" Restricts.stop w h) λ _ w1 h1.
        continue-Keeps P _ _ _ (all "RESET REPLICA ALL" Restricts.reset w1 h1) λ _ w2 h2.
          continue-Keeps P _ _ _ (require-Keeps P _ _ w2 h2) λ _ w3 h3.
            continue-Keeps P _ _ _
              (all (change_source config source)
                (Restricts.change _ _ (skeleton-change_source config source)) w3 h3)
              λ _ w4 h4.
                continue-Keeps P _ _ _ (all "START REPLICA" Restricts.start w4 h4)
                  λ _. set_read_only-Keeps true (all _ super_on) (all _ on)

-- Where a server that reports `super_read_only` is `Off` then, a status that confirms both flags leaves it so.
module _ {W : Type 0} (config : MySqlNodeConfig) (db : Db W) (Off : W → Type 0)
    (queries : Queries config db Off)
    (flagged : (w : W) (g : Globals)
      → (db.globals w).0 ≡ ok g
      → g.super_read_only ≡ true
      → Off (db.globals w).1) where
  with_replica-super_read_only :
      (s : NodeStatus) (r : Result ReplicaStatus)
      → (with_replica s r).super_read_only ≡ s.super_read_only
  unfolding with_replica
  with_replica-super_read_only s (ok r) = refl
  with_replica-super_read_only s (err e) = refl

  with_globals-Off :
      (s : NodeStatus) (g : Globals) (w : W)
      → (g.super_read_only ≡ true → Off w)
      → confirms_read_only (with_globals config db s (ok g) w).0 ≡ true
      → Off (with_globals config db s (ok g) w).1
  unfolding with_globals
  with_globals-Off s g w off h = elim (Bool-cases (not g.read_only && not g.super_read_only)) [
    | inl writable ↦ rw writable (off (ground arith))
    | inr other ↦ rw other (
        replica_status-Keeps config db Off queries w
          (off (ground (arith, with_replica-super_read_only _ (replica_status config db w).0))))
  ]

  after_ping-Off :
      (s : NodeStatus) (r : Result (Unit {0})) (w : W)
      → s.reachable ≡ false
      → s.read_only ≡ false
      → confirms_read_only (after_ping config db s r w).0 ≡ true
      → Off (after_ping config db s r w).1
  unfolding after_ping with_globals
  after_ping-Off s (err e) w unreached unset h = absurd (ground arith)
  after_ping-Off s (ok done) w unreached unset h = elim (Result-cases (db.globals w).0) [
    | inl (g, e) ↦
        rw e (with_globals-Off (record s { reachable = true }) g _ (flagged w g e) (rw e at h))
    | inr (x, e) ↦ absurd (let k = rw e at h in ground arith)
  ]

  pub status-Off :
      (w : W) → confirms_read_only (status config db w).0 ≡ true → Off (status config db w).1
  unfolding status initial_status
  status-Off w h = after_ping-Off (initial_status config (db.now w).0) _ _ refl refl h
