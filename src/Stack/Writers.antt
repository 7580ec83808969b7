-- ===== src/Stack/Writers.antt =====
-- Which nodes accept writes after an agent's handler ran, from what MySQL documents of the statements and queries
-- that the database client (internal/mysql/client.go) sends.
use ha.Base.{inr, inl, Bool-cases, String, ℕ, ◌≡◌, ◌≢◌, Bool, true, false}
use ha.Base.Int.{ℤ}
use ha.Exec.{Result, ok}
use ha.Exec.Keeps.{Keeps}
use ha.Model.{
  MySqlNodeConfig, SwitchAuthorization, OperationRequest, WaitGtidRequest, ReplicaRequest,
}
use ha.Controller.Protocol.{confirms_read_only}
use ha.Mysql.{executed_gtid, Db, Globals}
use ha.Mysql.Keeps.{
  Restricts, Queries, Restricting, status-Keeps, wait_for_gtid-Keeps, promote-Keeps, demote-Keeps,
  reconfigure_replica-Keeps, status-Off,
}
use ha.Agent.{
  Server, Wakeup, status_handler, gtid_handler, wait_gtid_handler, demote_handler, promote_handler,
  replica_handler,
}
use ha.Agent.Keeps.{
  Common, status_handler-Keeps, gtid_handler-Keeps, wait_gtid_handler-Keeps, demote_handler-Keeps,
  promote_handler-Keeps, replica_handler-Keeps,
}
use ha.Store.{Store}
use ha.Stack.{agent_of}

module _ {W : Type 0} (writable : W → String → Bool) where
  -- Every node that accepts writes in the second state did so in the first.
  abbrev pub Shrinks : W → W → Type 0
  Shrinks w w' = (j : String) → writable w' j ≡ true → writable w j ≡ true

  -- No call makes a node writable.
  abbrev pub Quiet : {A : Type 0} → (W → A × W) → Type 0
  Quiet m = (w : W) → Shrinks w (m w).1

  -- What MySQL documents: reads and the statements that restrict a server, or set up its replication, make no server
  -- accept writes; a statement does so at most on the server that it is sent to; and a server that reports
  -- `super_read_only` accepts none.
  pub record Documented (id : String) (db : Db W) : Type 0 where
    pub ping : Quiet db.ping
    pub globals : Quiet db.globals
    pub gtid_executed : Quiet db.gtid_executed
    pub wait : (set : String) (n : ℤ) → Quiet (db.wait_for_executed_gtid_set set n)
    pub query_row : (q : String) → Quiet (db.query_row q)
    pub now : Quiet db.now
    pub restricting : (q : String) → Restricts q → Quiet (db.exec q)
    pub elsewhere :
        (q : String) (w : W) (j : String)
        → writable (db.exec q w).1 j ≡ true
        → j ≢ id
        → writable w j ≡ true
    pub read_only :
        (w : W) (g : Globals)
        → (db.globals w).0 ≡ ok g
        → g.super_read_only ≡ true
        → writable (db.globals w).1 id ≡ false

  module _ (config : MySqlNodeConfig) (db : Db W) (store : Store W) (wake : W → Wakeup × W) where
    abbrev pub agent : Server W
    agent = agent_of config db store wake

    -- The agent's other calls leave the nodes as they are.
    pub record Neutral : Type 0 where
      pub verify : (auth : SwitchAuthorization) → Quiet (store.verify_switch_operation auth)
      pub wake_up : Quiet wake

    module _ (documented : Documented config.id db) (neutral : Neutral) where
      -- A node that accepts writes did so before: a fact that quiet calls keep.
      abbrev Before : String → W → W → Type 0
      Before j w v = writable v j ≡ true → writable w j ≡ true

      kept : {A : Type 0} (m : W → A × W) (j : String) (w : W) → Quiet m → Keeps (Before j w) m
      kept m j w quiet v h e = h (quiet v j e)

      asking : (j : String) (w : W) → Queries config db (Before j w)
      asking j w = record {
        ping = kept db.ping j w documented.ping;
        globals = kept db.globals j w documented.globals;
        gtid_executed = kept db.gtid_executed j w documented.gtid_executed;
        wait = λ set n. kept (db.wait_for_executed_gtid_set set n) j w (documented.wait set n);
        query_row = λ q. kept (db.query_row q) j w (documented.query_row q);
        now = kept db.now j w documented.now;
      }

      restricted : (j : String) (w : W) → Restricting config db (Before j w)
      restricted j w q restricts = kept (db.exec q) j w (documented.restricting q restricts)

      common : (j : String) (w : W) → Common agent (Before j w)
      common j w = record {
        status = status-Keeps config db (Before j w) (asking j w);
        verify = λ auth. kept (store.verify_switch_operation auth) j w (neutral.verify auth);
        wake = kept wake j w neutral.wake_up;
      }

      pub status_handler-Quiet : Quiet (status_handler agent)
      status_handler-Quiet w j = status_handler-Keeps agent (Before j w) (common j w) w (λ e. e)

      pub gtid_handler-Quiet : Quiet (gtid_handler agent)
      unfolding executed_gtid
      gtid_handler-Quiet w j =
          gtid_handler-Keeps agent (Before j w) (asking j w).gtid_executed w (λ e. e)

      pub wait_gtid_handler-Quiet :
          (body : Result WaitGtidRequest) → Quiet (wait_gtid_handler agent body)
      wait_gtid_handler-Quiet body w j =
          wait_gtid_handler-Keeps agent (Before j w) (common j w)
            (wait_for_gtid-Keeps config db (Before j w) (asking j w)) body w (λ e. e)

      pub demote_handler-Quiet :
          (body : Result OperationRequest) → Quiet (demote_handler agent body)
      demote_handler-Quiet body w j =
          demote_handler-Keeps agent (Before j w) (common j w)
            (demote-Keeps config db (Before j w) (restricted j w)) body w (λ e. e)

      pub replica_handler-Quiet :
          (fuel : ℕ) (body : Result ReplicaRequest) → Quiet (replica_handler agent fuel body)
      replica_handler-Quiet fuel body w j =
          replica_handler-Keeps agent (Before j w) (common j w)
            (reconfigure_replica-Keeps config db (Before j w) (restricted j w)) fuel body w (λ e. e)

      -- Only the agent's own node can become writable by its promotion.
      pub promote_handler-Elsewhere :
          (body : Result OperationRequest) (w : W) (j : String)
          → writable (promote_handler agent body w).1 j ≡ true
          → j ≢ config.id
          → writable w j ≡ true
      promote_handler-Elsewhere body w j e other =
          promote_handler-Keeps agent (Before j w) (common j w)
            (promote-Keeps config db (Before j w)
              (λ q v h f. h (documented.elsewhere q v j f other)))
            body w (λ f. f) e

      abbrev Off : W → Type 0
      Off v = writable v config.id ≡ false

      off : {A : Type 0} (m : W → A × W) → Quiet m → Keeps Off m
      off m quiet v h = elim (Bool-cases (writable (m v).1 config.id)) [
        | inl on ↦ absurd (let was = quiet v config.id on in cc)
        | inr still ↦ still
      ]

      -- A status that confirms both read-only flags is true when the handler returns.
      pub status_handler-Off :
          (w : W)
          → confirms_read_only (agent.db.status w).0 ≡ true
          → writable (status_handler agent w).1 config.id ≡ false
      unfolding status_handler
      status_handler-Off w h =
          status-Off config db Off
            (record {
              ping = off db.ping documented.ping;
              globals = off db.globals documented.globals;
              gtid_executed = off db.gtid_executed documented.gtid_executed;
              wait = λ set n. off (db.wait_for_executed_gtid_set set n) (documented.wait set n);
              query_row = λ q. off (db.query_row q) (documented.query_row q);
              now = off db.now documented.now;
            })
            documented.read_only w h
