-- ===== src/Programs/MysqlAgent/Authorized.antt =====
-- What an agent that has started serves (cmd/mysql-agent/main.go, internal/agent/server.go), and by whose
-- authority (internal/store/store.go).
use ha.Base.{
  String, ℕ, some, List, ◌<>◌, Bool-cases, ◌==◌, arith, ◌≡◌, ◌≢◌, ap, ◌∙◌, inl, inr, str_dec,
  Option, sym,
}
use ha.Exec.{ok, Exec, continue-ok, required-ok, ok_inj, err≢ok, Result-cases, with_end}
use ha.Model.{MySqlNodeConfig, SwitchAuthorization}
use ha.Config.Load.{Environment, AgentConfig, load_agent}
use ha.Store.Etcd.{
  Client, Formats, EtcdStore, KeyValue, Process, etcd_store, verify_switch_operation,
}
use ha.Store.Etcd.Open.{new_etcd_store-opened}
use ha.Store.Etcd.Cas.{Revisions}
use ha.Store.Etcd.Authorized.{Authorized, verify_switch_operation-Authorized}
use ha.Mysql.{Db}
use ha.Mysql
use ha.Agent.{Server, Wakeup, Response, new_server}
use ha.Agent.Authorization.{Request, claimed, refusal, handle, handle_unauthorized}
use ha.Agent.Client.{Tls}
use ha.Stack.{operator_of, agent_of}
use ha.Programs.MysqlAgent.{node_config, start_agent}

some_inj : {A : Type 0} {a b : A} → some a ≡ some b → a ≡ b
some_inj h = cc

-- The store of an agent's configuration.
abbrev pub etcd_of : {W : Type 0} → Client W → Formats → AgentConfig → EtcdStore W
etcd_of client formats cfg = record {
  client = client;
  formats = formats;
  prefix = "/ha/" <> cfg.cluster_name;
}

module _ {W : Type 0} (environment : Environment) (tls : Tls)
    (open_dsn : String → Exec (Process W) (Db (Process W))) (client : Client W) (formats : Formats)
    (close : W → W) (dial : List String → Exec W (Unit {0}))
    (wake : Process W → Wakeup × Process W) where
  -- An agent of the loaded configuration, over a database that was opened, with the store on etcd as its verifier.
  pub record IsServing (server : Server (Process W)) : Type 0 where
    pub cfg : AgentConfig
    pub loaded : load_agent environment ≡ ok cfg
    pub named : cfg.node_id ≢ ""
    pub db : Db (Process W)
    pub same : server ≡ agent_of (node_config cfg) db (etcd_store (etcd_of client formats cfg)) wake

  made_of :
      (config made : MySqlNodeConfig) (db : Db (Process W)) (p p' : Process W)
      → Mysql.new_client open_dsn config p ≡ (ok (made, db), p')
      → made ≡ config
  unfolding Mysql.new_client
  made_of config made db p p' h =
      let (db', opening, h1) = continue-ok _ _ _ h in
      let pair = ok_inj (ap (λ o. o.0) h1) in sym (ap (λ o. o.0) pair)

  new_server-IsServing :
      (cfg : AgentConfig)
      → load_agent environment ≡ ok cfg
      → (config : MySqlNodeConfig) (db : Db (Process W)) (store : EtcdStore W)
        (server : Server (Process W))
      → config ≡ node_config cfg
      → store ≡ etcd_of client formats cfg
      → new_server cfg.node_id
          (some (operator_of config db))
          (some (verify_switch_operation store))
          wake
        ≡ ok server
      → IsServing server
  unfolding new_server
  new_server-IsServing cfg loaded config db store server configured reached h =
      elim (Bool-cases (cfg.node_id == "")) [
        | inl empty ↦ absurd (err≢ok (rw empty at h))
        | inr given ↦ record {
          cfg = cfg;
          loaded = loaded;
          named = ground arith;
          db = db;
          same = sym (ok_inj (rw (given, configured, reached) at h));
        }
      ]

  start_agent-IsServing :
      (p p' : Process W) (server : Server (Process W))
      → start_agent environment tls open_dsn client formats close dial wake p ≡ (ok server, p')
      → IsServing server
  unfolding start_agent Mysql.new_client
  start_agent-IsServing p p' server h =
      let (cfg, loaded, h1) = continue-ok _ _ _ h in
      let (ca, read, h2) = continue-ok _ _ _ h1 in
      let (checked, h3) = required-ok _ _ p _ h2 in
      let (pair, paired, h4) = continue-ok _ _ _ h3 in
      let ((config, db), made, h5) =
        continue-ok (Mysql.new_client open_dsn (node_config cfg) p).0 _ _ h4 in
      let (store, reached, h6) = continue-ok _ _ _ h5 in
      new_server-IsServing cfg loaded config db store server
        (made_of (node_config cfg) config db p _ (with_end _ made))
        (new_etcd_store-opened client formats close dial _ _ _ _ store (with_end _ reached))
        (ap (λ o. o.0) h6)

  module _ (entry : W → String → Option KeyValue) (Later : W → W → Type 0)
      (laws : Revisions client entry Later) where
    authorized :
        (server : Server (Process W)) (cfg : AgentConfig)
        → server.verify ≡ verify_switch_operation (etcd_of client formats cfg)
        → (fuel : ℕ) (request : Request) (p : Process W) (r : Response)
        → (handle server fuel request p).0 ≡ some r
        → r.code ≢ 400
        → r.code ≢ 403
        → (auth : SwitchAuthorization) × (claimed request ≡ ok auth)
          × Authorized (etcd_of client formats cfg) entry Later auth p (server.verify auth p).1
    authorized server cfg verifies fuel request p r h parsed permitted =
        let (undecoded, unnamed, unverified) = handle_unauthorized server fuel request p in
        elim (Result-cases (claimed request)) [
          | inr (e, c) ↦ absurd (parsed (code_of 400 e (undecoded e c)))
          | inl (auth, c) ↦ elim (str_dec auth.operation_id "") [
            | yes empty ↦ absurd (permitted (code_of 403 _ (unnamed auth c empty)))
            | no given ↦ elim (Result-cases (server.verify auth p).0) [
              | inr (e, v) ↦ absurd (
                  permitted (
                    code_of 403 e
                      (unverified auth e _ c given (ap (λ o. (o, (server.verify auth p).1)) v))))
              | inl (done, v) ↦ (
                auth,
                c,
                verify_switch_operation-Authorized (etcd_of client formats cfg) entry Later laws
                    auth p _ (ap (λ f. f auth p) (sym verifies) ∙ with_end _ v),
              )
            ]
          ]
        ]
      where
        code_of :
            (code : ℕ) (e : String) {w' : Process W}
            → handle server fuel request p ≡ (some (refusal code e), w')
            → r.code ≡ code
        code_of code e g = ap (λ (x : Response). x.code) (some_inj (sym h ∙ ap (λ o. o.0) g))

    -- Where etcd keeps what it documents of reads: a request that would act on the database, and to which an agent
    -- that started answers with another code than 400 and 403, names an operation that etcd authorised
    -- during the request, under the cluster that the agent was configured for.
    pub start_agent-Authorized :
        (begin begun : Process W) (server : Server (Process W))
        → start_agent environment tls open_dsn client formats close dial wake begin
          ≡ (ok server, begun)
        → (fuel : ℕ) (request : Request) (p : Process W) (r : Response)
        → (handle server fuel request p).0 ≡ some r
        → r.code ≢ 400
        → r.code ≢ 403
        → (auth : SwitchAuthorization) × (claimed request ≡ ok auth)
          × (cfg : AgentConfig) × (load_agent environment ≡ ok cfg)
          × Authorized (etcd_of client formats cfg) entry Later auth p (server.verify auth p).1
    start_agent-Authorized begin begun server h fuel request p r answers parsed permitted =
        let serving = start_agent-IsServing begin begun server h in
        let (auth, named, found) =
          authorized server serving.cfg (ap (λ (x : Server (Process W)). x.verify) serving.same)
            fuel request p r answers parsed permitted in
        (auth, named, serving.cfg, serving.loaded, found)
