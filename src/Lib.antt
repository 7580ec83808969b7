-- ===== src/Lib.antt =====
-- A highly available MySQL cluster: a controller elects one primary, watches the nodes through an agent on
-- each, and switches the primary to a replica by hand or on failure. This development models the parts that
-- decide who may write, and states what holds of them.
--
-- Parts and files:
--   Model             internal/model/model.go: the records that the parts exchange
--   Config            internal/config/config.go: the controller's configuration; `Load` and `LoadAgent` in
--                     Config/Load, with their bounds and required variables in modules below it
--   Alert             internal/alert/webhook.go: `Manager.Send`
--   Store             internal/store/store.go: the `Store` interface
--   Store/Memory      internal/store/store.go: `MemoryStore`, one function per method; laws in Memory/Laws
--   Store/Cas         what any store promises of its conditional write: a compare-and-swap
--   Store/Etcd        internal/store/store.go: `EtcdStore` over a client of etcd, which is in Store/Backend;
--                     `NewEtcdStore` in Etcd/Open, the conditional write in Etcd/Cas, reads in
--                     Etcd/Authorized and Etcd/Tasks, the lock in Etcd/Locking, what every call keeps in
--                     Etcd/Onward, `RunLeaderElection` in Etcd/Election
--   Controller        internal/ha/controller.go: the controller's fields, and what it calls (store, agents,
--                     fence and route managers, webhook, clock), with `leaderBoundContext`
--   Controller/Target `chooseTarget` and `chooseDryRunTarget`; specifications in Target/Laws, Target/DryRun
--   Controller/Switch the steps of `Switch`: dry run, fence and demotion, promotion, the cluster record, the
--                     replicas, `finishTask` and the end of the task
--   Controller/Switchover
--                     `Switch` as a whole with its guards, lock and deferred calls, and `SetAutoFailover`
--   Controller/Protocol
--                     the abstract order of a switch, as stages and what each call does to them
--   Controller/Switchover/{Follows, Registered, Safety}
--                     `Switch` against such a protocol: the execution, the task, and as a whole
--   Controller/Switchover/{SingleWriter, Order, Tripping}
--                     two protocols, and what a switch leaves of the controller's busy flag
--   Controller/Onward that every call moves time on, and the protocol that says so of a switch
--   Controller/Switchover/DryRuns
--                     dry runs
--   Controller/Switchover/{Advanced, Completed}
--                     what a switch without an error has written
--   Controller/Switchover/AutoFailover
--                     what `SetAutoFailover` has written
--   Controller/Switchover/{Responsive, Completes}
--                     services that answer a switch, stage by stage, and a switch that they let through
--   Controller/Setup, Controller/Leading
--                     `NewController`; `runAsLeader`, `Status` and `Tasks`
--   Controller/Probe  `probe`, `failureAlert`, `detectPrimary`, `tryAutomaticFailover`; alerts in
--                     Probe/Alerts, over many rounds in Probe/Alternation; the primary that is adopted in
--                     Probe/Adoption; automatic failovers in Probe/Failover
--   Agent             internal/agent/server.go: the handlers, from the decoded body to the response; who may
--                     call them in Agent/Authorization, promotion in Agent/Promotion, the waiting loop in
--                     Agent/Waiting, facts that every handler keeps in Agent/Keeps
--   Agent/Client      internal/agent/client.go: the controller's client of an agent; its answers in
--                     Client/Calls, with the handlers of the agent in Client/Composed
--   Api               internal/api/server.go: the handlers of the controller's API; their codes in Api/Codes
--   Mysql             internal/mysql/client.go: the database client; its texts in Mysql/Text, the statements
--                     it sends in Mysql/Statements, their literals in Mysql/Quoting and Mysql/Injection, what
--                     stands outside of them in Mysql/Skeleton, the status it reports in Mysql/Soundness,
--                     facts that its calls keep in Mysql/Keeps
--   Migration         cmd/state-migrate/main.go: the copy of the state between two etcd clusters; what its
--                     success means in Migration/Verified, its refusal in Migration/Occupied
--   Pki               cmd/pki-gen/main.go: the names, certificates and files of the certificate generator;
--                     where it writes in Pki/Confined
--   Stack             the whole path below `Switch`: the controller's clients, HTTP, the agents' handlers and
--                     their databases; which nodes accept writes after a handler in Stack/Writers, after a
--                     call of a client in Stack/Sending and Stack/Wire, after `Switch` in
--                     Stack/SingleWriter; `Switch` over the store on etcd in Stack/Recorded
--   Programs          cmd/controller/main.go: the start of the controller; what holds of one in Programs/Started
--   Programs/MysqlAgent
--                     cmd/mysql-agent/main.go: the start of an agent; whom it obeys in MysqlAgent/Authorized
--   Programs/AlertReceiver
--                     cmd/alert-receiver/main.go: its handlers; what it keeps in AlertReceiver/Kept
--   Tests             runs on a simulated cluster and a simulated etcd
--   Base, Exec        shared helpers: Go's strings, maps, sorting and integers, and calls that return an
--                     error beside a changed state
--
-- How they interact: `Switch` calls the agents through the `Node` interface and the store through `Store`;
-- each agent's server calls the database client, and asks the store whether the operation that a request
-- names holds the switch lock. `Switch` is called by the API and by the probe of a leader, which the store's
-- election lets run; a request of Agent/Client is answered by the handlers of Agent. The modules of Stack put
-- these together: the laws that Switchover/SingleWriter asks of the nodes follow there from what MySQL
-- documents of statements and from HTTP delivering a request at most once, to the handler of its path.
--
-- Conventions: the state of all that lies outside the process is a type `W`, and a call is a function of it.
-- An error is its text. A `map` is an association list whose order is the order of a `range`, so a theorem
-- about every list covers every order. `uint64` epochs wrap at 2^64. Calls of `MemoryStore` are single steps,
-- as its mutex makes them. A context is not modelled but as what may make a call fail: each call of an
-- interface may return any error. The loop of the agent's `replica` handler runs on fuel, one unit for each
-- look at the database; a deadline of 60 seconds and a tick of one second make some sixty looks.
--
-- The list of ticks of `runAsLeader` is what comes before its context ends. The loop of `RunLeaderElection`
-- runs on fuel too, a unit for each turn: a turn that does not return opens a session of etcd or sleeps after
-- an error, and with a unit of time that neither undercuts, more fuel than the context has units left is enough.
--
-- Not modelled: signals and listeners of the programs under cmd and the deployment files; the contexts that
-- end with a session of etcd, HTTP routes, the serial numbers and times of certificates, and logging. The
-- database, etcd, HTTP, TLS, cryptography, JSON, the environment and the clock are parameters.
pub mod Base
pub mod Exec
pub mod Model
pub mod Store
pub mod Config
pub mod Alert
pub mod Controller
pub mod Agent
pub mod Mysql
pub mod Migration
pub mod Api
pub mod Pki
pub mod Programs
pub mod Stack
pub mod Tests
