-- ===== src/Stack/SingleWriter.antt =====
-- Split brain, from the controller down to the databases: `Switch` (internal/ha/controller.go) over the clients of the
-- agents (internal/agent/client.go), whose handlers (internal/agent/server.go) send statements to MySQL
-- (internal/mysql/client.go).
use ha.Base.{sym, ap, ◌∙◌, String, ◌≡◌, Bool}
use ha.Model.{ClusterState}
use ha.Agent.Client.{remote_nodes}
use ha.Controller.{Services, State}
use ha.Controller.Switchover.{switch}
use ha.Controller.Switchover.SingleWriter.{
  Surroundings, WriteLaws, OnlyWriter, switch_single_writer,
}
use ha.Stack.{Site}
use ha.Base.Int.{pos}
use ha.Stack.Wire.{
  IsSound, status-Quiet, status-Off, executed_gtid-Quiet, wait_for_gtid-Quiet, demote-Quiet,
  promote-Elsewhere, reconfigure_replica-Quiet,
}

-- The controller's services, with a client for each node.
abbrev pub stack : {W Stream : Type 0} → Services W → (String → Site W Stream) → Services W
stack sv site = record sv { node = remote_nodes (λ id. (site id).http) (λ id. (site id).node) }

module _ {W Stream : Type 0} (sv : Services W) (site : String → Site W Stream)
    (writable : W → String → Bool) (cluster : W → ClusterState)
    (around : Surroundings (stack sv site) writable cluster)
    (sound : (id : String) → IsSound writable (site id))
    (named : (id : String) → (site id).config.id ≡ id) where
  stack-WriteLaws : WriteLaws (stack sv site) writable cluster
  stack-WriteLaws = record {
    surroundings = around;
    status = λ id. status-Quiet writable (site id) (sound id);
    status_read_only = λ id w h.
        ap (writable ((stack sv site).node.status id w).1) (sym (named id))
        ∙ status-Off writable (site id) (sound id) w h;
    executed_gtid = λ id. executed_gtid-Quiet writable (site id) (sound id);
    wait_for_gtid =
        λ id auth set. wait_for_gtid-Quiet writable (site id) (sound id) auth set (pos 30);
    demote = λ id. demote-Quiet writable (site id) (sound id);
    promote = λ id auth w j e other.
        promote-Elsewhere writable (site id) (sound id) auth w j e
          (λ same. other (same ∙ named id));
    reconfigure_replica = λ id. reconfigure_replica-Quiet writable (site id) (sound id);
  }

  -- Over agents that answer the controller's clients by HTTP and that serve databases which do what MySQL documents of
  -- reads, of the statements that restrict a server, and of `CHANGE REPLICATION SOURCE` with any literals and
  -- port, in an SQL mode where a backslash escapes: if no node but the recorded primary accepts writes when `Switch` is called, there is a node such that no other accepts
  -- writes when it returns, after an error at any point as after a success.
  pub stack_single_writer :
      (quote : String → String) (asked : String) (automatic : Bool) (s : State W)
      → OnlyWriter (stack sv site) writable cluster (cluster s.world).primary s.world
      → (p : String) × OnlyWriter
          (stack sv site)
          writable
          cluster
          p
          (switch (stack sv site) quote asked automatic s).1.world
  stack_single_writer quote asked automatic s h =
      switch_single_writer (stack sv site) writable cluster stack-WriteLaws quote asked automatic s
        h
