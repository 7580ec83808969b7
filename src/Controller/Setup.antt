-- ===== src/Controller/Setup.antt =====
-- `NewController` (internal/ha/controller.go): the clients and configurations of the nodes.
use text.Mathlib.Text
use mathlib.Core.Path.{subst}
use ha.Base.{
  All, ap, ◌∙◌, ◌⊎◌, inl, inr, Bool-cases, String, ◌<>◌, ◌≡◌, ◌≢◌, refl, Bool, true, false, not,
  ◌||◌, none, some, List, [], ◌∷◌, arith, if◌then◌else◌, ◌==◌,
}
use ha.Base.Map.{lookup, insert, lookup-insert}
use ha.Exec.{map_err-ok, ok_inj, ok, Exec, pure, require, wrap, ◌>>◌, continue-ok, required-ok}
use ha.Model.{AgentNodeConfig}
use ha.Config.{Config}
use ha.Agent.Client.{Tls, new_client}
use ha.Controller.{Controller}
use ha.Controller.Switch.{has_client}

abbrev is_empty : {A : Type 0} → List A → Bool
is_empty [] = true
is_empty (a ∷ rest) = false

-- `c.clients[id] = client`, by the ids of the clients.
unfoldable pub add_client : String → List String → List String
unfolding has_client
add_client id clients = if has_client id clients then clients else id ∷ clients

-- The controller before its nodes.
unfoldable pub bare_controller : Config → Controller
bare_controller cfg = record {
  cfg = cfg;
  clients = [];
  configs = [];
  statuses = [];
  last_task = none;
  tripping = false;
  last_dry_run_primary = "";
  leader = false;
  alerted_nodes = [];
  leader_ctx = none;
}

unfoldable pub with_client : AgentNodeConfig → Controller → Controller
unfolding add_client
with_client node c = record c {
  clients = add_client node.id c.clients;
  configs = insert node.id node c.configs;
}

module _ {W : Type 0} (tls : Tls) (quote : String → String) where
  -- The loop over the nodes; `quote` is `%q`.
  unfoldable pub add_nodes : List AgentNodeConfig → Controller → Exec W Controller
  unfolding new_client with_client
  add_nodes [] c = pure c
  add_nodes (node ∷ nodes) c =
      let rest = add_nodes nodes (with_client node c) in
      do
        require (not (node.id == "" || node.address == "" || node.agent_url == ""))
            ("node " <> quote node.id <> " must define id, address and agent_url")
        wrap (λ e. "create agent client " <> (node.id <> (": " <> e)))
            (new_client tls node c.cfg.agent_ca_file c.cfg.agent_cert_file c.cfg.agent_key_file)
        rest

  -- `NewController`
  unfoldable pub new_controller : Config → Exec W Controller
  unfolding add_nodes bare_controller
  new_controller cfg = do
    require (not (is_empty cfg.nodes)) "HA_AGENTS_JSON must contain at least one MySQL agent"
    add_nodes cfg.nodes (bare_controller cfg)

-- What the controller relies on of a client.
pub record IsSetUp (c : Controller) (id : String) : Type 0 where
  pub node : AgentNodeConfig
  pub found : lookup id c.configs ≡ some node
  pub named : node.id ≡ id
  pub address : node.address ≢ ""
  pub secure : Text.starts_with node.agent_url "https://" ≡ true

abbrev AllSetUp : Controller → Type 0
AllSetUp c = (id : String) → has_client id c.clients ≡ true → IsSetUp c id

add_client-cases :
    (id j : String) (clients : List String)
    → has_client j (add_client id clients) ≡ true
    → (j ≡ id) ⊎ (has_client j clients ≡ true)
unfolding add_client has_client
add_client-cases id j clients h = ground arith

with_client-AllSetUp :
    (node : AgentNodeConfig) (c : Controller)
    → node.address ≢ ""
    → Text.starts_with node.agent_url "https://" ≡ true
    → AllSetUp c
    → AllSetUp (with_client node c)
unfolding with_client
with_client-AllSetUp node c address secure all j h = elim (Bool-cases (j == node.id)) [
  | inl same ↦ record {
    node = node;
    found = lookup-insert j node.id node c.configs ∙ rw same refl;
    named = ground arith;
    address = address;
    secure = secure;
  }
  | inr other ↦ elim (add_client-cases node.id j c.clients h) [
    | inl equal ↦ absurd (ground arith)
    | inr had ↦
        let old = all j had in
        record {
          node = old.node;
          found = lookup-insert j node.id node c.configs ∙ rw other old.found;
          named = old.named;
          address = old.address;
          secure = old.secure;
        }
  ]
]

-- What adding nodes leaves of a controller, and that each of the nodes has a client afterwards.
pub record Holds (nodes : List AgentNodeConfig) (c d : Controller) : Type 0 where
  pub cfg : d.cfg ≡ c.cfg
  pub leader : d.leader ≡ c.leader
  pub tripping : d.tripping ≡ c.tripping
  pub all : All (λ (node : AgentNodeConfig). has_client node.id d.clients ≡ true) nodes
  pub more : (id : String) → has_client id c.clients ≡ true → has_client id d.clients ≡ true

added : (id : String) (clients : List String) → has_client id (add_client id clients) ≡ true
unfolding add_client has_client
added id clients = ground arith

kept_client :
    (id j : String) (clients : List String)
    → has_client j clients ≡ true
    → has_client j (add_client id clients) ≡ true
unfolding add_client has_client
kept_client id j clients h = ground arith

with_client-Holds :
    (node : AgentNodeConfig) (nodes : List AgentNodeConfig) (c d : Controller)
    → Holds nodes (with_client node c) d
    → Holds (node ∷ nodes) c d
unfolding with_client
with_client-Holds node nodes c d h = record {
  cfg = h.cfg;
  leader = h.leader;
  tripping = h.tripping;
  all = (h.more node.id (added node.id c.clients), h.all);
  more = λ id had. h.more id (kept_client node.id id c.clients had);
}

module _ {W : Type 0} (tls : Tls) (quote : String → String) where
  new_client-secure :
      (node : AgentNodeConfig) (ca cert key : String) (w : W) (made : AgentNodeConfig)
      → (new_client tls node ca cert key w).0 ≡ ok made
      → Text.starts_with node.agent_url "https://" ≡ true
  unfolding new_client
  new_client-secure node ca cert key w made h =
      let (given, h1) =
        required-ok _ _ _ _ (ap (λ r. (r, (new_client tls node ca cert key w).1)) h) in
      let (secure, h2) = required-ok _ _ _ _ h1 in secure

  add_nodes-AllSetUp :
      (nodes : List AgentNodeConfig) (c d : Controller) (w w' : W)
      → AllSetUp c
      → add_nodes tls quote nodes c w ≡ (ok d, w')
      → AllSetUp d
  unfolding add_nodes
  add_nodes-AllSetUp [] c d w w' all h = subst AllSetUp (ok_inj (ap (λ o. o.0) h)) all
  add_nodes-AllSetUp (node ∷ nodes) c d w w' all h =
      let (complete, h1) = required-ok _ _ _ _ h in
      let (made, client, h2) = continue-ok _ _ _ h1 in
      add_nodes-AllSetUp nodes _ d _ w'
        (with_client-AllSetUp node c (ground arith)
          (new_client-secure node _ _ _ w made (map_err-ok _ _ client)) all)
        h2

  add_nodes-Holds :
      (nodes : List AgentNodeConfig) (c d : Controller) (w w' : W)
      → add_nodes tls quote nodes c w ≡ (ok d, w')
      → Holds nodes c d
  unfolding add_nodes
  add_nodes-Holds [] c d w w' h =
      subst (Holds [] c) (ok_inj (ap (λ o. o.0) h))
        (record { cfg = refl; leader = refl; tripping = refl; all = tt; more = λ id had. had })
  add_nodes-Holds (node ∷ nodes) c d w w' h =
      let (complete, h1) = required-ok _ _ _ _ h in
      let (made, client, h2) = continue-ok _ _ _ h1 in
      with_client-Holds node nodes c d (add_nodes-Holds nodes _ d _ w' h2)

  -- A controller that `NewController` returns has the configuration that it was given, is no leader and not busy, and
  -- has a client for every node.
  pub new_controller-Holds :
      (cfg : Config) (c : Controller) (w w' : W)
      → new_controller tls quote cfg w ≡ (ok c, w')
      → Holds cfg.nodes (bare_controller cfg) c
  unfolding new_controller
  new_controller-Holds cfg c w w' h =
      let (some_node, made) = required-ok _ _ _ _ h in
      add_nodes-Holds cfg.nodes (bare_controller cfg) c w w' made

  -- Where `NewController` succeeds, each client has a configuration under its own id, with an address and a URL
  -- that uses HTTPS.
  pub new_controller-IsSetUp :
      (cfg : Config) (c : Controller) (w w' : W)
      → new_controller tls quote cfg w ≡ (ok c, w')
      → (id : String) → has_client id c.clients ≡ true
      → IsSetUp c id
  unfolding new_controller bare_controller has_client
  new_controller-IsSetUp cfg c w w' h =
      let (some_node, made) = required-ok _ _ _ _ h in
      add_nodes-AllSetUp cfg.nodes (bare_controller cfg) c w w' (λ id none_yet. cc) made
