-- ===== src/Programs/Started.antt =====
-- What holds of a controller that has started (cmd/controller/main.go).
use ha.Base.{String, ◌≡◌, refl, ap, true, false, Bool-cases, inl, inr, List, ◌<>◌, sym, ◌∙◌, All}
use ha.Exec.{Result, ok, err, Exec, continue-ok, with_end, ok_inj, err≢ok}
use mathlib.Core.Path.{subst}
use ha.Config.{Config}
use ha.Config.Load.{Environment, load}
use ha.Config.Load.Bounds.{IsUsable, load-IsUsable}
use ha.Store.Memory.{new_memory_store}
use ha.Store.Etcd.{Client, Formats, EtcdStore}
use ha.Agent.Client.{Tls}
use ha.Controller.{Controller}
use ha.Controller.Switch.{has_client}
use ha.Model.{AgentNodeConfig}
use ha.Store.Etcd.Open.{new_etcd_store-opened}
use ha.Controller.Setup.{new_controller-Holds, IsSetUp, new_controller-IsSetUp}
use ha.Programs.{Backing, choose_store, start_controller}

-- A store on etcd under the configured cluster name, or one in memory where the configuration allows it.
abbrev pub IsAllowed : {W : Type 0} → Client W → Formats → Config → Backing W → Type 0
IsAllowed client formats cfg (Backing.persistent store) =
    store ≡ record { client = client; formats = formats; prefix = "/ha/" <> cfg.cluster_name }
IsAllowed client formats cfg (Backing.in_memory store) =
    (cfg.require_etcd ≡ false) × (store ≡ new_memory_store cfg.cluster_name)

-- The controller's configuration was loaded and is usable, the store is one that it allows, every configured node
-- has a client, the clients are set up, and the controller is neither a leader nor busy.
pub record IsStarted {W : Type 0} (client : Client W) (formats : Formats)
    (environment : Environment) (backing : Backing W) (c : Controller) : Type 0 where
  pub cfg : Config
  pub loaded : load environment ≡ ok cfg
  pub usable : IsUsable cfg
  pub configured : c.cfg ≡ cfg
  pub idle : (c.leader ≡ false) × (c.tripping ≡ false)
  pub store : IsAllowed client formats cfg backing
  pub nodes : All (λ (node : AgentNodeConfig). has_client node.id c.clients ≡ true) cfg.nodes
  pub clients : (id : String) → has_client id c.clients ≡ true → IsSetUp c id

choose_store-IsAllowed :
    {W : Type 0} (client : Client W) (formats : Formats) (cfg : Config)
    (opened : Result (EtcdStore W)) (backing : Backing W)
    → ((store : EtcdStore W)
        → opened ≡ ok store
        → store
          ≡ record { client = client; formats = formats; prefix = "/ha/" <> cfg.cluster_name })
    → choose_store cfg opened ≡ ok backing
    → IsAllowed client formats cfg backing
unfolding choose_store
choose_store-IsAllowed client formats cfg (ok store) backing from h =
    subst (IsAllowed client formats cfg) (ok_inj h) (from store refl)
choose_store-IsAllowed client formats cfg (err e) backing from h =
    elim (Bool-cases cfg.require_etcd) [
      | inl required ↦ absurd (err≢ok (rw required at h))
      | inr allowed ↦
          subst (IsAllowed client formats cfg) (ok_inj (rw allowed at h)) (allowed, refl)
    ]

-- A controller that starts has the configuration that was loaded, which is usable; it works on etcd under the name of
-- its cluster, or in memory where etcd is not required; it is neither a leader nor busy; each configured node has a
-- client, and each client a configuration with an HTTPS URL.
pub start_controller-IsStarted :
    {W : Type 0} (environment : Environment) (tls : Tls) (quote : String → String)
    (client : Client W) (formats : Formats) (close : W → W) (dial : List String → Exec W (Unit {0}))
    (backing : Backing W) (c : Controller) (w w' : W)
    → start_controller environment tls quote client formats close dial w ≡ (ok (backing, c), w')
    → IsStarted client formats environment backing c
unfolding start_controller
start_controller-IsStarted environment tls quote client formats close dial backing c w w' h =
    let (cfg, loaded, h1) = continue-ok _ _ _ h in
    let (opened, attempted, h2) = continue-ok _ _ _ h1 in
    let (chosen, allowed, h3) = continue-ok _ _ _ h2 in
    let (made, set_up, h4) = continue-ok _ _ _ h3 in
    let holds = new_controller-Holds tls quote cfg made _ _ (with_end _ set_up) in
    let both : (chosen, made) ≡ (backing, c) = ok_inj (ap (λ o. o.0) h4) in
    record {
      cfg = cfg;
      loaded = loaded;
      usable = load-IsUsable environment cfg loaded;
      configured = ap (λ p. p.1.cfg) (sym both) ∙ holds.cfg;
      idle = (
        ap (λ p. p.1.leader) (sym both) ∙ holds.leader,
        ap (λ p. p.1.tripping) (sym both) ∙ holds.tripping,
      );
      nodes =
          subst
            (λ (x : Controller).
              All (λ (node : AgentNodeConfig). has_client node.id x.clients ≡ true) cfg.nodes)
            (ap (λ p. p.1) both) holds.all;
      store = subst (IsAllowed client formats cfg) (ap (λ p. p.0) both) (
          choose_store-IsAllowed client formats cfg opened chosen
            (λ store e.
              new_etcd_store-opened client formats close dial cfg.etcd_endpoints cfg.cluster_name w
                _ store (with_end _ (ok_inj attempted ∙ e)))
            allowed);
      clients =
          subst (λ (x : Controller). (id : String) → has_client id x.clients ≡ true → IsSetUp x id)
            (ap (λ p. p.1) both)
            (new_controller-IsSetUp tls quote cfg made _ _ (with_end _ set_up));
    }
