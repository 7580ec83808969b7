-- ===== src/Store/Etcd/Open.antt =====
-- `NewEtcdStore` (internal/store/store.go): the store is opened where one of the endpoints answers.
use ha.Base.{String, ◌<>◌, ◌≡◌, ap, sym, List, [], ◌∷◌}
use ha.Exec.{ok, err, Exec, pure, fail, ◌>>◌, continue-ok, ok_inj, err≢ok}
use ha.Store.Etcd.{Client, Formats, EtcdStore}

module _ {W : Type 0} (client : Client W) (formats : Formats) (close : W → W) where
  -- The loop over the endpoints: whether one is reachable, with the last error.
  unfoldable pub reach_any : List String → String → Exec W (Unit {0})
  reach_any [] last w = (err ("no Etcd endpoint is reachable: " <> last), close w)
  reach_any (endpoint ∷ endpoints) last w =
      let (r, w') = client.status endpoint w in
      let rest = λ (e : String). reach_any endpoints e w' in
      elim r [ ok done ↦ (ok tt, w') | err e ↦ rest e ]

  -- `NewEtcdStore`; `dial` is `clientv3.New`.
  unfoldable pub new_etcd_store :
      (List String → Exec W (Unit {0})) → List String → String → Exec W (EtcdStore W)
  unfolding reach_any
  new_etcd_store dial [] cluster_name = fail "at least one Etcd endpoint is required"
  new_etcd_store dial (e ∷ es) cluster_name = do
    dial (e ∷ es)
    reach_any (e ∷ es) ""
    pure (record { client = client; formats = formats; prefix = "/ha/" <> cluster_name })

-- A store that was opened is on the given client, under the name of the cluster.
pub new_etcd_store-opened :
    {W : Type 0} (client : Client W) (formats : Formats) (close : W → W)
    (dial : List String → Exec W (Unit {0})) (endpoints : List String) (name : String) (w w' : W)
    (store : EtcdStore W)
    → new_etcd_store client formats close dial endpoints name w ≡ (ok store, w')
    → store ≡ record { client = client; formats = formats; prefix = "/ha/" <> name }
unfolding new_etcd_store
new_etcd_store-opened client formats close dial [] name w w' store h =
    absurd (err≢ok (ap (λ o. o.0) h))
new_etcd_store-opened client formats close dial (e ∷ es) name w w' store h =
    let (dialled, d, h1) = continue-ok _ _ _ h in
    let (reached, r, h2) = continue-ok _ _ _ h1 in sym (ok_inj (ap (λ o. o.0) h2))
