-- ===== src/Stack/Recorded.antt =====
-- `Switch` (internal/ha/controller.go) over the store on etcd (internal/store/store.go): what a switch has recorded
-- while other processes use the same etcd.
use ha.Base.{String, ◌≡◌, Bool, none, Option}
use ha.Exec.{ok}
use ha.Store.Etcd.{KeyValue, EtcdStore, Process, RoundTrips, etcd_store}
use ha.Store.Etcd.Cas.{
  Transactions, NextRevision, Revisions, After, view, put_cluster_if_epoch-Swaps,
}
use ha.Controller.{Services, State}
use ha.Controller.Switch.{Switched}
use ha.Controller.Onward.{Onward}
use ha.Controller.Switchover.{switch}
use ha.Controller.Switchover.Completed.{switch-Fate}
use ha.Controller.Switchover.Advanced.{Fate}

-- The controller's services, with the store that `NewEtcdStore` opens.
abbrev pub on_etcd : {W : Type 0} → Services (Process W) → EtcdStore W → Services (Process W)
on_etcd sv store = record sv { store = etcd_store store }

-- Where every call moves time on, JSON reads back the records that it wrote and etcd keeps what it documents of
-- reads, transactions and revisions, whatever other clients of etcd do: a task that `Switch` over the store on
-- etcd returns without an error is that of a dry run, or it is completed, and then, between the call and its
-- return, one revision of etcd replaced the record by one that names the task's target and has the epoch after
-- the replaced one.
pub switch-recorded :
    {W : Type 0} (sv : Services (Process W)) (store : EtcdStore W)
    (entry : W → String → Option KeyValue) (Later : W → W → Type 0)
    (laws : Revisions store.client entry Later) (writes : Transactions store.client entry Later)
    (format : RoundTrips store.formats.cluster)
    (onward : Onward (on_etcd sv store) (After store entry Later)) (quote : String → String)
    (asked : String) (automatic : Bool) (s s' : State (Process W)) (switched : Switched)
    → switch (on_etcd sv store) quote asked automatic s ≡ (ok switched, s')
    → switched.error ≡ none
    → Fate
        (on_etcd sv store)
        (NextRevision store entry Later writes)
        (After store entry Later)
        (view store entry Later)
        switched.task
        s.world
        s'.world
switch-recorded sv store entry Later laws writes format onward =
    switch-Fate (on_etcd sv store) (NextRevision store entry Later writes) (After store entry Later)
      (view store entry Later) onward
      (put_cluster_if_epoch-Swaps store entry Later laws writes format)
