-- ===== src/Store/Etcd/Authorized.antt =====
-- `EtcdStore.VerifySwitchOperation` (internal/store/store.go): the two reads behind an authorised operation.
use ha.Base.{
  String, ◌<>◌, ◌+◌, ◌%◌, ◌≡◌, ◌≢◌, refl, ap, ◌∙◌, ◌⊎◌, true, not, ◌||◌, ◌==◌, Option, none, some,
  arith, eqb, Bool-cases, inl, inr,
}
use ha.Exec.{Result, ok, continue, continue-ok, required-ok, err≢ok, Result-cases}
use ha.Model.{
  ClusterState, SwitchAuthorization, uint64_mod, same_authorization, same_authorization_iff,
}
use ha.Store.Etcd.{
  KeyValue, EtcdStore, Process, next_epoch, active_operation, same_operation, get_cluster,
  verify_switch_operation,
}
use ha.Store.Etcd.Cas.{Revisions, key, view, After}

module _ {W : Type 0} (s : EtcdStore W) (entry : W → String → Option KeyValue)
    (Later : W → W → Type 0) where
  -- The operation has an id and leads to the next epoch. At one moment the cluster was at one of its two
  -- epochs, and at a later one the operation that is stored with the lock was this one.
  pub record Authorized (auth : SwitchAuthorization) (p p' : Process W) : Type 0 where
    pub named : auth.operation_id ≢ ""
    pub next : auth.to_epoch ≡ (auth.from_epoch + 1) % uint64_mod
    pub checked : Process W
    pub active : Process W
    pub since : After s entry Later p checked
    pub between : After s entry Later checked active
    pub until : After s entry Later active p'
    pub cluster : ClusterState
    pub holds : view s entry Later checked ≡ ok cluster
    pub epoch : (cluster.epoch ≡ auth.from_epoch) ⊎ (cluster.epoch ≡ auth.to_epoch)
    pub kv : KeyValue
    pub stored : entry active.world (s.prefix <> "/switch-operation") ≡ some kv
    pub operation : s.formats.authorization.unmarshal kv.value ≡ ok auth

  active_operation-ok :
      (auth : SwitchAuthorization) (found : Option KeyValue)
      → active_operation s.formats.authorization auth found ≡ ok tt
      → (kv : KeyValue) × (found ≡ some kv) × (s.formats.authorization.unmarshal kv.value ≡ ok auth)
  unfolding active_operation same_operation
  active_operation-ok auth none h = absurd (err≢ok h)
  active_operation-ok auth (some kv) h =
      elim (Result-cases (s.formats.authorization.unmarshal kv.value)) [
        | inl (active, e) ↦ elim (Bool-cases (same_authorization active auth)) [
          | inl same ↦ (kv, refl, e ∙ ap ok ((same_authorization_iff active auth).0 same))
          | inr other ↦ absurd (err≢ok (rw (e, other) at h))
        ]
        | inr (x, e) ↦ absurd (err≢ok (rw e at h))
      ]

  module _ (laws : Revisions s.client entry Later) where
    get_cluster-reads :
        (p : Process W) (state : ClusterState)
        → (get_cluster s p).0 ≡ ok state
        → (u : W) × Later p.world u
          × Later u (get_cluster s p).1.world
          × (view s entry Later (record p { world = u }) ≡ ok state)
    unfolding get_cluster continue
    get_cluster-reads p state h = elim (Result-cases (s.client.get (key s entry Later) p.world).0) [
      | inl (found, e) ↦
          let (u, a, b, at) = laws.get _ p.world found e in (u, a, rw e b, rw at (rw e at h))
      | inr (x, e) ↦ absurd (err≢ok (rw e at h))
    ]

    authorized :
        (auth : SwitchAuthorization) (p p' : Process W) (state : ClusterState)
        (found : Option KeyValue)
        → not (auth.operation_id == "" || not (next_epoch auth)) ≡ true
        → (get_cluster s p).0 ≡ ok state
        → (eqb state.epoch auth.from_epoch || eqb state.epoch auth.to_epoch) ≡ true
        → (s.client.get (s.prefix <> "/switch-operation") (get_cluster s p).1.world).0 ≡ ok found
        → active_operation s.formats.authorization auth found ≡ ok tt
        → (s.client.get (s.prefix <> "/switch-operation") (get_cluster s p).1.world).1 ≡ p'.world
        → Authorized auth p p'
    unfolding next_epoch
    authorized auth p p' state found allowed read current got active end =
        let (u, since, b, holds) = get_cluster-reads p state read in
        let (v, c, d, at) = laws.get _ _ found got in
        let (kv, is, operation) = active_operation-ok auth found active in
        record {
          named = ground arith;
          next = ground arith;
          checked = record p { world = u };
          active = record p { world = v };
          since = since;
          between = laws.later _ _ _ b c;
          until = rw (← end) d;
          cluster = state;
          holds = holds;
          epoch = ground arith;
          kv = kv;
          stored = at ∙ is;
          operation = operation;
        }

    -- Where etcd keeps what it documents of reads: an operation that is verified is authorised in this sense,
    -- whatever other clients did meanwhile.
    pub verify_switch_operation-Authorized :
        (auth : SwitchAuthorization) (p p' : Process W)
        → verify_switch_operation s auth p ≡ (ok tt, p')
        → Authorized auth p p'
    unfolding verify_switch_operation next_epoch
    verify_switch_operation-Authorized auth p p' h =
        let (allowed, h1) = required-ok _ _ _ _ h in
        let (state, read, h2) = continue-ok (get_cluster s p).0 _ _ h1 in
        let (current, h3) = required-ok _ _ _ _ h2 in
        let (found, got, h4) =
          continue-ok (s.client.get (s.prefix <> "/switch-operation") _).0 _ _ h3 in
        authorized auth p p' state found allowed read current got (ap (λ o. o.0) h4)
          (ap (λ (o : Result (Unit {0}) × Process W). o.1.world) h4)
