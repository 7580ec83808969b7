-- ===== src/Store/Etcd/Onward.antt =====
-- Facts that every call of a client of etcd keeps are kept by the operations of `EtcdStore` (internal/store/store.go)
-- that a switch calls, and by the release function of its lock.
use mathlib.Core.Path.{subst}
use ha.Base.{◌≡◌, String, ℕ, Bool-cases, inl, inr}
use ha.Exec.{Result, ok, err}
use ha.Exec.Ends.{Ends, after, given, anyhow}
use ha.Exec.Keeps.{Keeps, continue-Keeps, require-Keeps}
use ha.Model.{ClusterState, SwitchAuthorization, SwitchTask}
use ha.Store.Etcd.{
  Session, Comparison, EtcdStore, Process, do_once, get_cluster, put_cluster_if_epoch, put_task,
  release_etcd_lock, locked_session, acquire_etcd_lock, release_switch_lock, publish, published,
  acquire_lock, acquire_switch_lock,
}

module _ {W : Type 0} (s : EtcdStore W) (P : W → Type 0) where
  -- `P` survives every call of the client.
  pub record Passing : Type 0 where
    pub get : (k : String) → Keeps P (s.client.get k)
    pub put : (k text : String) → Keeps P (s.client.put k text)
    pub put_leased :
        (session : Session) (k text : String) → Keeps P (s.client.put_leased session k text)
    pub put_if : (c : Comparison) (k text : String) → Keeps P (s.client.put_if c k text)
    pub delete : (k : String) → Keeps P (s.client.delete k)
    pub new_session : (ttl : ℕ) → Keeps P (s.client.new_session ttl)
    pub lock : (session : Session) (k : String) → Keeps P (s.client.lock session k)
    pub unlock : (session : Session) (k : String) (w : W) → P w → P (s.client.unlock session k w)
    pub close : (session : Session) (w : W) → P w → P (s.client.close_session session w)

  abbrev At : Process W → Type 0
  At p = P p.world

  -- `P` holds where it held at first, and the release function keeps it in any case.
  module _ (Held : Type 0) where
    abbrev pub Still : Process W → Type 0
    Still p = Held → At p

    abbrev pub Gives : (Process W → Process W) → Process W → Type 0
    Gives release p = Still p × ((q : Process W) → At q → At (release q))

  module _ (passing : Passing) where
    pub get_cluster-Keeps : Keeps At (get_cluster s)
    unfolding get_cluster
    get_cluster-Keeps p h = continue-Keeps At _ _ _ (passing.get _ p.world h) λ found q k. k

    pub put_cluster_if_epoch-Keeps :
        (expected : ℕ) (c : ClusterState) → Keeps At (put_cluster_if_epoch s expected c)
    unfolding put_cluster_if_epoch
    put_cluster_if_epoch-Keeps expected c p h =
        continue-Keeps At _ _ _ (passing.get _ p.world h) λ found q k.
          continue-Keeps At _ _ q k λ comparison q1 k1. continue-Keeps At _ _ q1 k1 λ text q2 k2.
            continue-Keeps At _ _ _ (passing.put_if _ _ _ q2.world k2)
              λ succeeded. require-Keeps At _ _

    pub put_task-Keeps : (task : SwitchTask) → Keeps At (put_task s task)
    unfolding put_task
    put_task-Keeps task p h = continue-Keeps At _ _ p h λ text q k. passing.put _ _ q.world k

    released :
        (once : ℕ) (session : Session) (q : Process W)
        → At q
        → At (release_etcd_lock s once session q)
    unfolding release_etcd_lock do_once
    released once session q h = elim (Bool-cases (q.fired once)) [
      | inl done ↦ rw done h
      | inr fresh ↦ rw fresh (passing.close session _ (passing.unlock session _ q.world h))
    ]

    publish-Keeps :
        (session : Session) (auth : SwitchAuthorization) → Keeps At (publish s session auth)
    unfolding publish
    publish-Keeps session auth p h =
        continue-Keeps At _ _ p h λ text q k. passing.put_leased _ _ _ q.world k

    module _ (Held : Type 0) where
      locked_session-Gives :
          (session : Session) (r : Result (Unit {0})) (p : Process W)
          → Still Held p
          → Ends (λ held. Gives Held held.0) (Still Held) (locked_session s session r p)
      unfolding locked_session
      locked_session-Gives session (ok done) p h = record { how = (h, released p.next session) }
      locked_session-Gives session (err e) p h = record {
        how = λ i. passing.close session p.world (h i);
      }

      acquire_etcd_lock-Gives :
          (holder : String) (ttl : ℕ) (p : Process W)
          → Still Held p
          → Ends (λ held. Gives Held held.0) (Still Held) (acquire_etcd_lock s holder ttl p)
      unfolding acquire_etcd_lock
      acquire_etcd_lock-Gives holder ttl p h =
          after (λ _. Still Held) _ _ _ (anyhow _ _ (λ i. passing.new_session _ p.world (h i)))
            λ session q k.
              given _ _ _
                (locked_session-Gives session _ _ (λ i. passing.lock session _ q.world (k i)))

      pub acquire_lock-Gives :
          (holder : String) (ttl : ℕ) (p : Process W)
          → Still Held p
          → Ends (Gives Held) (Still Held) (acquire_lock s holder ttl p)
      unfolding acquire_lock
      acquire_lock-Gives holder ttl p h =
          after (λ held. Gives Held held.0) _ _ _ (acquire_etcd_lock-Gives holder ttl p h)
            λ held q k. record { how = k }

      published-Gives :
          (release : Process W → Process W) (r : Result (Unit {0})) (p : Process W)
          → Gives Held release p
          → Ends (Gives Held) (Still Held) (published s release r p)
      unfolding published release_switch_lock
      published-Gives release (ok done) p (h, gives) = record {
        how = (h, λ q k. gives _ (passing.delete _ q.world k));
      }
      published-Gives release (err e) p (h, gives) = record { how = λ i. gives p (h i) }

      pub acquire_switch_lock-Gives :
          (holder : String) (ttl : ℕ) (auth : SwitchAuthorization) (p : Process W)
          → Still Held p
          → Ends (Gives Held) (Still Held) (acquire_switch_lock s holder ttl auth p)
      unfolding acquire_switch_lock
      acquire_switch_lock-Gives holder ttl auth p h =
          after (λ _. Still Held) _ _ _ (anyhow _ _ (λ i. get_cluster-Keeps p (h i)))
            λ state q1 k1.
              after (λ _. Still Held) _ _ _ (anyhow _ _ (λ i. require-Keeps At _ _ q1 (k1 i)))
                λ _ q2 k2.
                  after (λ held. Gives Held held.0) _ _ _ (acquire_etcd_lock-Gives holder ttl q2 k2)
                    λ held q3 k3. given _ _ _ (
                      published-Gives held.0 _ _ (λ i. publish-Keeps held.1 auth q3 (k3.0 i), k3.1))

-- What the calls leave and what the release functions of the locks keep.
module _ {W : Type 0} (s : EtcdStore W) (P : W → Type 0) (passing : Passing s P) where
  still :
      {Held : Type 0} (r : Result (Process W → Process W)) (q : Process W)
      → Ends (Gives s P Held) (Still s P Held) (r, q)
      → Held
      → P q.world
  still (ok release) q h i = h.how.0 i
  still (err e) q h i = h.how i

  gives :
      (o : Result (Process W → Process W) × Process W) (release : Process W → Process W)
      (q : Process W)
      → o ≡ (ok release, q)
      → Ends (Gives s P ⊥) (Still s P ⊥) o
      → (u : Process W) → P u.world
      → P (release u).world
  gives o release q e h = (subst (Ends (Gives s P ⊥) (Still s P ⊥)) e h).how.1

  pub acquire_lock-Keeps :
      (holder : String) (ttl : ℕ) (p : Process W)
      → P p.world
      → P (acquire_lock s holder ttl p).1.world
  acquire_lock-Keeps holder ttl p h =
      still _ _ (acquire_lock-Gives s P passing (Unit {0}) holder ttl p (λ _. h)) tt

  pub acquire_switch_lock-Keeps :
      (holder : String) (ttl : ℕ) (auth : SwitchAuthorization) (p : Process W)
      → P p.world
      → P (acquire_switch_lock s holder ttl auth p).1.world
  acquire_switch_lock-Keeps holder ttl auth p h =
      still _ _ (acquire_switch_lock-Gives s P passing (Unit {0}) holder ttl auth p (λ _. h)) tt

  pub release_lock-Keeps :
      (holder : String) (ttl : ℕ) (p q : Process W) (release : Process W → Process W)
      → acquire_lock s holder ttl p ≡ (ok release, q)
      → (u : Process W) → P u.world
      → P (release u).world
  release_lock-Keeps holder ttl p q release e =
      gives _ release q e (acquire_lock-Gives s P passing ⊥ holder ttl p (λ i. absurd i))

  pub release_switch_lock-Keeps :
      (holder : String) (ttl : ℕ) (auth : SwitchAuthorization) (p q : Process W)
      (release : Process W → Process W)
      → acquire_switch_lock s holder ttl auth p ≡ (ok release, q)
      → (u : Process W) → P u.world
      → P (release u).world
  release_switch_lock-Keeps holder ttl auth p q release e =
      gives _ release q e
        (acquire_switch_lock-Gives s P passing ⊥ holder ttl auth p (λ i. absurd i))
