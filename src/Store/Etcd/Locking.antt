-- ===== src/Store/Etcd/Locking.antt =====
-- The lock of `EtcdStore` (internal/store/store.go): sessions and mutexes on every path of `AcquireLock` and
-- `AcquireSwitchLock`, and what their release functions do.
use ha.Base.{String, ◌<>◌, ℕ, ◌≤◌, ◌≡◌, refl, Bool, true, false, arith, Bool-cases, inl, inr}
use ha.Exec.{continue, Result-cases, Result, ok, err, require}
use ha.Exec.Ends.{Ends, after, given, anyhow}
use ha.Model.{SwitchAuthorization}
use ha.Store.Etcd.{
  Session, EtcdStore, Process, do_once, get_cluster, release_etcd_lock, locked_session,
  acquire_etcd_lock, acquire_lock, release_switch_lock, publish, published, acquire_switch_lock,
}

-- A function that runs once changes nothing when it is called again.
pub do_once_twice :
    {W : Type 0} (n : ℕ) (f : W → W) (p : Process W) → do_once n f (do_once n f p) ≡ do_once n f p
unfolding do_once
do_once_twice n f p = elim (Bool-cases (p.fired n)) [
  | inl done ↦ rw (done, done) refl
  | inr fresh ↦ rw fresh (ground arith)
]

module _ {W : Type 0} (s : EtcdStore W) where
  -- How the calls of the client change what is held: nothing, an open session, or the mutex of a session.
  pub record Holding : Type 1 where
    pub Free : W → Type 0
    pub Open : Session → W → Type 0
    pub Locked : Session → W → Type 0
    pub get : (k : String) (w : W) → Free w → Free (s.client.get k w).1
    pub new_session :
        (ttl : ℕ) (w : W)
        → Free w
        → Ends (λ session. Open session) Free (s.client.new_session ttl w)
    pub lock :
        (session : Session) (k : String) (w : W)
        → Open session w
        → Ends (λ _. Locked session) (Open session) (s.client.lock session k w)
    pub put_leased :
        (held session : Session) (k text : String) (w : W)
        → Locked held w
        → Locked held (s.client.put_leased session k text w).1
    pub delete :
        (session : Session) (k : String) (w : W)
        → Locked session w
        → Locked session (s.client.delete k w).1
    pub unlock :
        (session : Session) (k : String) (w : W)
        → Locked session w
        → Open session (s.client.unlock session k w)
    pub close :
        (session : Session) (w : W) → Open session w → Free (s.client.close_session session w)

  -- The `sync.Once` that are still to be made have not fired.
  abbrev pub Fresh : Process W → Type 0
  Fresh p = (n : ℕ) → p.next ≤ n → p.fired n ≡ false

  module _ (h : Holding) where
    -- A lock is held under a session, and its release function gives back both, if it was not called before.
    pub record Held (release : Process W → Process W) (p : Process W) : Type 0 where
      pub session : Session
      pub once : ℕ
      pub locked : h.Locked session p.world
      pub unused : p.fired once ≡ false
      pub gives_back :
          (q : Process W)
          → h.Locked session q.world
          → q.fired once ≡ false
          → h.Free (release q).world

    abbrev FreeAt : Process W → Type 0
    FreeAt p = h.Free p.world

    release-Free :
        (once : ℕ) (session : Session) (q : Process W)
        → h.Locked session q.world
        → q.fired once ≡ false
        → h.Free (release_etcd_lock s once session q).world
    unfolding release_etcd_lock do_once
    release-Free once session q l fresh = rw fresh (h.close session _ (h.unlock session _ _ l))

    locked_session-Held :
        (session : Session) (r : Result (Unit {0})) (p : Process W)
        → Fresh p
        → Ends (λ _. h.Locked session) (h.Open session) (r, p.world)
        → Ends (λ held. Held held.0) FreeAt (locked_session s session r p)
    unfolding locked_session
    locked_session-Held session (ok done) p fresh l = record {
      how = record {
        session = session;
        once = p.next;
        locked = l.how;
        unused = fresh p.next (omega arith);
        gives_back = release-Free p.next session;
      };
    }
    locked_session-Held session (err e) p fresh l = record { how = h.close session p.world l.how }

    -- A call of the client, by what it does outside.
    called :
        {A : Type 0} {Q : A → W → Type 0} {E : W → Type 0} (r : Result A) (w : W) (p : Process W)
        → Fresh p
        → Ends Q E (r, w)
        → Ends {S = Process W}
            (λ a q. Q a q.world × Fresh q)
            (λ q. E q.world)
            (r, record p { world = w })
    called (ok a) w p fresh e = record { how = (e.how, fresh) }
    called (err x) w p fresh e = record { how = e.how }

    acquire_etcd_lock-Held :
        (holder : String) (ttl : ℕ) (p : Process W)
        → Fresh p
        → h.Free p.world
        → Ends (λ held. Held held.0) FreeAt (acquire_etcd_lock s holder ttl p)
    unfolding acquire_etcd_lock
    acquire_etcd_lock-Held holder ttl p fresh free =
        after (λ session q. h.Open session q.world × Fresh q) _ _ _
          (called _ _ p fresh (h.new_session _ p.world free))
          λ session q opened. given _ _ _ (
            locked_session-Held session
              (s.client.lock session (s.prefix <> "/switch-lock/") q.world).0 _ opened.1
              (h.lock session _ q.world opened.0))

    -- From a process that holds nothing, acquiring the lock ends in one that holds nothing, where it fails; or
    -- with the mutex and its session held, and a release function that gives back both.
    pub acquire_lock-Held :
        (holder : String) (ttl : ℕ) (p : Process W)
        → Fresh p
        → h.Free p.world
        → Ends Held FreeAt (acquire_lock s holder ttl p)
    unfolding acquire_lock
    acquire_lock-Held holder ttl p fresh free =
        after (λ held. Held held.0) _ _ _ (acquire_etcd_lock-Held holder ttl p fresh free)
          λ held q kept. record { how = kept }

    publish-Held :
        (release : Process W → Process W) (session : Session) (auth : SwitchAuthorization)
        (p : Process W)
        → Held release p
        → Held release (publish s session auth p).1
    unfolding publish continue
    publish-Held release session auth p held =
        elim (Result-cases (s.formats.authorization.marshal auth)) [
          | inl (text, e) ↦ rw e (record {
            session = held.session;
            once = held.once;
            locked = h.put_leased held.session session _ text p.world held.locked;
            unused = held.unused;
            gives_back = held.gives_back;
          })
          | inr (x, e) ↦ rw e held
        ]

    published-Held :
        (release : Process W → Process W) (r : Result (Unit {0})) (p : Process W)
        → Held release p
        → Ends Held FreeAt (published s release r p)
    unfolding published release_switch_lock
    published-Held release (ok done) p held = record {
      how = record {
        session = held.session;
        once = held.once;
        locked = held.locked;
        unused = held.unused;
        gives_back = λ q l unused. held.gives_back _ (h.delete _ _ q.world l) unused;
      };
    }
    published-Held release (err e) p held = record {
      how = held.gives_back p held.locked held.unused;
    }

    goes_on :
        {A : Type 0} (r : Result A) (p : Process W)
        → h.Free p.world × Fresh p
        → Ends (λ _ q. h.Free q.world × Fresh q) FreeAt (r, p)
    goes_on (ok a) p k = record { how = k }
    goes_on (err e) p k = record { how = k.0 }

    read_cluster :
        (p : Process W)
        → Fresh p
        → h.Free p.world
        → Ends (λ _ q. h.Free q.world × Fresh q) FreeAt (get_cluster s p)
    unfolding get_cluster
    read_cluster p fresh free =
        after (λ _ q. h.Free q.world × Fresh q) _ _ _
          (called _ _ p fresh (anyhow _ _ (h.get _ p.world free))) λ found q k. goes_on _ q k

    guarded :
        (b : Bool) (e : String) (p : Process W)
        → h.Free p.world × Fresh p
        → Ends (λ _ q. h.Free q.world × Fresh q) FreeAt (require b e p)
    unfolding require
    guarded true e p k = record { how = k }
    guarded false e p k = record { how = k.0 }

    -- From a process that holds nothing, acquiring the lock of a switch ends in one that holds nothing, where it
    -- fails, also where only the operation cannot be stored; or with the mutex and its session held, and a
    -- release function that gives back both.
    pub acquire_switch_lock-Held :
        (holder : String) (ttl : ℕ) (auth : SwitchAuthorization) (p : Process W)
        → Fresh p
        → h.Free p.world
        → Ends Held FreeAt (acquire_switch_lock s holder ttl auth p)
    unfolding acquire_switch_lock get_cluster
    acquire_switch_lock-Held holder ttl auth p fresh free =
        after (λ _ q. h.Free q.world × Fresh q) _ _ _ (read_cluster p fresh free)
          λ state q1 h1.
            after (λ _ q. h.Free q.world × Fresh q) _ _ _ (guarded _ _ q1 h1)
              λ _ q2 h2.
                after (λ held. Held held.0) _ _ _ (acquire_etcd_lock-Held holder ttl q2 h2.1 h2.0)
                  λ held q3 kept. given _ _ _ (
                    published-Held held.0 (publish s held.1 auth q3).0 _
                      (publish-Held held.0 held.1 auth q3 kept))
