-- ===== src/Store/Backend.antt =====
-- What `EtcdStore` (internal/store/store.go) calls of etcd and of JSON, and the state of a process around it.
use ha.Base.{String, ℕ, ◌≡◌, Bool, Option, List}
use ha.Exec.{Result, ok, Exec}
use ha.Model.{ClusterState, SwitchAuthorization, SwitchTask}

-- `mvccpb.KeyValue`, as far as the store reads it.
pub record KeyValue : Type 0 where
  pub value : String
  pub mod_revision : ℕ

-- `clientv3.Compare(clientv3.Version(key), "=", 0)` and `Compare(ModRevision(key), "=", revision)`
pub data Comparison : Type 0 where
  absent : Comparison
  unmodified : ℕ → Comparison

-- A session is named by its lease.
abbrev pub Session : Type 0
Session = ℕ

-- What the store calls of `clientv3` and `concurrency`. `put_if` is a transaction of one comparison and one
-- put of the same key, and tells whether it succeeded; `latest` is `Get` with a prefix, the last modified
-- first; `sleep` waits a second.
pub record Client (W : Type 0) : Type 0 where
  pub get : String → Exec W (Option KeyValue)
  pub latest : String → Exec W (List KeyValue)
  pub put : String → String → Exec W (Unit {0})
  pub put_leased : Session → String → String → Exec W (Unit {0})
  pub delete : String → Exec W (Unit {0})
  pub put_if : Comparison → String → String → Exec W Bool
  pub new_session : ℕ → Exec W Session
  pub close_session : Session → W → W
  pub lock : Session → String → Exec W (Unit {0})
  pub unlock : Session → String → W → W
  pub campaign : Session → String → String → Exec W (Unit {0})
  pub resign : Session → String → W → W
  pub status : String → Exec W (Unit {0})
  pub ctx_err : W → Option String
  pub sleep : W → W

-- `json.Marshal` and `json.Unmarshal` of a type.
pub record Json (A : Type 0) : Type 0 where
  pub marshal : A → Result String
  pub unmarshal : String → Result A

-- What JSON documents of the stored records: a text that was written is read back.
pub record RoundTrips {A : Type 0} (j : Json A) : Type 0 where
  pub read_back : (a : A) (t : String) → j.marshal a ≡ ok t → j.unmarshal t ≡ ok a

pub record Formats : Type 0 where
  pub cluster : Json ClusterState
  pub authorization : Json SwitchAuthorization
  pub task : Json SwitchTask

-- `next` numbers the `sync.Once` values, and `fired` tells which have run.
pub record Process (W : Type 0) : Type 0 where
  pub world : W
  pub fired : ℕ → Bool
  pub next : ℕ
