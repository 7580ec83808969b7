-- ===== src/Migration.antt =====
-- The migration of the cluster's state between two etcd clusters (cmd/state-migrate/main.go). The clients are
-- parameters; `log.Fatal` is an error, after which nothing more is done.
pub mod Verified
pub mod Occupied
use text.Mathlib.Text
use ha.Base.{
  String, ◌<>◌, ℕ, Bool, true, false, not, ◌||◌, Option, none, some, List, [], ◌∷◌, length,
  if◌then◌else◌, ◌==◌,
}
use ha.Base.Map.{Map, lookup, insert}
use ha.Base.Strings.{split, trim_space}
use ha.Exec.{Exec, pure, fail, wrap, require, ◌>>=◌, ◌>>◌}

-- What the program calls of `clientv3.Client`: `Get` with a prefix, and `Put`.
pub record Etcd (W : Type 0) : Type 0 where
  pub get_prefix : String → Exec W (List (String × String))
  pub put : String → String → Exec W (Unit {0})

-- The non-empty parts of `split`; the program stops where there is none. A comma is 44.
unfoldable pub non_empty : List String → List String
unfolding trim_space
non_empty [] = []
non_empty (part ∷ parts) =
    let rest = non_empty parts in
    let value = trim_space part in if value == "" then rest else value ∷ rest

unfoldable pub endpoints : String → List String
unfolding non_empty split
endpoints value = non_empty (split 44 value)

unfoldable pub is_state_key : String → String → Bool
is_state_key prefix key = key == prefix <> "/cluster" || Text.starts_with key (prefix <> "/tasks/")

unfoldable pub selected : String → List (String × String) → List (String × String)
unfolding is_state_key
selected prefix [] = []
selected prefix ((key, value) ∷ kvs) =
    let rest = selected prefix kvs in if is_state_key prefix key then (key, value) ∷ rest else rest

abbrev is_empty : List (String × String) → Bool
is_empty [] = true
is_empty (kv ∷ kvs) = false

unfoldable pub has_cluster : String → List (String × String) → Bool
has_cluster prefix [] = false
has_cluster prefix ((key, value) ∷ kvs) = key == prefix <> "/cluster" || has_cluster prefix kvs

-- `actual`
unfoldable pub actual_of : List (String × String) → Map String → Map String
actual_of [] m = m
actual_of ((key, value) ∷ kvs) m = actual_of kvs (insert key value m)

-- `actual[key]`, which is empty where the key is missing.
abbrev pub or_empty : Option String → String
or_empty none = ""
or_empty (some value) = value

-- The prefix of the cluster's keys.
unfoldable pub key_prefix : String → String
key_prefix name = "/ha/" <> (if name == "" then "mysql-ha" else name)

module _ {W : Type 0} (source destination : Etcd W) where
  -- The destination may hold no state yet.
  unfoldable pub expect_vacant : String → List (String × String) → Exec W (Unit {0})
  expect_vacant prefix [] = pure tt
  expect_vacant prefix ((key, value) ∷ kvs) =
      let rest = expect_vacant prefix kvs in
      if is_state_key prefix key
      then fail ("destination already contains HA state at " <> key)
      else rest

  unfoldable pub copy : List (String × String) → Exec W (Unit {0})
  copy [] = pure tt
  copy ((key, value) ∷ kvs) =
      let rest = copy kvs in
      do
        wrap (λ e. "write destination key " <> (key <> (": " <> e))) (destination.put key value)
        rest

  unfoldable pub compare_all : Map String → List (String × String) → Exec W (Unit {0})
  compare_all actual [] = pure tt
  compare_all actual ((key, value) ∷ kvs) =
      let rest = compare_all actual kvs in
      do
        require (or_empty (lookup key actual) == value)
            ("destination verification failed at " <> key)
        rest

  -- From the selected entries on.
  unfoldable pub migrate_selected : String → List (String × String) → Exec W ℕ
  migrate_selected prefix chosen = do
    require (not (is_empty chosen)) "source has no cluster state or task history"
    there ← wrap (λ e. "read destination: " <> e) (destination.get_prefix (prefix <> "/"))
    expect_vacant prefix there
    require (has_cluster prefix chosen) "source cluster state key is missing"
    copy chosen
    written ← wrap (λ e. "verify destination: " <> e) (destination.get_prefix (prefix <> "/"))
    compare_all (actual_of written []) chosen
    pure (length chosen)

  -- `main`: the number of keys that were migrated.
  unfoldable pub migrate : String → Exec W ℕ
  migrate name = do
    let prefix = key_prefix name
    found ← wrap (λ e. "read source: " <> e) (source.get_prefix (prefix <> "/"))
    migrate_selected prefix (selected prefix found)
