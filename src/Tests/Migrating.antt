-- ===== src/Tests/Migrating.antt =====
-- A migration of one key into an empty etcd cluster.
use ha.Base.{String, ◌<>◌, ◌≡◌, refl, str_dec, List, [], ◌∷◌, ◌≢◌, ℕ, true}
use ha.Base.Map.{Map, insert}
use ha.Exec.{ok, continue, map_err, require, ok_inj}
use ha.Migration.Occupied.{holds_state, migrate_refuses}
use ha.Migration.{
  Etcd, key_prefix, selected, is_state_key, has_cluster, actual_of, expect_vacant, copy,
  compare_all, migrate_selected, migrate,
}
use ha.Migration.Verified.{Holds, migrate_verified}

abbrev old_cluster : List (String × String)
old_cluster = ("/ha/c/cluster", "state") ∷ ("/ha/c/leader", "k") ∷ []

-- The state is what the destination holds.
abbrev source : Etcd (Map String)
source = record { get_prefix = λ p w. (ok old_cluster, w); put = λ k v w. (ok tt, w) }

abbrev destination : Etcd (Map String)
destination = record { get_prefix = λ p w. (ok w, w); put = λ k v w. (ok tt, insert k v w) }

succeeds : (migrate source destination "c" []).0 ≡ ok 1
unfolding migrate migrate_selected key_prefix selected is_state_key has_cluster actual_of
    expect_vacant copy compare_all continue map_err require str_dec
succeeds = refl

migrate_verified_example :
    (found : List (String × String)) × ((source.get_prefix (key_prefix "c" <> "/") []).0 ≡ ok found)
    × Holds source destination
        (key_prefix "c")
        (selected (key_prefix "c") found)
        (migrate source destination "c" []).1
migrate_verified_example = migrate_verified source destination "c" [] 1 succeeds

abbrev newer_cluster : Map String
newer_cluster = ("/ha/c/cluster", "newer") ∷ []

shows_state :
    (w : Map String) (kvs : List (String × String))
    → w ≡ newer_cluster
    → (destination.get_prefix (key_prefix "c" <> "/") w).0 ≡ ok kvs
    → holds_state (key_prefix "c") kvs ≡ true
unfolding holds_state is_state_key key_prefix str_dec
shows_state w kvs same read = rw (← ok_inj read, same) refl

migrate_refuses_example :
    ((migrate source destination "c" newer_cluster).1 ≡ newer_cluster)
    × ((n : ℕ) → (migrate source destination "c" newer_cluster).0 ≢ ok n)
migrate_refuses_example =
    migrate_refuses source destination "c" (λ w. w ≡ newer_cluster) (λ prefix w h. h)
      (λ prefix w h. h) shows_state newer_cluster refl
