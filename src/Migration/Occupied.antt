-- ===== src/Migration/Occupied.antt =====
-- A migration whose destination already holds state (cmd/state-migrate/main.go).
use ha.Base.{
  String, ◌<>◌, ℕ, ◌≡◌, ◌≢◌, refl, Bool, true, false, ◌||◌, List, [], ◌∷◌, Bool-cases, inl, inr,
}
use ha.Exec.{Result, ok, err}
use ha.Exec.Keeps.{Keeps}
use ha.Exec.Ends.{Ends, after, wrapped, required}
use ha.Migration.{
  Etcd, key_prefix, is_state_key, selected, expect_vacant, migrate_selected, migrate,
}

-- Some entry is the cluster record or a task.
unfoldable pub holds_state : String → List (String × String) → Bool
holds_state prefix [] = false
holds_state prefix ((key, value) ∷ kvs) = is_state_key prefix key || holds_state prefix kvs

module _ {W : Type 0} (source destination : Etcd W) (name : String) (P : W → Type 0)
    (source_keeps : (prefix : String) → Keeps P (source.get_prefix prefix))
    (destination_keeps : (prefix : String) → Keeps P (destination.get_prefix prefix))
    (occupied : (w : W) (kvs : List (String × String))
      → P w
      → (destination.get_prefix (key_prefix name <> "/") w).0 ≡ ok kvs
      → holds_state (key_prefix name) kvs ≡ true) where
  -- The call fails, and `P` holds then.
  abbrev Fails : {A : Type 0} → Result A × W → Type 0
  Fails o = Ends (λ _ _. ⊥) P o

  expect_vacant-Fails :
      (prefix : String) (kvs : List (String × String)) (w : W)
      → holds_state prefix kvs ≡ true
      → P w
      → Fails (expect_vacant source destination prefix kvs w)
  unfolding expect_vacant holds_state
  expect_vacant-Fails prefix [] w holds h = cc
  expect_vacant-Fails prefix ((key, value) ∷ kvs) w holds h =
      elim (Bool-cases (is_state_key prefix key)) [
        | inl state ↦ rw state (record { how = h })
        | inr other ↦ rw other (expect_vacant-Fails prefix kvs w (rw other at holds) h)
      ]

  seen :
      (w : W) (r : Result (List (String × String)))
      → (destination.get_prefix (key_prefix name <> "/") w).0 ≡ r
      → P w
      → P (destination.get_prefix (key_prefix name <> "/") w).1
      → Ends
          (λ kvs v. P v × (holds_state (key_prefix name) kvs ≡ true))
          P
          (r, (destination.get_prefix (key_prefix name <> "/") w).1)
  seen w (ok kvs) e h k = record { how = (k, occupied w kvs h e) }
  seen w (err x) e h k = record { how = k }

  read : (w : W) (r : Result (List (String × String))) → P w → Ends (λ _. P) P (r, w)
  read w (ok kvs) h = record { how = h }
  read w (err x) h = record { how = h }

  migrate_selected-Fails :
      (chosen : List (String × String)) (w : W)
      → P w
      → Fails (migrate_selected source destination (key_prefix name) chosen w)
  unfolding migrate_selected
  migrate_selected-Fails chosen w h = after _ _ _ _ (required P P _ _ w (λ k. k) h) λ _ w1 h1.
      after (λ kvs v. P v × (holds_state (key_prefix name) kvs ≡ true)) _ _ _
        (wrapped _ _ (seen w1 _ refl h1.0 (destination_keeps _ w1 h1.0)))
        λ kvs w2 h2.
          after (λ _ _. ⊥) _ _ _ (expect_vacant-Fails (key_prefix name) kvs w2 h2.1 h2.0)
            λ _ _ impossible. absurd impossible

  migrate-Fails : (w : W) → P w → Fails (migrate source destination name w)
  unfolding migrate
  migrate-Fails w h =
      after (λ _. P) _ _ _
        (wrapped _ _ (read _ (source.get_prefix (key_prefix name <> "/") w).0 (source_keeps _ w h)))
        λ found w1 h1. migrate_selected-Fails (selected (key_prefix name) found) w1 h1

  -- Where reads keep a fact of the state, under which the destination shows a cluster record or a task: a migration
  -- fails, and the fact still holds, so that nothing was written that could undo it.
  pub migrate_refuses :
      (w : W)
      → P w
      → P (migrate source destination name w).1
        × ((n : ℕ) → (migrate source destination name w).0 ≢ ok n)
  migrate_refuses w h = go _ _ (migrate-Fails w h)
    where
      go : (r : Result ℕ) (v : W) → Fails (r, v) → P v × ((n : ℕ) → r ≢ ok n)
      go (ok n) v f = absurd f.how
      go (err x) v f = (f.how, λ n same. cc)
