-- ===== src/Migration/Verified.antt =====
-- What a migration that reports success has done (cmd/state-migrate/main.go).
use ha.Base.{String, ◌<>◌, ℕ, ◌≡◌, refl, List, [], ◌∷◌, All, ==_iff, ◌∙◌}
use ha.Base.Map.{Map, lookup}
use ha.Exec.{err≢ok, Result, ok, err, map_err, continue}
use ha.Exec.Ends.{Ends, after, wrapped, checked, anyhow}
use ha.Migration.{
  Etcd, key_prefix, selected, actual_of, or_empty, compare_all, migrate_selected, migrate,
}

abbrev Nothing : {W : Type 0} → W → Type 0
Nothing w = Unit

weaker :
    {W A : Type 0} {Q R : A → W → Type 0} {E : W → Type 0} (r : Result A) (w : W)
    → ((a : A) (v : W) → Q a v → R a v)
    → Ends Q E (r, w)
    → Ends R E (r, w)
weaker (ok a) w k h = record { how = k a w h.how }
weaker (err e) w k h = record { how = h.how }

success :
    {W A : Type 0} {P E : W → Type 0} {a : A} (r : Result A) (w : W)
    → r ≡ ok a
    → Ends (λ _. P) E (r, w)
    → P w
success (ok a) w e h = h.how
success (err x) w e h = absurd (err≢ok e)

module _ {W : Type 0} (source destination : Etcd W) where
  -- A read of the destination that holds the entries, as Go's map of them gives the values.
  pub data Holds (prefix : String) (entries : List (String × String)) (w : W) : Type 0 where
    holds :
        (before : W) (written : List (String × String))
        → destination.get_prefix (prefix <> "/") before ≡ (ok written, w)
        → All (λ kv. or_empty (lookup kv.0 (actual_of written [])) ≡ kv.1) entries
        → Holds prefix entries w

  read :
      (before : W) (prefix : String) (r : Result (List (String × String))) (w : W)
      → destination.get_prefix (prefix <> "/") before ≡ (r, w)
      → Ends
          (λ written v. destination.get_prefix (prefix <> "/") before ≡ (ok written, v))
          Nothing
          (r, w)
  read before prefix (ok written) w e = record { how = e }
  read before prefix (err x) w e = record { how = tt }

  compare_all-Ends :
      (actual : Map String) (entries : List (String × String)) (w : W)
      → Ends
          (λ _ v. (v ≡ w) × All (λ kv. or_empty (lookup kv.0 actual) ≡ kv.1) entries)
          Nothing
          (compare_all source destination actual entries w)
  unfolding compare_all
  compare_all-Ends actual [] w = record { how = (refl, tt) }
  compare_all-Ends actual ((key, value) ∷ kvs) w =
      after (λ _ t. (t ≡ w) × (or_empty (lookup key actual) ≡ value)) _ _ _
        (checked _ _ _ _ w (λ same. (refl, (==_iff _ _).0 same)) tt)
        λ _ t h. weaker _ _ (λ _ v k. (k.0 ∙ h.0, (h.1, k.1))) (compare_all-Ends actual kvs t)

  migrate_selected-Ends :
      (prefix : String) (chosen : List (String × String)) (w : W)
      → Ends
          (λ _. Holds prefix chosen)
          Nothing
          (migrate_selected source destination prefix chosen w)
  unfolding migrate_selected
  migrate_selected-Ends prefix chosen w =
      after (λ _. Nothing) _ _ _ (anyhow _ _ tt)
        λ _ s1 _.
          after (λ _. Nothing) _ _ _ (anyhow _ _ tt)
            λ there s2 _.
              after (λ _. Nothing) _ _ _ (anyhow _ _ tt)
                λ _ s3 _.
                  after (λ _. Nothing) _ _ _ (anyhow _ _ tt)
                    λ _ s4 _.
                      after (λ _. Nothing) _ _ _ (anyhow _ _ tt)
                        λ _ s5 _.
                          after
                            (λ written v.
                              destination.get_prefix (prefix <> "/") s5 ≡ (ok written, v))
                            _ _ _ (wrapped _ _ (read s5 prefix _ _ refl))
                            λ written s6 got.
                              after
                                (λ _ v.
                                  (v ≡ s6)
                                  × All (λ kv. or_empty (lookup kv.0 (actual_of written [])) ≡ kv.1)
                                      chosen)
                                _ _ _ (compare_all-Ends (actual_of written []) chosen s6)
                                λ _ s7 h. record { how = rw h.0 (holds s5 written got h.1) }

  -- From the source's answer on.
  from_source : String → Result (List (String × String)) → W → Result ℕ × W
  from_source prefix r v =
      continue (map_err (λ e. "read source: " <> e) r)
        (λ found. migrate_selected source destination prefix (selected prefix found)) v

  from_source-Holds :
      (prefix : String) (n : ℕ) (r : Result (List (String × String))) (v : W)
      → (from_source prefix r v).0 ≡ ok n
      → (found : List (String × String)) × (r ≡ ok found)
        × Holds prefix (selected prefix found) (from_source prefix r v).1
  unfolding from_source continue map_err
  from_source-Holds prefix n (ok found) v e =
      (found, refl, success _ _ e (migrate_selected-Ends prefix (selected prefix found) v))
  from_source-Holds prefix n (err x) v e = absurd (err≢ok e)

  -- A migration that succeeds has read the destination at its end, and every entry that was selected from the
  -- source is there with its value; a missing entry counts as an empty value.
  pub migrate_verified :
      (name : String) (w : W) (n : ℕ)
      → (migrate source destination name w).0 ≡ ok n
      → (found : List (String × String)) × ((source.get_prefix (key_prefix name <> "/") w).0
          ≡ ok found)
        × Holds
            (key_prefix name)
            (selected (key_prefix name) found)
            (migrate source destination name w).1
  unfolding migrate from_source
  migrate_verified name w n h =
      from_source-Holds (key_prefix name) n (source.get_prefix (key_prefix name <> "/") w).0
        (source.get_prefix (key_prefix name <> "/") w).1 h
