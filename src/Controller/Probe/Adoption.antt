-- ===== src/Controller/Probe/Adoption.antt =====
-- The primary that `probe` adopts where none is recorded (`detectPrimary`, internal/ha/controller.go).
use mathlib.Core.List.{Memᴰ}
use mathlib.Core.Logic.{if_pos}
use ha.Base.{
  String, ◌≡◌, ◌⊎◌, inl, inr, refl, ap, ◌∙◌, Bool, true, false, ◌&&◌, ◌==◌, [], ◌∷◌, Bool-cases,
}
use ha.Base.Map.{Map}
use ha.Model.{Time, NodeStatus, ClusterState, role_primary}
use ha.Controller.{Services, State}
use ha.Controller.Probe.{detect_primary, adopt_primary}

-- The last status of the node says that it is healthy and the primary.
abbrev pub is_primary : NodeStatus → Bool
is_primary s = s.healthy && s.role == role_primary

-- A node that is a healthy primary, or no node where none is.
abbrev pub IsDetected : Map NodeStatus → String → Type 0
IsDetected m p =
    ((s : NodeStatus) × Memᴰ (p, s) m × (is_primary s ≡ true))
    ⊎ ((p ≡ "") × ((id : String) (s : NodeStatus) → Memᴰ (id, s) m → is_primary s ≡ false))

later :
    (id p : String) (s : NodeStatus) (rest : Map NodeStatus)
    → is_primary s ≡ false
    → IsDetected rest p
    → IsDetected ((id, s) ∷ rest) p
later id p s rest no_primary (inl (found, m, primary)) = inl (found, Memᴰ.tail m, primary)
later id p s rest no_primary (inr (empty, none_found)) = inr (empty, only)
  where
    only : (i : String) (t : NodeStatus) → Memᴰ (i, t) ((id, s) ∷ rest) → is_primary t ≡ false
    only i t (Memᴰ.head e) = ap (λ (x : String × NodeStatus). is_primary x.1) e ∙ no_primary
    only i t (Memᴰ.tail m) = none_found i t m

detect_primary-IsDetected : (m : Map NodeStatus) → IsDetected m (detect_primary m)
unfolding detect_primary
detect_primary-IsDetected [] = inr (refl, λ id s m. elim m [ ])
detect_primary-IsDetected ((id, s) ∷ rest) = elim (Bool-cases (is_primary s)) [
  | inl primary ↦ rw primary (inl (s, Memᴰ.head refl, primary))
  | inr other ↦
      rw other (later id (detect_primary rest) s rest other (detect_primary-IsDetected rest))
]

module _ {W : Type 0} (sv : Services W) where
  -- The record names a healthy primary of the statuses, or none where there is none, and is stored as it is.
  pub record Adopted (state : ClusterState) (s : State W) (o : ClusterState × State W)
      : Type 0 where
    pub updated : Time
    pub detected : IsDetected s.ctl.statuses o.0.primary
    pub only_primary : o.0 ≡ record state { primary = o.0.primary; updated_at = updated }
    pub stored : o.1.world ≡ (sv.store.put_cluster o.0 (sv.now s.world).1).1
    pub controller : o.1.ctl ≡ s.ctl

  -- Where the record names no primary, `probe` stores it with a node that the statuses show as a healthy
  -- primary, or again with none where there is no such node, and changes nothing else of it but its time.
  pub adopt_primary-Adopted :
      (quote : String → String) (state : ClusterState) (s : State W)
      → state.primary ≡ ""
      → Adopted state s (adopt_primary sv quote state s)
  unfolding adopt_primary
  adopt_primary-Adopted quote state s empty = rw (if_pos _ empty) (record {
    updated = (sv.now s.world).0;
    detected = detect_primary-IsDetected s.ctl.statuses;
    only_primary = refl;
    stored = refl;
    controller = refl;
  })
