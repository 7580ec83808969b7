-- ===== src/Controller/Probe/Alternation.antt =====
-- The alerts of one node over many rounds of `probe` (internal/ha/controller.go).
use ha.Base.{
  String, ◌≡◌, refl, ap, Bool, true, not, List, [], ◌∷◌, ◌++◌, arith, Bool-cases, inl, inr, ◌==◌,
  if◌then◌else◌,
}
use ha.Base.Int.{ℤ}
use ha.Base.Map.{Map, lookup, lookup-insert, lookup-erase}
use ha.Model.{NodeStatus, AlertEvent}
use ha.Controller.{State, Services}
use ha.Controller.Probe.{probe_node, probe_nodes, is_alerted, watch, raised, recovered}

-- For each event of a node whether it resolves the alert.
abbrev pub marks : String → List AlertEvent → List Bool
marks id [] = []
marks id (e ∷ events) =
    let rest = marks id events in if e.node_id == id then e.resolved ∷ rest else rest

-- From alerted or not to alerted or not: an event resolves where the node is alerted and raises where it is
-- not, and turns the one into the other.
abbrev pub Alternates : Bool → List Bool → Bool → Type 0
Alternates before [] after = before ≡ after
Alternates before (mark ∷ marks) after = (mark ≡ before) × Alternates (not before) marks after

Alternates-append :
    (a b c : Bool) (xs ys : List Bool)
    → Alternates a xs b
    → Alternates b ys c
    → Alternates a (xs ++ ys) c
Alternates-append a b c [] ys h k = rw h k
Alternates-append a b c (x ∷ xs) ys h k = (h.0, Alternates-append (not a) b c xs ys h.1 k)

marks-append :
    (id : String) (xs ys : List AlertEvent) → marks id (xs ++ ys) ≡ marks id xs ++ marks id ys
marks-append id [] ys = refl
marks-append id (e ∷ xs) ys = elim (Bool-cases (e.node_id == id)) [
  | inl own ↦ rw own (ap (λ rest. e.resolved ∷ rest) (marks-append id xs ys))
  | inr other ↦ rw other (marks-append id xs ys)
]

alerted_in : String → Map Bool → Bool
alerted_in id m = is_alerted (lookup id m)

watch-Alternates :
    (threshold : ℤ) (id j : String) (s : NodeStatus) (m : Map Bool)
    → Alternates
        (alerted_in id m)
        (marks id (watch threshold j s m).1)
        (alerted_in id (watch threshold j s m).0)
unfolding watch alerted_in raised recovered
watch-Alternates threshold id j s m = ground (arith, lookup-insert id j true m, lookup-erase id j m)

module _ {W : Type 0} (sv : Services W) where
  abbrev pub alerted : String → State W → Bool
  alerted id s = is_alerted (lookup id s.ctl.alerted_nodes)

  probe_node-Alternates :
      (id j : String) (s : State W)
      → Alternates
          (alerted id s)
          (marks id (probe_node sv j s).0)
          (alerted id (probe_node sv j s).1)
  unfolding probe_node alerted_in
  probe_node-Alternates id j s =
      watch-Alternates s.ctl.cfg.failure_threshold id j _ s.ctl.alerted_nodes

  probe_nodes-Alternates :
      (id : String) (ids : List String) (s : State W)
      → Alternates
          (alerted id s)
          (marks id (probe_nodes sv ids s).0)
          (alerted id (probe_nodes sv ids s).1)
  unfolding probe_nodes
  probe_nodes-Alternates id [] s = refl
  probe_nodes-Alternates id (j ∷ ids) s =
      let (events, t) = probe_node sv j s in
      rw (marks-append id events (probe_nodes sv ids t).0) (
        Alternates-append (alerted id s) (alerted id t) _ (marks id events) _
          (probe_node-Alternates id j s) (probe_nodes-Alternates id ids t))

  -- The first loop of `probe`, once for each of these changes of the outside, which come before it.
  unfoldable pub rounds : List (W → W) → State W → List AlertEvent × State W
  rounds [] s = ([], s)
  rounds (meanwhile ∷ more) s =
      let (events, t) = probe_nodes sv s.ctl.clients (record s { world = meanwhile s.world }) in
      let (later, u) = rounds more t in (events ++ later, u)

  -- Over any number of rounds, and whatever the nodes report, the events of a node alternate: an alert is raised
  -- only where the node is not alerted, which it is then, and resolved only where it is, which it then is not.
  pub rounds-Alternates :
      (id : String) (changes : List (W → W)) (s : State W)
      → Alternates (alerted id s) (marks id (rounds changes s).0) (alerted id (rounds changes s).1)
  unfolding rounds
  rounds-Alternates id [] s = refl
  rounds-Alternates id (meanwhile ∷ more) s =
      let (events, t) = probe_nodes sv s.ctl.clients (record s { world = meanwhile s.world }) in
      rw (marks-append id events (rounds more t).0) (
        Alternates-append (alerted id s) (alerted id t) _ (marks id events) _
          (probe_nodes-Alternates id s.ctl.clients _) (rounds-Alternates id more t))
