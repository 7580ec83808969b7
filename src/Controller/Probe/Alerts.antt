-- ===== src/Controller/Probe/Alerts.antt =====
-- When a node is reported (internal/ha/controller.go, `probe` and `failureAlert`).
use text.Mathlib.TextEquality.{eq_iff}
use ha.Base.{
  String, ◌≡◌, ◌≢◌, ◌↔◌, inl, inr, Bool, true, false, List, [], ◌∷◌, arith, Bool-cases, sym, ◌∙◌,
  ◌==◌, if◌then◌else◌,
}
use ha.Base.Int.{ℤ, pos, ◌<ℤ◌, ◌≤ℤ◌, leb_ℤ}
use ha.Base.Map.{Map, lookup, insert, erase, lookup-insert, lookup-erase}
use ha.Model.{NodeStatus, AlertEvent, role_replica}
use ha.Controller.Probe.{
  is_alerted, watch, raised, recovered, failure_alert, failure_message, only_io_stopped,
}

-- What one look at a node does to the alerts: nothing; or it raises the alert of a node that was not
-- alerted, and the node is alerted then; or it resolves the alert of one that was, and it is not any more.
pub data Reported (id : String) (s : NodeStatus) (alerted : Map Bool)
    : Map Bool × List AlertEvent → Type 0 where
  quiet : Reported id s alerted (alerted, [])
  up :
      (m : Map Bool)
      → is_alerted (lookup id alerted) ≡ false
      → is_alerted (lookup id m) ≡ true
      → Reported id s alerted (m, raised id s ∷ [])
  down :
      (m : Map Bool)
      → s.healthy ≡ true
      → is_alerted (lookup id alerted) ≡ true
      → is_alerted (lookup id m) ≡ false
      → Reported id s alerted (m, recovered id s ∷ [])

reported :
    (threshold : ℤ) (id : String) (s : NodeStatus) (alerted : Map Bool)
    → Reported id s alerted (watch threshold id s alerted)
unfolding watch
reported threshold id s alerted = elim (Bool-cases (is_alerted (lookup id alerted))) [
  | inl known ↦ elim (Bool-cases s.healthy) [
    | inl well ↦
        is _ (ground arith)
          (down (erase id alerted) well known (ground (arith, lookup-erase id id alerted)))
    | inr ill ↦ is _ (ground arith) quiet
  ]
  | inr unknown ↦ elim (Bool-cases (leb_ℤ threshold s.failure_count)) [
    | inl many ↦
        is _ (ground arith)
          (up (insert id true alerted) unknown (ground (arith, lookup-insert id id true alerted)))
    | inr few ↦ is _ (ground arith) quiet
  ]
]
  where
    is :
        (o : Map Bool × List AlertEvent)
        → watch threshold id s alerted ≡ o
        → Reported id s alerted o
        → Reported id s alerted (watch threshold id s alerted)
    is o e r = rw e r

-- Where the threshold is positive, and the status counts no failures if it is healthy, one look at a node
-- raises an alert only where it was not alerted, and resolves one only where it was and the node is healthy;
-- afterwards the node is alerted if its failures have reached the threshold, it is not if it is healthy, and
-- every other node is as it was.
pub watch-Reported :
    (threshold : ℤ) (id : String) (s : NodeStatus) (alerted : Map Bool)
    → pos 0 <ℤ threshold
    → (s.healthy ≡ true → s.failure_count ≡ pos 0)
    → Reported id s alerted (watch threshold id s alerted)
      × (threshold ≤ℤ s.failure_count
          → is_alerted (lookup id (watch threshold id s alerted).0) ≡ true)
      × (s.healthy ≡ true → is_alerted (lookup id (watch threshold id s alerted).0) ≡ false)
      × ((other : String)
          → other ≢ id
          → lookup other (watch threshold id s alerted).0 ≡ lookup other alerted)
unfolding watch
watch-Reported threshold id s alerted positive fresh = (
  reported threshold id s alerted,
  λ h. ground (arith, lookup-insert id id true alerted),
  λ h. ground (arith, fresh h, lookup-erase id id alerted),
  λ other h. ground (arith, lookup-insert other id true alerted, lookup-erase other id alerted),
)

or_else-nonempty : (m d : String) → d ≢ "" → (if m == "" then d else m) ≢ ""
or_else-nonempty m d h e = ground arith

false≢true : false ≡ true → ⊥
false≢true h = cc

failure_message-nonempty : (s : NodeStatus) → failure_message s ≢ ""
unfolding failure_message
failure_message-nonempty s =
    or_else-nonempty _ "node reported unhealthy without diagnostics"
      (λ e. false≢true ((eq_iff "node reported unhealthy without diagnostics" "").1 e))

critical≢warning : (s : String) → s ≡ "critical" → s ≡ "warning" → ⊥
critical≢warning s c w = false≢true ((eq_iff "critical" "warning").1 (sym c ∙ w))

-- An alert always says something, and it is a warning exactly for a replica of which only the IO thread is
-- stopped.
pub failure_alert_says :
    (s : NodeStatus)
    → ((failure_alert s).2 ≢ "")
      × (((failure_alert s).0 ≡ "warning")
          ↔ ((s.role ≡ role_replica) × (only_io_stopped s.replica ≡ true)))
unfolding failure_alert
failure_alert_says s = (
  λ h. failure_message-nonempty s (ground (arith, h)),
  (λ h. ground (arith, h, critical≢warning (failure_alert s).0), λ h. ground arith),
)
