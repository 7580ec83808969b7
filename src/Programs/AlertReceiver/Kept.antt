-- ===== src/Programs/AlertReceiver/Kept.antt =====
-- What the receiver keeps over its requests (cmd/alert-receiver/main.go).
use ha.Base.{◌∙◌, ◌++◌, ℕ, List, [], ◌∷◌, ◌≡◌, ap, sym}
use mathlib.Core.List.{append_assoc, append-nil}
use ha.Exec.{Result, ok, err}
use ha.Model.{Time}
use ha.Programs.AlertReceiver.{Event, webhook, get_events, healthz}

-- A request with the time at which it comes.
pub data Request : Type 0 where
  alert : Result Event → Time → Request
  list health : Request

-- The status code of a request, and the events after it.
unfoldable pub serve : Request → List Event → ℕ × List Event
unfolding webhook get_events healthz
serve (Request.alert body now) events = webhook body now events
serve Request.list events = let ((code, shown), events') = get_events events in (code, events')
serve Request.health events = healthz events

-- The events after a sequence of requests.
unfoldable pub served : List Request → List Event → List Event
unfolding serve
served [] events = events
served (r ∷ rs) events = served rs (serve r events).1

-- The decoded alerts among requests, at the times of their receipt.
pub received : List Request → List Event
received [] = []
received (Request.alert (ok payload) now ∷ rs) = record payload { at = now } ∷ received rs
received (Request.alert (err e) now ∷ rs) = received rs
received (Request.list ∷ rs) = received rs
received (Request.health ∷ rs) = received rs

served-received :
    (rs : List Request) (events : List Event) → served rs events ≡ events ++ received rs
unfolding served serve webhook get_events healthz received
served-received [] events = sym (append-nil events)
served-received (Request.alert (ok payload) now ∷ rs) events =
    served-received rs (events ++ (record payload { at = now } ∷ [])) ∙ append_assoc events _ _
served-received (Request.alert (err e) now ∷ rs) events = served-received rs events
served-received (Request.list ∷ rs) events = served-received rs events
served-received (Request.health ∷ rs) events = served-received rs events

-- What the receiver shows after any requests is what it held before, followed by every alert that was decoded, once each,
-- in the order and with the time of its receipt.
pub get_events-received :
    (rs : List Request) (events : List Event)
    → (get_events (served rs events)).0 ≡ (200, events ++ received rs)
unfolding get_events
get_events-received rs events = ap (λ x. (200, x)) (served-received rs events)
