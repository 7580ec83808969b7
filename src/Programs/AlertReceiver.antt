-- ===== src/Programs/AlertReceiver.antt =====
-- The receiver of alerts that serves validation (cmd/alert-receiver/main.go): its handlers, from the outcome of
-- decoding a body to the status code and what is written. A handler holds the mutex while it works on the list.
pub mod Kept
use ha.Base.{◌++◌, String, ℕ, Bool, List, [], ◌∷◌}
use ha.Exec.{Result, ok, err}
use ha.Model.{Time}

-- `event`
pub record Event : Type 0 where
  pub severity : String
  pub title : String
  pub message : String
  pub at : Time

-- `POST /webhook` at a time.
unfoldable pub webhook : Result Event → Time → List Event → ℕ × List Event
webhook (ok payload) now events = (202, events ++ (record payload { at = now } ∷ []))
webhook (err e) now events = (400, events)

-- `GET /events`
unfoldable pub get_events : List Event → (ℕ × List Event) × List Event
get_events events = ((200, events), events)

-- `GET /healthz`
unfoldable pub healthz : List Event → ℕ × List Event
healthz events = (200, events)
