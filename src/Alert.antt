-- ===== src/Alert.antt =====
-- Alerts by webhook (internal/alert/webhook.go). The HTTP client is a parameter: it posts a payload to a
-- URL, and gives the response's status code or the error of `http.NewRequest` or `Client.Do`.
use ha.Base.{arith, ◌≡◌, String, ◌<>◌, ℕ, leb, if◌then◌else◌, ◌==◌}
use ha.Base.Decimal.{show_ℕ}
use ha.Exec.{continue, Exec, pure, fail, ◌>>=◌}

pub record Payload : Type 0 where
  pub severity : String
  pub title : String
  pub message : String

-- `Manager.Send`
unfoldable pub send :
    {W : Type 0} → (String → Payload → Exec W ℕ) → String → Payload → Exec W (Unit {0})
send post url payload = if url == "" then pure tt else do
  status ← post url payload
  if leb 400 status then fail ("alert webhook returned HTTP " <> show_ℕ status) else pure tt

-- An alert does nothing without a URL, and posts once otherwise, whatever the response.
pub send_posts_once :
    {W : Type 0} (post : String → Payload → Exec W ℕ) (url : String) (p : Payload) (w : W)
    → (send post url p w).1 ≡ (if url == "" then w else (post url p w).1)
unfolding send continue
send_posts_once post url p w = ground arith
