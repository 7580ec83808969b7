-- ===== src/Mysql/Statements.antt =====
-- Which statements the database client sends (internal/mysql/client.go), in which order, whatever the
-- server answers.
use ha.Base.{String, ◌≡◌, refl, Bool, true, false, List, [], ◌∷◌}
use ha.Exec.{Result, ok, err, Exec, continue, require, ◌>>=◌}
use ha.Model.{AgentNodeConfig, MySqlNodeConfig}
use ha.Mysql.{
  Db, exec_on_channel, change_source, set_read_only, promote, demote, reconfigure_replica,
}

-- A connection that notes each statement, the newest first; the answer may depend on all that was sent.
abbrev pub noting : (String → List String → Result (Unit {0})) → Db (List String) → Db (List String)
noting answer db = record db { exec = λ query sent. (answer query sent, query ∷ sent) }

abbrev to_read_only : List String → List String
to_read_only sent = "SET GLOBAL read_only = ON" ∷ "SET GLOBAL super_read_only = ON" ∷ sent

abbrev to_writable : List String → List String
to_writable sent = "SET GLOBAL read_only = OFF" ∷ "SET GLOBAL super_read_only = OFF" ∷ sent

abbrev without_source : List String
without_source = "RESET REPLICA ALL" ∷ "STOP REPLICA" ∷ []

-- `sent` is what remains of `plan` without some of its newest statements.
pub data IsStartOf (plan : List String) : List String → Type 0 where
  whole : IsStartOf plan plan
  before : (q : String) (sent : List String) → IsStartOf plan (q ∷ sent) → IsStartOf plan sent

-- A call follows a plan where it sends a start of it, and all of it where it succeeds.
abbrev pub Follows : List String → Result (Unit {0}) × List String → Type 0
Follows plan (r, sent) = IsStartOf plan sent × (r ≡ ok tt → sent ≡ plan)

module _ (plan : List String) where
  -- A call that sends one statement of the plan, then what goes on.
  Follows-then :
      {A : Type 0} (q : String) (sent : List String) (r : Result A)
      (k : A → Exec (List String) (Unit {0}))
      → IsStartOf plan (q ∷ sent)
      → ((a : A) → Follows plan (k a (q ∷ sent)))
      → Follows plan (continue r k (q ∷ sent))
  unfolding continue
  Follows-then q sent (ok a) k start next = next a
  Follows-then q sent (err e) k start next = (start, λ h. cc)

  Follows-require :
      (b : Bool) (e : String) (sent : List String) (k : Unit {0} → Exec (List String) (Unit {0}))
      → IsStartOf plan sent
      → Follows plan (k tt sent)
      → Follows plan ((require b e >>= k) sent)
  unfolding continue require
  Follows-require true e sent k start next = next
  Follows-require false e sent k start next = (start, λ h. cc)

module _ (config : MySqlNodeConfig) (db : Db (List String))
    (answer : String → List String → Result (Unit {0})) where
  abbrev noted : Db (List String)
  noted = noting answer db

  -- Demotion sends the two statements that forbid writes, or stops before the second at an error.
  pub demote_statements : Follows (to_read_only []) (demote config noted [])
  unfolding demote set_read_only
  demote_statements = Follows-then _ _ _ _ _ (before _ _ whole) (λ _. (whole, λ _. refl))

  -- Whatever the server answers, a promotion sends, in this order, that the replica is stopped, that its source
  -- is forgotten, and only then the two statements that allow writes: a start of this plan where it fails, and
  -- all of it where it succeeds.
  pub promote_statements : Follows (to_writable without_source) (promote config noted [])
  unfolding promote exec_on_channel set_read_only
  promote_statements = Follows-then _ _ _ _ _ (before _ _ (before _ _ (before _ _ whole))) (λ _.
      Follows-then _ _ _ _ _ (before _ _ (before _ _ whole))
        (λ _. Follows-then _ _ _ _ _ (before _ _ whole) (λ _. (whole, λ _. refl))))

  -- Whatever the server answers, a reconfiguration sends, in this order, that the replica is stopped, that its
  -- source is forgotten, the new source, that the replica is started, and the two statements that forbid
  -- writes: a start of this plan where it fails, and all of it where it succeeds.
  pub reconfigure_statements :
      (source : AgentNodeConfig)
      → Follows
          (to_read_only ("START REPLICA" ∷ change_source config source ∷ without_source))
          (reconfigure_replica config noted source [])
  unfolding reconfigure_replica exec_on_channel set_read_only
  reconfigure_statements source =
      Follows-then _ _ _ _ _ (before _ _ (before _ _ (before _ _ (before _ _ (before _ _ whole)))))
        (λ _. Follows-then _ _ _ _ _ (before _ _ (before _ _ (before _ _ (before _ _ whole)))) (λ _.
          Follows-require _ _ _ _ _ (before _ _ (before _ _ (before _ _ (before _ _ whole)))) (
            Follows-then _ _ _ _ _ (before _ _ (before _ _ (before _ _ whole))) (λ _.
              Follows-then _ _ _ _ _ (before _ _ (before _ _ whole))
                (λ _. Follows-then _ _ _ _ _ (before _ _ whole) (λ _. (whole, λ _. refl)))))))
