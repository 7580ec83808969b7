-- ===== src/Exec/Keeps.antt =====
-- Facts of a state that survive an `Exec` call, however it ends, with a rule for each way to build a call.
use ha.Base.{String, Bool, true, false}
use ha.Exec.{Result, ok, err, Exec, require, continue}

module _ {S : Type 0} (P : S → Type 0) where
  -- `P` survives the call.
  abbrev pub Keeps : {A : Type 0} → (S → A × S) → Type 0
  Keeps m = (s : S) → P s → P (m s).1

  pub continue-Keeps :
      {A B : Type 0} (r : Result A) (f : A → Exec S B) (s : S)
      → P s
      → ((a : A) → Keeps (f a))
      → P (continue r f s).1
  unfolding continue
  continue-Keeps (ok a) f s h k = k a s h
  continue-Keeps (err e) f s h k = h

  pub require-Keeps : (b : Bool) (e : String) → Keeps (require b e)
  unfolding require
  require-Keeps true e s h = h
  require-Keeps false e s h = h
