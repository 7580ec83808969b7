-- ===== src/Exec/Surely.antt =====
-- Calls that cannot fail where they are made: a postcondition of the value, and no error.
use ha.Base.{String, ◌≡◌, refl, Bool, true}
use ha.Exec.{Result, ok, err, require}
use ha.Exec.Ends.{Ends}

-- The outcome is a value, of which `Q` holds.
abbrev pub Surely : {S A : Type 0} → (A → S → Type 0) → Result A × S → Type 0
Surely Q o = Ends Q (λ _. ⊥) o

pub Surely-ok :
    {S A : Type 0} {Q : A → S → Type 0} (r : Result A) (s : S)
    → Surely Q (r, s)
    → (a : A) × (r ≡ ok a) × Q a s
Surely-ok (ok a) s h = (a, refl, h.how)
Surely-ok (err e) s h = absurd h.how

-- A guard whose test holds.
pub passing :
    {S : Type 0} (P : S → Type 0) (b : Bool) (e : String) (s : S)
    → b ≡ true
    → P s
    → Surely (λ _. P) (require b e s)
unfolding require
passing P b e s holds h = rw holds (record { how = h })
