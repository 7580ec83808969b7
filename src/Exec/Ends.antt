-- ===== src/Exec/Ends.antt =====
-- Postconditions of `Exec` calls, with one rule for each way to build a call. A proof follows the code: a
-- rule at each call, with what holds after it.
use ha.Base.{String, ◌≡◌, refl, Bool, true, false}
use ha.Exec.{Result, ok, err, Exec, map_err, require, continue}

-- `Q` of a value, `E` of an error.
abbrev pub EndsWith : {S A : Type 0} → (A → S → Type 0) → (S → Type 0) → Result A → S → Type 0
EndsWith Q E (ok a) s = Q a s
EndsWith Q E (err e) s = E s

-- What the postconditions say of an outcome.
pub record Ends {S A : Type 0} (Q : A → S → Type 0) (E : S → Type 0) (o : Result A × S)
    : Type 0 where
  pub how : EndsWith Q E o.0 o.1

module _ {S A B : Type 0} {R : B → S → Type 0} {E : S → Type 0} where
  -- A call that ends with `Q`, and then the rest.
  pub after :
      (Q : A → S → Type 0) (r : Result A) (s : S) (f : A → Exec S B)
      → Ends Q E (r, s)
      → ((a : A) (t : S) → Q a t → Ends R E (f a t))
      → Ends R E (continue r f s)
  unfolding continue
  after Q (ok a) s f h k = k a s h.how
  after Q (err e) s f h k = record { how = h.how }

  -- A call that cannot fail, and then the rest.
  pub given : (a : A) (s : S) (f : A → Exec S B) → Ends R E (f a s) → Ends R E (continue (ok a) f s)
  unfolding continue
  given a s f h = h

module _ {S A : Type 0} {Q : A → S → Type 0} {E : S → Type 0} where
  pub wrapped :
      (f : String → String) (r : Result A) {s : S} → Ends Q E (r, s) → Ends Q E (map_err f r, s)
  unfolding map_err
  wrapped f (ok a) h = record { how = h.how }
  wrapped f (err e) h = record { how = h.how }

  -- Another state, at which both postconditions hold if they held before.
  pub moved :
      (r : Result A) {s t : S}
      → ((a : A) → Q a s → Q a t)
      → (E s → E t)
      → Ends Q E (r, s)
      → Ends Q E (r, t)
  moved (ok a) k e h = record { how = k a h.how }
  moved (err x) k e h = record { how = e h.how }

module _ {S : Type 0} (P : S → Type 0) (E : S → Type 0) where
  -- A guard that passes leaves its test as a fact.
  pub required :
      (b : Bool) (e : String) (s : S)
      → (P s → E s)
      → P s
      → Ends (λ _ t. P t × (b ≡ true)) E (require b e s)
  unfolding require
  required true e s weaken h = record { how = (h, refl) }
  required false e s weaken h = record { how = weaken h }

module _ {S : Type 0} (Q : Unit {0} → S → Type 0) (E : S → Type 0) where
  -- The same where the test itself gives what is to hold.
  pub checked :
      (b : Bool) (e : String) (s : S) → (b ≡ true → Q tt s) → E s → Ends Q E (require b e s)
  unfolding require
  checked true e s pass h = record { how = pass refl }
  checked false e s pass h = record { how = h }

module _ {S A : Type 0} {E : S → Type 0} where
  -- What holds however the call ended.
  pub anyhow : (r : Result A) (s : S) → E s → Ends (λ _. E) E (r, s)
  anyhow (ok a) s h = record { how = h }
  anyhow (err e) s h = record { how = h }
