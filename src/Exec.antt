-- ===== src/Exec.antt =====
-- Go functions that return an `error` and change a state. An error is its text; what was written before
-- an error stays written, so the state comes back beside the error too.
pub mod Ends
pub mod Keeps
pub mod Surely
use ha.Base.{◌⊎◌, inl, inr, ◌≡◌, refl, ap, String, Bool, true, false, Option, none, some}

-- What a call returns: a value, or a non-nil `error`.
pub data Result {ℓ} (A : Type ℓ) : Type ℓ where
  ok : A → Result A
  err : String → Result A

abbrev pub Exec : Type 0 → Type 0 → Type 0
Exec S A = S → Result A × S

unfoldable pub map_err : {A : Type 0} → (String → String) → Result A → Result A
map_err f (ok a) = ok a
map_err f (err e) = err (f e)

-- An `error` of nil as success.
abbrev pub of_error : Option String → Result (Unit {0})
of_error none = ok tt
of_error (some e) = err e

pub err≢ok : {A : Type 0} {e : String} {a : A} → err e ≡ ok a → ⊥
err≢ok h = cc

pub ok_inj : {A : Type 0} {a b : A} → ok a ≡ ok b → a ≡ b
ok_inj h = cc

pub map_err-ok :
    {A : Type 0} (f : String → String) (r : Result A) {a : A} → map_err f r ≡ ok a → r ≡ ok a
unfolding map_err
map_err-ok f (ok b) h = h
map_err-ok f (err e) h = absurd (err≢ok h)

-- An outcome, from its value.
pub with_end : {S A : Type 0} (o : Result A × S) {a : A} → o.0 ≡ ok a → o ≡ (ok a, o.1)
with_end o h = ap (λ r. (r, o.1)) h

pub Result-cases :
    {A : Type 0} (r : Result A) → ((a : A) × (r ≡ ok a)) ⊎ ((e : String) × (r ≡ err e))
Result-cases (ok a) = inl (a, refl)
Result-cases (err e) = inr (e, refl)

module _ {S A : Type 0} where
  abbrev pub pure : A → Exec S A
  pure a s = (ok a, s)

  -- `return errors.New(e)`
  abbrev pub fail : String → Exec S A
  fail e s = (err e, s)

  -- The call's outcome as a value, for code that looks at `err` itself.
  abbrev pub attempt : Exec S A → Exec S (Result A)
  attempt m s = let (r, s') = m s in (ok r, s')

  -- `fmt.Errorf("...: %w", err)`
  abbrev pub wrap : (String → String) → Exec S A → Exec S A
  wrap f m s = let (r, s') = m s in (map_err f r, s')

  -- `defer cleanup()`: it runs on every path, and the outcome is that of the body.
  abbrev pub finally : (S → S) → Exec S A → Exec S A
  finally cleanup m s = let (r, s') = m s in (r, cleanup s')

module _ {S : Type 0} where
  abbrev pub gets : {A : Type 0} → (S → A) → Exec S A
  gets f s = (ok (f s), s)

  abbrev pub modify : (S → S) → Exec S (Unit {0})
  modify f s = (ok tt, f s)

  -- `if !b { return errors.New(e) }`
  unfoldable pub require : Bool → String → Exec S (Unit {0})
  require true e s = (ok tt, s)
  require false e s = (err e, s)

module _ {S A B : Type 0} where
  unfoldable pub continue : Result A → (A → Exec S B) → Exec S B
  continue (ok a) f s = f a s
  continue (err e) f s = (err e, s)

  infixl 5 ◌>>=◌ ◌>>◌
  abbrev pub ◌>>=◌ : Exec S A → (A → Exec S B) → Exec S B
  ◌>>=◌ m f s = let (r, s') = m s in continue r f s'

  abbrev pub ◌>>◌ : Exec S A → Exec S B → Exec S B
  m >> k = m >>= λ _. k

-- The parts of a sequence that went through.
pub continue-ok :
    {S A B : Type 0} (r : Result A) (f : A → Exec S B) (s : S) {b : B} {t : S}
    → continue r f s ≡ (ok b, t)
    → (a : A) × (r ≡ ok a) × (f a s ≡ (ok b, t))
unfolding continue
continue-ok (ok a) f s h = (a, refl, h)
continue-ok (err e) f s h = absurd (err≢ok (ap (λ o. o.0) h))

-- A guard that let a sequence through.
pub require-ok :
    {S : Type 0} (b : Bool) (e : String) (s : S) {r : Unit {0}} {t : S}
    → require b e s ≡ (ok r, t)
    → (b ≡ true) × (s ≡ t)
unfolding require
require-ok true e s h = (refl, ap (λ o. o.1) h)
require-ok false e s h = absurd (err≢ok (ap (λ o. o.0) h))

pub required-ok :
    {S B : Type 0} (b : Bool) (e : String) (s : S) (f : Unit {0} → Exec S B) {c : B} {t : S}
    → (require b e >>= f) s ≡ (ok c, t)
    → (b ≡ true) × (f tt s ≡ (ok c, t))
unfolding require continue
required-ok true e s f h = (refl, h)
required-ok false e s f h = absurd (err≢ok (ap (λ o. o.0) h))

-- A call that works on a part of the state.
module _ {S W A : Type 0} (get : S → W) (put : W → S → S) where
  abbrev pub zoom : Exec W A → Exec S A
  zoom m s = let (r, w) = m (get s) in (r, put w s)
