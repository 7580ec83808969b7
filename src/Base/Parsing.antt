-- ===== src/Base/Parsing.antt =====
-- `strconv.ParseInt(s, 10, 64)` and `strconv.ParseBool`, without the texts of their errors, and what they read
-- of decimal notation.
use Prim.Native.Char.{code}
use text.Mathlib.TextLemmas.{cons-append, nil-append}
use ha.Base.{
  ap, ◌∙◌, String, ◌<>◌, ℕ, zero, suc, ◌+◌, ◌-◌, ◌*◌, ◌/◌, ◌%◌, ◌≤◌, ◌<◌, ◌≡◌, refl, Bool, true,
  false, ◌&&◌, ◌||◌, Option, none, some, leb, ltb, eqb, Bool-cases, inl, inr, if◌then◌else◌, ◌==◌,
  arith,
}
use ha.Base.Int.{ℤ, pos, negsuc, max_int64}
use ha.Base.Strings.{is_empty}
use ha.Base.Decimal.{show_ℕ, digit, digits}

-- The digits of a number in base ten, after those that were read.
unfoldable pub parse_digits : ℕ → String → Option ℕ
parse_digits n String.[] = some n
parse_digits n (String.◌∷◌ c s) =
    let more = parse_digits (10 * n + (code c - 48)) s in
    if leb 48 (code c) && leb (code c) 57 then more else none

unfoldable pub parse_magnitude : String → Option ℕ
unfolding parse_digits
parse_magnitude String.[] = none
parse_magnitude (String.◌∷◌ c s) = parse_digits 0 (String.◌∷◌ c s)

-- A number in the range of `int64`.
unfoldable pub in_int64 : Bool → Option ℕ → Option ℤ
in_int64 negative none = none
in_int64 true (some zero) = some (pos 0)
in_int64 true (some (suc n)) = if leb n max_int64 then some (negsuc n) else none
in_int64 false (some n) = if leb n max_int64 then some (pos n) else none

-- `strconv.ParseInt(s, 10, 64)` and `strconv.Atoi`, without the error's text.
unfoldable pub parse_int : String → Option ℤ
unfolding in_int64 parse_magnitude
parse_int String.[] = none
parse_int (String.◌∷◌ c s) =
    if eqb (code c) 45
    then in_int64 true (parse_magnitude s)
    else if eqb (code c) 43
    then in_int64 false (parse_magnitude s)
    else in_int64 false (parse_magnitude (String.◌∷◌ c s))

unfoldable pub parse_bool : String → Option Bool
parse_bool s =
    if s == "1" || s == "t" || s == "T" || s == "TRUE" || s == "true" || s == "True"
    then some true
    else if s == "0" || s == "f" || s == "F" || s == "FALSE" || s == "false" || s == "False"
    then some false
    else none

-- The digits of a text that follow those of another.
unfoldable pub then_digits : Option ℕ → String → Option ℕ
unfolding parse_digits
then_digits none t = none
then_digits (some n) t = parse_digits n t

parse_append : (s t : String) (n : ℕ) → parse_digits n (s <> t) ≡ then_digits (parse_digits n s) t
unfolding parse_digits then_digits
parse_append String.[] t n = rw (nil-append t) refl
parse_append (String.◌∷◌ c s) t n =
    rw (cons-append c s t) (elim (Bool-cases (leb 48 (code c) && leb (code c) 57)) [
      | inl is_digit ↦ rw is_digit (parse_append s t (10 * n + (code c - 48)))
      | inr other ↦ rw other refl
    ])

parse_digit : (n d : ℕ) → d < 10 → parse_digits n (digit d) ≡ some (10 * n + d)
unfolding parse_digits digit
parse_digit n zero h = refl
parse_digit n (suc zero) h = refl
parse_digit n (suc (suc zero)) h = refl
parse_digit n (suc (suc (suc zero))) h = refl
parse_digit n (suc (suc (suc (suc zero)))) h = refl
parse_digit n (suc (suc (suc (suc (suc zero))))) h = refl
parse_digit n (suc (suc (suc (suc (suc (suc zero)))))) h = refl
parse_digit n (suc (suc (suc (suc (suc (suc (suc zero))))))) h = refl
parse_digit n (suc (suc (suc (suc (suc (suc (suc (suc zero)))))))) h = refl
parse_digit n (suc (suc (suc (suc (suc (suc (suc (suc (suc zero))))))))) h = refl
parse_digit n (suc (suc (suc (suc (suc (suc (suc (suc (suc (suc d)))))))))) h =
    absurd (omega (arith, h))

at_zero : (n : ℕ) → n < 10 → parse_digits 0 (digit n) ≡ some n
at_zero n h = parse_digit 0 n h ∙ ap some (omega arith)

parse_digits_lem : (fuel n : ℕ) → n ≤ fuel → parse_digits 0 (digits fuel n) ≡ some n
unfolding digits then_digits
parse_digits_lem zero n h =
    let last : n % 10 ≡ n = omega (arith, h) in rw last (at_zero n (omega (arith, h)))
parse_digits_lem (suc fuel) n h = elim (Bool-cases (ltb n 10)) [
  | inl last ↦ rw last (at_zero n (ground arith))
  | inr more ↦
      let many : 10 ≤ n = ground arith in
      let parts : 10 * (n / 10) + n % 10 ≡ n = omega arith in
      rw
        (
          more,
          parse_append (digits fuel (n / 10)) (digit (n % 10)) 0,
          parse_digits_lem fuel (n / 10) (omega (arith, h, many)),
        )
        (parse_digit (n / 10) (n % 10) (omega arith) ∙ ap some parts)
]

-- A text of digits has no sign.
unsigned :
    (s : String) (n : ℕ)
    → is_empty s ≡ false
    → parse_digits 0 s ≡ some n
    → parse_int s ≡ in_int64 false (some n)
unfolding parse_int parse_magnitude parse_digits is_empty
unsigned String.[] n full h = cc
unsigned (String.◌∷◌ c s) n full h = elim (Bool-cases (leb 48 (code c) && leb (code c) 57)) [
  | inl is_digit ↦
      let no_minus : eqb (code c) 45 ≡ false = ground arith in
      let no_plus : eqb (code c) 43 ≡ false = ground arith in rw (no_minus, no_plus, h) refl
  | inr other ↦ let none_read = rw other at h in cc
]

append-full : (s t : String) → is_empty s ≡ false → is_empty (s <> t) ≡ false
unfolding is_empty
append-full String.[] t h = cc
append-full (String.◌∷◌ c s) t h = rw (cons-append c s t) refl

digit-full : (n : ℕ) → n < 10 → is_empty (digit n) ≡ false
unfolding digit is_empty
digit-full zero h = refl
digit-full (suc zero) h = refl
digit-full (suc (suc zero)) h = refl
digit-full (suc (suc (suc zero))) h = refl
digit-full (suc (suc (suc (suc zero)))) h = refl
digit-full (suc (suc (suc (suc (suc zero))))) h = refl
digit-full (suc (suc (suc (suc (suc (suc zero)))))) h = refl
digit-full (suc (suc (suc (suc (suc (suc (suc zero))))))) h = refl
digit-full (suc (suc (suc (suc (suc (suc (suc (suc zero)))))))) h = refl
digit-full (suc (suc (suc (suc (suc (suc (suc (suc (suc zero))))))))) h = refl
digit-full (suc (suc (suc (suc (suc (suc (suc (suc (suc (suc d)))))))))) h =
    absurd (omega (arith, h))

digits-full : (fuel n : ℕ) → is_empty (digits fuel n) ≡ false
unfolding digits
digits-full zero n = digit-full (n % 10) (omega arith)
digits-full (suc fuel) n = elim (Bool-cases (ltb n 10)) [
  | inl last ↦ rw last (digit-full n (ground arith))
  | inr more ↦ rw more (append-full (digits fuel (n / 10)) _ (digits-full fuel (n / 10)))
]

-- Decimal notation of a number in range is read back.
pub parse_int-show_ℕ : (n : ℕ) → n ≤ max_int64 → parse_int (show_ℕ n) ≡ some (pos n)
unfolding show_ℕ in_int64
parse_int-show_ℕ n h =
    let small : leb n max_int64 ≡ true = ground arith in
    unsigned (digits n n) n (digits-full n n) (parse_digits_lem n n (omega arith)) ∙ rw small refl
