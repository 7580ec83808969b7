-- ===== src/Mysql/Quoting.antt =====
-- How a value that the database client writes into a statement is read back (internal/mysql/client.go).
use Prim.Native.Char.{Char, code}
use text.Mathlib.TextLemmas.{cons-append, nil-append}
use text.Mathlib.TextEquality.{Char-path}
use ha.Base.{
  ap, ◌∙◌, sym, Bool-cases, inl, inr, ◌⊎◌, String, ◌<>◌, ◌≡◌, refl, true, List, [], ◌∷◌, arith, eqb,
  if◌then◌else◌,
}
use ha.Base.Strings.{replace_char}
use ha.Mysql.Text.{quote_sql}

-- Where a reader of a statement is: outside of literals, in one, after a backslash in one, or after a
-- quote in one, which a second quote continues.
pub data Place : Type 0 where
  outside inside escaped closing : Place

abbrev push : String → List String → List String
push c [] = c ∷ []
push c (part ∷ parts) = (c <> part) ∷ parts

-- Two characters before a text.
pub two-append :
    (c d : Char) (s : String) → String.◌∷◌ c (String.◌∷◌ d "") <> s ≡ String.◌∷◌ c (String.◌∷◌ d s)
two-append c d s = rw (cons-append c, cons-append d, nil-append) refl

pub one-append : (c : Char) (s : String) → String.◌∷◌ c "" <> s ≡ String.◌∷◌ c s
one-append c s = rw (cons-append c, nil-append) refl

pub quote_sql-cons :
    (c : Char) (s : String)
    → quote_sql (String.◌∷◌ c s) ≡ (
        if eqb (code c) 92
        then "\\\\" <> quote_sql s
        else if eqb (code c) 39
        then "\\'" <> quote_sql s
        else String.◌∷◌ c (quote_sql s))
unfolding quote_sql replace_char
quote_sql-cons c s = elim (Bool-cases (eqb (code c) 92)) [
  | inl b ↦ rw b (
      ap (replace_char 39 "\\'") (two-append "\\" "\\" (replace_char 92 "\\\\" s))
      ∙ sym (two-append "\\" "\\" (quote_sql s)))
  | inr b ↦ elim (Bool-cases (eqb (code c) 39)) [ inl q ↦ rw (b, q) refl | inr q ↦ rw (b, q) refl ]
]

-- The string literals of a statement, as MySQL reads them; `escape` is what a backslash before a character
-- stands for.
module _ (escape : Char → String) where
  unfoldable pub literals : Place → String → List String
  literals Place.outside String.[] = []
  literals Place.outside (String.◌∷◌ c s) =
      let stay = literals Place.outside s in
      let enter = literals Place.inside s in if eqb (code c) 39 then enter else stay
  literals Place.inside String.[] = "" ∷ []
  literals Place.inside (String.◌∷◌ c s) =
      let stay = literals Place.inside s in
      let skip = literals Place.escaped s in
      let leave = literals Place.closing s in
      if eqb (code c) 92
      then skip
      else if eqb (code c) 39
      then leave
      else push (String.◌∷◌ c "") stay
  literals Place.escaped String.[] = "" ∷ []
  literals Place.escaped (String.◌∷◌ c s) = push (escape c) (literals Place.inside s)
  literals Place.closing String.[] = "" ∷ []
  literals Place.closing (String.◌∷◌ c s) =
      let double = literals Place.inside s in
      let stay = literals Place.outside s in if eqb (code c) 39 then push "'" double else "" ∷ stay

  -- A backslash and a quote stand for themselves after a backslash.
  abbrev pub PlainEscapes : Type 0
  PlainEscapes =
      (c : Char) → (eqb (code c) 92 ≡ true) ⊎ (eqb (code c) 39 ≡ true) → escape c ≡ String.◌∷◌ c ""

  -- A value that was quoted is read back as it is, where the literal's end is no doubled quote.
  pub literals-quoted :
      PlainEscapes
      → (value more : String) (parts : List String) → literals Place.closing more ≡ "" ∷ parts
      → literals Place.inside (quote_sql value <> ("'" <> more)) ≡ value ∷ parts
  unfolding literals quote_sql replace_char
  literals-quoted plain String.[] more parts h = rw (nil-append, one-append) h
  literals-quoted plain (String.◌∷◌ c s) more parts h =
      let ih = literals-quoted plain s more parts h in
      elim (Bool-cases (eqb (code c) 92)) [
        | inl b ↦
            rw (quote_sql-cons, b, two-append "\\" "\\", cons-append, cons-append)
              (self ih "\\" (inl refl) (ground arith))
        | inr b ↦ elim (Bool-cases (eqb (code c) 39)) [
          | inl q ↦
              rw (quote_sql-cons, b, q, two-append "\\" "'", cons-append, cons-append)
                (self ih "'" (inr refl) (ground arith))
          | inr q ↦ rw (quote_sql-cons, b, q, cons-append, b, q, ih, one-append) refl
        ]
      ]
    where
      self :
          literals Place.inside (quote_sql s <> ("'" <> more)) ≡ s ∷ parts
          → (d : Char) → (eqb (code d) 92 ≡ true) ⊎ (eqb (code d) 39 ≡ true)
          → code c ≡ code d
          → push (escape d) (literals Place.inside (quote_sql s <> ("'" <> more)))
            ≡ String.◌∷◌ c s ∷ parts
      self ih d special same =
          rw (plain d special, ih, one-append)
            (ap (λ e. String.◌∷◌ e s ∷ parts) (Char-path d c (sym same)))
