-- ===== src/Base/Decimal.antt =====
-- `%d` and `strconv.Itoa`: decimal notation.
use ha.Base.{String, ◌<>◌, ℕ, zero, suc, ◌/◌, ◌%◌, ◌+◌, ltb, if◌then◌else◌, List, [], ◌∷◌}
use ha.Base.Int.{ℤ, pos, negsuc}

abbrev pub digit_from : ℕ → List String → String
digit_from n [] = ""
digit_from zero (d ∷ ds) = d
digit_from (suc n) (d ∷ ds) = digit_from n ds

abbrev pub digit_names : List String
digit_names = "0" ∷ "1" ∷ "2" ∷ "3" ∷ "4" ∷ "5" ∷ "6" ∷ "7" ∷ "8" ∷ "9" ∷ []

unfoldable pub digit : ℕ → String
digit n = digit_from n digit_names

-- A number has at most `n + 1` digits.
unfoldable pub digits : ℕ → ℕ → String
unfolding digit
digits zero n = digit (n % 10)
digits (suc f) n =
    let more = digits f (n / 10) in if ltb n 10 then digit n else more <> digit (n % 10)

unfoldable pub show_ℕ : ℕ → String
unfolding digits
show_ℕ n = digits n n

unfoldable pub show_ℤ : ℤ → String
unfolding show_ℕ
show_ℤ (pos n) = show_ℕ n
show_ℤ (negsuc n) = "-" <> show_ℕ (n + 1)
