-- ===== src/Mysql/Injection.antt =====
-- The statement of `ReconfigureReplica` as the server reads it (internal/mysql/client.go).
use Prim.Native.Char.{Char, code}
use text.Mathlib.TextLemmas.{cons-append, nil-append, append_assoc}
use ha.Base.{
  ap, inr, inl, ◌∙◌, String, ◌<>◌, ℕ, zero, suc, ◌/◌, ◌%◌, ◌+◌, ◌≡◌, refl, Bool, true, false, not,
  ◌&&◌, List, [], ◌∷◌, arith, eqb, ltb, Bool-cases,
}
use ha.Base.Int.{ℤ, pos, negsuc}
use ha.Base.Decimal.{digit, digit_from, digit_names, digits, show_ℕ, show_ℤ}
use ha.Model.{AgentNodeConfig, MySqlNodeConfig}
use ha.Mysql.{change_source}
use ha.Mysql.Text.{quote_sql, split_address}
use ha.Mysql.Quoting.{Place, literals, PlainEscapes, literals-quoted, one-append}

abbrev pub quote_free : String → Bool
quote_free String.[] = true
quote_free (String.◌∷◌ c s) = not (eqb (code c) 39) && quote_free s

pub quote_free-cons :
    (c : Char) (s : String)
    → quote_free (String.◌∷◌ c s) ≡ true
    → (eqb (code c) 39 ≡ false) × (quote_free s ≡ true)
quote_free-cons c s h = (ground arith, ground arith)

quote_free-append :
    (s t : String) → quote_free s ≡ true → quote_free t ≡ true → quote_free (s <> t) ≡ true
quote_free-append String.[] t h k = rw nil-append k
quote_free-append (String.◌∷◌ c s) t h k =
    rw (cons-append c)
      (let (q, rest) = quote_free-cons c s h in rw (q, quote_free-append s t rest k) refl)

all_quote_free : List String → Bool
all_quote_free [] = true
all_quote_free (d ∷ ds) = quote_free d && all_quote_free ds

digit_from-quote_free :
    (n : ℕ) (ds : List String) → all_quote_free ds ≡ true → quote_free (digit_from n ds) ≡ true
unfolding all_quote_free
digit_from-quote_free n [] h = refl
digit_from-quote_free zero (d ∷ ds) h = ground arith
digit_from-quote_free (suc n) (d ∷ ds) h = digit_from-quote_free n ds (ground arith)

digit-quote_free : (n : ℕ) → quote_free (digit n) ≡ true
unfolding digit all_quote_free
digit-quote_free n = digit_from-quote_free n digit_names refl

digits-quote_free : (f n : ℕ) → quote_free (digits f n) ≡ true
unfolding digits
digits-quote_free zero n = digit-quote_free (n % 10)
digits-quote_free (suc f) n = elim (Bool-cases (ltb n 10)) [
  | inl b ↦ rw b (digit-quote_free n)
  | inr b ↦ rw b (
      quote_free-append (digits f (n / 10)) (digit (n % 10)) (digits-quote_free f (n / 10))
        (digit-quote_free (n % 10)))
]

pub show-quote_free : (n : ℤ) → quote_free (show_ℤ n) ≡ true
unfolding show_ℤ show_ℕ
show-quote_free (pos n) = digits-quote_free n n
show-quote_free (negsuc n) =
    quote_free-append "-" (show_ℕ (n + 1)) refl (digits-quote_free (n + 1) (n + 1))

module _ (escape : Char → String) where
  outside-append :
      (p s : String)
      → quote_free p ≡ true
      → literals escape Place.outside (p <> s) ≡ literals escape Place.outside s
  unfolding literals
  outside-append String.[] s h = rw nil-append refl
  outside-append (String.◌∷◌ c p) s h =
      rw (cons-append c)
        (let (q, rest) = quote_free-cons c p h in rw (q, outside-append p s rest) refl)

  -- The text up to the quote that opens a literal.
  enter-literal :
      (p s : String)
      → quote_free p ≡ true
      → literals escape Place.outside ((p <> "'") <> s) ≡ literals escape Place.inside s
  unfolding literals
  enter-literal p s h = rw append_assoc (outside-append p ("'" <> s) h ∙ rw one-append refl)

  -- A quoted value, the quote that ends its literal, and a text that goes on without quotes.
  read-literal :
      PlainEscapes escape
      → (value : String) (c : Char) (p s : String) → quote_free (String.◌∷◌ c p) ≡ true
      → literals escape Place.inside (quote_sql value <> (("'" <> String.◌∷◌ c p) <> s))
        ≡ value ∷ literals escape Place.outside s
  unfolding literals
  read-literal plain value c p s h = rw append_assoc (
      literals-quoted escape plain value (String.◌∷◌ c p <> s) (literals escape Place.outside s) (
        rw (cons-append c)
          (let (q, rest) = quote_free-cons c p h in rw (q, outside-append p s rest) refl)))

  end-literals : literals escape Place.closing ", SOURCE_AUTO_POSITION = 1" ≡ "" ∷ []
  unfolding literals
  end-literals = refl

  -- Whatever the address, the user and the password hold, the server reads exactly three literals in the
  -- statement, and they are the host, the user and the password, where its SQL mode reads a backslash and a
  -- quote after a backslash as themselves.
  pub literals-change_source :
      PlainEscapes escape
      → (config : MySqlNodeConfig) (source : AgentNodeConfig)
      → literals escape Place.outside (change_source config source)
        ≡ (split_address source.address).0 ∷ config.replication_user ∷ config.replication_pass ∷ []
  unfolding change_source
  literals-change_source plain config source =
      let (host, port) = split_address source.address in
      enter-literal "CHANGE REPLICATION SOURCE TO SOURCE_HOST = " _ refl
      ∙ read-literal plain host "," " SOURCE_PORT = " _ refl
      ∙ ap (λ ls. host ∷ ls)
          (outside-append (show_ℤ port) _ (show-quote_free port)
            ∙ enter-literal ", SOURCE_USER = " _ refl
            ∙ ap (λ t. literals escape Place.inside (quote_sql config.replication_user <> t))
                (append_assoc "', SOURCE_PASSWORD = " "'" _)
            ∙ read-literal plain config.replication_user "," " SOURCE_PASSWORD = " _ refl
            ∙ ap (λ ls. config.replication_user ∷ ls)
                (enter-literal "" _ refl
                  ∙ literals-quoted escape plain config.replication_pass
                      ", SOURCE_AUTO_POSITION = 1" [] end-literals))
