-- ===== src/Mysql/Skeleton.antt =====
-- What is left of a statement without the contents of its string literals, and what that is of the statement of
-- `ReconfigureReplica` (internal/mysql/client.go).
use Prim.Native.Char.{Char, code}
use text.Mathlib.TextLemmas.{cons-append, nil-append, append_assoc}
use ha.Base.{ap, sym, inr, inl, ◌∙◌, String, ◌<>◌, ◌≡◌, refl, true, Bool-cases, eqb, if◌then◌else◌}
use ha.Base.Int.{ℤ}
use ha.Base.Decimal.{show_ℤ}
use ha.Model.{AgentNodeConfig, MySqlNodeConfig}
use ha.Mysql.{change_source}
use ha.Mysql.Text.{quote_sql, split_address}
use ha.Mysql.Quoting.{Place, quote_sql-cons, one-append, two-append}
use ha.Mysql.Injection.{quote_free, quote_free-cons, show-quote_free}

-- The text outside of literals with the quotes around them, as MySQL reads a statement where a backslash escapes.
unfoldable pub skeleton : Place → String → String
skeleton Place.outside String.[] = ""
skeleton Place.outside (String.◌∷◌ c s) =
    let stay = skeleton Place.outside s in
    let enter = skeleton Place.inside s in
    if eqb (code c) 39 then "'" <> enter else String.◌∷◌ c stay
skeleton Place.inside String.[] = ""
skeleton Place.inside (String.◌∷◌ c s) =
    let stay = skeleton Place.inside s in
    let skip = skeleton Place.escaped s in
    let leave = skeleton Place.closing s in
    if eqb (code c) 92 then skip else if eqb (code c) 39 then leave else stay
skeleton Place.escaped String.[] = ""
skeleton Place.escaped (String.◌∷◌ c s) = skeleton Place.inside s
skeleton Place.closing String.[] = "'"
skeleton Place.closing (String.◌∷◌ c s) =
    let double = skeleton Place.inside s in
    let stay = skeleton Place.outside s in
    if eqb (code c) 39 then double else "'" <> String.◌∷◌ c stay

-- A quoted value is within its literal.
skeleton-quoted :
    (value more : String)
    → skeleton Place.inside (quote_sql value <> ("'" <> more)) ≡ skeleton Place.closing more
unfolding skeleton quote_sql
skeleton-quoted String.[] more = rw (nil-append, one-append) refl
skeleton-quoted (String.◌∷◌ c s) more =
    let ih = skeleton-quoted s more in
    elim (Bool-cases (eqb (code c) 92)) [
      | inl b ↦ rw (quote_sql-cons, b, two-append "\\" "\\", cons-append, cons-append) ih
      | inr b ↦ elim (Bool-cases (eqb (code c) 39)) [
        | inl q ↦ rw (quote_sql-cons, b, q, two-append "\\" "'", cons-append, cons-append) ih
        | inr q ↦ rw (quote_sql-cons, b, q, cons-append, b, q) ih
      ]
    ]

outside-append :
    (p s : String)
    → quote_free p ≡ true
    → skeleton Place.outside (p <> s) ≡ p <> skeleton Place.outside s
unfolding skeleton
outside-append String.[] s h = rw (nil-append, nil-append) refl
outside-append (String.◌∷◌ c p) s h =
    let (q, rest) = quote_free-cons c p h in
    rw (cons-append c p s, q, outside-append p s rest) (sym (cons-append c p _))

-- The text up to the quote that opens a literal.
enter-literal :
    (p s : String)
    → quote_free p ≡ true
    → skeleton Place.outside ((p <> "'") <> s) ≡ p <> ("'" <> skeleton Place.inside s)
unfolding skeleton
enter-literal p s h = rw append_assoc (outside-append p ("'" <> s) h ∙ rw (one-append "'" s) refl)

leave-literal :
    (c : Char) (p s : String)
    → quote_free (String.◌∷◌ c p) ≡ true
    → skeleton Place.closing (String.◌∷◌ c p <> s)
      ≡ "'" <> (String.◌∷◌ c p <> skeleton Place.outside s)
unfolding skeleton
leave-literal c p s h =
    let (q, rest) = quote_free-cons c p h in
    rw (cons-append c p s, q, outside-append p s rest, cons-append c p (skeleton Place.outside s))
      refl

-- A quoted value, the quote that ends its literal, and a text that goes on without quotes.
read-literal :
    (value : String) (c : Char) (p s : String)
    → quote_free (String.◌∷◌ c p) ≡ true
    → skeleton Place.inside (quote_sql value <> (("'" <> String.◌∷◌ c p) <> s))
      ≡ "'" <> (String.◌∷◌ c p <> skeleton Place.outside s)
read-literal value c p s h =
    rw append_assoc (skeleton-quoted value (String.◌∷◌ c p <> s) ∙ leave-literal c p s h)

-- The statement with empty literals, after its first words.
abbrev pub change_rest : ℤ → String
change_rest port =
    "'"
    <> ("'"
        <> (", SOURCE_PORT = "
            <> (show_ℤ port
                <> (", SOURCE_USER = "
                    <> ("'"
                        <> ("'"
                            <> (", SOURCE_PASSWORD = "
                                <> ("'" <> ("'" <> ", SOURCE_AUTO_POSITION = 1")))))))))

-- The statement with empty literals.
abbrev pub change_skeleton : ℤ → String
change_skeleton port = "CHANGE REPLICATION SOURCE TO SOURCE_HOST = " <> change_rest port

end-statement :
    skeleton Place.closing ", SOURCE_AUTO_POSITION = 1" ≡ "'" <> ", SOURCE_AUTO_POSITION = 1"
unfolding skeleton
end-statement = refl

-- Whatever the address, the user and the password hold, nothing of them is outside of the literals.
pub skeleton-change_source :
    (config : MySqlNodeConfig) (source : AgentNodeConfig)
    → skeleton Place.outside (change_source config source)
      ≡ change_skeleton (split_address source.address).1
unfolding change_source
skeleton-change_source config source =
    let (host, port) = split_address source.address in
    enter-literal "CHANGE REPLICATION SOURCE TO SOURCE_HOST = " _ refl
    ∙ ap (λ t. "CHANGE REPLICATION SOURCE TO SOURCE_HOST = " <> ("'" <> t))
        (read-literal host "," " SOURCE_PORT = " _ refl
          ∙ ap (λ t. "'" <> (", SOURCE_PORT = " <> t))
              (outside-append (show_ℤ port) _ (show-quote_free port)
                ∙ ap (λ t. show_ℤ port <> t)
                    (enter-literal ", SOURCE_USER = " _ refl
                      ∙ ap (λ t. ", SOURCE_USER = " <> ("'" <> t)) (after_user config))))
  where
    after_user :
        (config : MySqlNodeConfig)
        → skeleton Place.inside (
            quote_sql config.replication_user
            <> ("', SOURCE_PASSWORD = '"
                <> (quote_sql config.replication_pass <> "', SOURCE_AUTO_POSITION = 1")))
          ≡ "'" <> (", SOURCE_PASSWORD = " <> ("'" <> ("'" <> ", SOURCE_AUTO_POSITION = 1")))
    after_user config =
        ap (λ t. skeleton Place.inside (quote_sql config.replication_user <> t))
          (append_assoc "', SOURCE_PASSWORD = " "'" _)
        ∙ read-literal config.replication_user "," " SOURCE_PASSWORD = " _ refl
        ∙ ap (λ t. "'" <> (", SOURCE_PASSWORD = " <> t))
            (enter-literal "" _ refl
              ∙ nil-append _
              ∙ ap (λ t. "'" <> t)
                  (skeleton-quoted config.replication_pass ", SOURCE_AUTO_POSITION = 1"
                    ∙ end-statement))
