-- ===== src/Mysql/Text.antt =====
-- The texts of the agent's database client (internal/mysql/client.go): the values and addresses that it
-- writes into statements, and the errors and numbers that it reads.
use Prim.Native.Char.{code}
use ha.Base.{
  String, ℕ, ◌+◌, Bool, true, false, ◌&&◌, ◌||◌, Option, none, some, List, [], ◌∷◌, eqb, leb,
  if◌then◌else◌, ◌==◌,
}
use ha.Base.Int.{ℤ, pos}
use ha.Base.Parsing.{parse_int}
use ha.Base.Strings.{split, replace_char}

-- `quoteSQL`: a backslash (92), then a quote (39), each with a backslash before it.
unfoldable pub quote_sql : String → String
unfolding replace_char
quote_sql value = replace_char 39 "\\'" (replace_char 92 "\\\\" value)

-- `first`
unfoldable pub first : List String → String
first [] = ""
first (value ∷ values) = let rest = first values in if value == "" then rest else value

abbrev or_default : String → String → Option ℤ → String × ℤ
or_default address host none = (address, pos 3306)
or_default address host (some port) = (host, port)

abbrev host_and_port : String → List String → String × ℤ
host_and_port address (host ∷ port ∷ []) = or_default address host (parse_int port)
host_and_port address parts = (address, pos 3306)

-- `splitAddress`; a colon is 58.
unfoldable pub split_address : String → String × ℤ
unfolding split parse_int
split_address address = host_and_port address (split 58 address)

-- `unicode.ToLower` on ASCII.
abbrev lower : ℕ → ℕ
lower c = if leb 65 c && leb c 90 then c + 32 else c

starts_with_fold : String → String → Bool
starts_with_fold String.[] t = true
starts_with_fold (String.◌∷◌ c s) String.[] = false
starts_with_fold (String.◌∷◌ c s) (String.◌∷◌ d t) =
    eqb (code c) (lower (code d)) && starts_with_fold s t

-- `strings.Contains(strings.ToLower(message), part)`
unfoldable pub contains_fold : String → String → Bool
unfolding starts_with_fold
contains_fold part String.[] = part == ""
contains_fold part (String.◌∷◌ c s) = starts_with_fold part (String.◌∷◌ c s) || contains_fold part s

-- `replicaChannelAbsent`
unfoldable pub replica_channel_absent : String → Bool
unfolding contains_fold
replica_channel_absent message =
    contains_fold "not running" message
    || contains_fold "not configured as a replica" message
    || contains_fold "no replica defined for channel" message
    || contains_fold "no channels exist" message
