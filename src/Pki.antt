-- ===== src/Pki.antt =====
-- The certificate generator (cmd/pki-gen/main.go). Cryptography, the reading of IP addresses and the files are
-- parameters; `fail` is an error, after which nothing more is done.
pub mod Confined
use Prim.Native.Char.{code}
use ha.Base.{
  String, ◌<>◌, ℕ, Bool, true, false, not, ◌&&◌, ◌||◌, List, [], ◌∷◌, eqb, leb, if◌then◌else◌, ◌==◌,
}
use ha.Base.Strings.{split, trim_space, replace_char}
use ha.Exec.{Result, ok, err, Exec, pure, fail, require, ◌>>=◌, ◌>>◌}

-- What `leaf` puts into a certificate: its common name, the IP addresses, the DNS names, and whether it is that
-- of a server or of a client.
pub record Leaf : Type 0 where
  pub name : String
  pub ips : List String
  pub dns_names : List String
  pub server : Bool

-- `Key` is a private key, `Ca` the parsed certificate of the authority. `make_ca` and `sign` give a certificate
-- in PEM, `key_text` a key in PEM; `join` is `filepath.Join`, and a mode is that of a file.
pub record Tools (W Key Ca : Type 0) : Type 0 where
  pub parse_ip : String → Bool
  pub join : String → String → String
  pub mkdir_all : String → Exec W (Unit {0})
  pub write_file : String → String → ℕ → Exec W (Unit {0})
  pub generate_ca_key : W → Key × W
  pub generate_key : Exec W Key
  pub make_ca : Key → Exec W (String × Ca)
  pub sign : Leaf → Ca → Key → Key → Exec W String
  pub key_text : Key → Result String

-- The loop of `split`, whose separator is a comma (44).
unfoldable pub non_blank : List String → List String
unfolding trim_space
non_blank [] = []
non_blank (item ∷ items) =
    let rest = non_blank items in
    let trimmed = trim_space item in if trimmed == "" then rest else trimmed ∷ rest

unfoldable pub split_list : String → List String
unfolding non_blank split
split_list value = non_blank (split 44 value)

-- The characters of a DNS name: letters, digits, `-` (45) and `.` (46).
unfoldable pub is_dns_char : ℕ → Bool
is_dns_char c =
    (leb 97 c && leb c 122)
    || (leb 65 c && leb c 90)
    || (leb 48 c && leb c 57)
    || eqb c 45
    || eqb c 46

unfoldable pub all_dns_chars : String → Bool
unfolding is_dns_char
all_dns_chars String.[] = true
all_dns_chars (String.◌∷◌ c s) = is_dns_char (code c) && all_dns_chars s

-- Whether a text begins with a dot.
unfoldable pub begins_with_dot : String → Bool
begins_with_dot String.[] = false
begins_with_dot (String.◌∷◌ c s) = eqb (code c) 46

-- `strings.Contains(value, "..")`
unfoldable pub has_two_dots : String → Bool
unfolding begins_with_dot
has_two_dots String.[] = false
has_two_dots (String.◌∷◌ c s) = (eqb (code c) 46 && begins_with_dot s) || has_two_dots s

unfoldable pub valid_dns_name : String → Bool
unfolding all_dns_chars has_two_dots
valid_dns_name value = not (value == "" || has_two_dots value) && all_dns_chars value

-- `strings.ContainsAny` of a slash (47) or a backslash (92).
unfoldable pub has_separator : String → Bool
has_separator String.[] = false
has_separator (String.◌∷◌ c s) = eqb (code c) 47 || eqb (code c) 92 || has_separator s

-- `fileName`: a dot and a colon (58) become a dash.
unfoldable pub agent_file : String → String
unfolding replace_char
agent_file raw = "agent-" <> replace_char 58 "-" (replace_char 46 "-" raw)

module _ {W Key Ca : Type 0} (tools : Tools W Key Ca) (out : String) where
  unfoldable pub write_key : String → Key → Exec W (Unit {0})
  write_key path key = do text ← (λ w. (tools.key_text key, w)); tools.write_file path text 384

  unfoldable pub leaf : Ca → Key → Leaf → Exec W (Unit {0})
  unfolding write_key
  leaf ca ca_key template = do
    key ← tools.generate_key
    certificate ← tools.sign template ca key ca_key
    tools.write_file (tools.join out (template.name <> ".crt")) certificate 420
    write_key (tools.join out (template.name <> ".key")) key

  unfoldable pub agent_leaf : String → Result Leaf
  unfolding agent_file valid_dns_name
  agent_leaf raw =
      if tools.parse_ip raw
      then ok (record { name = agent_file raw; ips = raw ∷ []; dns_names = []; server = true })
      else if valid_dns_name raw
      then ok (record { name = agent_file raw; ips = []; dns_names = raw ∷ []; server = true })
      else err ("invalid agent IP or DNS name: " <> raw)

  unfoldable pub agent_leaves : Ca → Key → List String → Exec W (Unit {0})
  unfolding leaf agent_leaf
  agent_leaves ca ca_key [] = pure tt
  agent_leaves ca ca_key (raw ∷ raws) =
      let rest = agent_leaves ca ca_key raws in
      do template ← (λ w. (agent_leaf raw, w)); leaf ca ca_key template; rest

  unfoldable pub controller_leaves : Ca → Key → List String → Exec W (Unit {0})
  unfolding leaf has_separator
  controller_leaves ca ca_key [] = pure tt
  controller_leaves ca ca_key (id ∷ ids) =
      let rest = controller_leaves ca ca_key ids in
      do
        require (not (has_separator id)) "controller ID may not contain path separators"
        leaf ca ca_key (record { name = id; ips = []; dns_names = []; server = false })
        rest

  -- From the two lists on.
  unfoldable pub generate : List String → List String → Exec W (Unit {0})
  unfolding write_key agent_leaves controller_leaves
  generate agents controllers = do
    tools.mkdir_all out
    ca_key ← (λ w. let (key, w') = tools.generate_ca_key w in (ok key, w'))
    made ← tools.make_ca ca_key
    tools.write_file (tools.join out "ca.crt") made.0 420
    (λ w. (ok tt, (write_key (tools.join out "ca.key") ca_key w).1))
    agent_leaves made.1 ca_key agents
    controller_leaves made.1 ca_key controllers

abbrev is_empty : List String → Bool
is_empty [] = true
is_empty (item ∷ items) = false

-- `main`, with the values of its flags.
unfoldable pub main :
    {W Key Ca : Type 0} → Tools W Key Ca → String → String → String → Exec W (Unit {0})
unfolding split_list generate
main tools out agents controllers = do
  require (not (out == "")) "-out is required"
  require (not (is_empty (split_list agents) || is_empty (split_list controllers)))
      "-agents and -controllers are required"
  generate tools out (split_list agents) (split_list controllers)
