-- ===== src/Pki/Confined.antt =====
-- Where the certificate generator writes (cmd/pki-gen/main.go).
use Prim.Native.Char.{code}
use text.Mathlib.TextLemmas.{cons-append, nil-append}
use ha.Base.{
  String, ◌<>◌, ℕ, ◌≡◌, refl, Bool, true, false, not, List, [], ◌∷◌, Bool-cases, inl, inr, eqb,
  arith,
}
use ha.Base.Strings.{replace_char}
use ha.Exec.{require, Result, ok, err}
use ha.Exec.Ends.{Ends, after, required, anyhow}
use ha.Pki.{
  Tools, Leaf, has_separator, is_dns_char, all_dns_chars, valid_dns_name, agent_file, write_key,
  leaf, agent_leaf, agent_leaves, controller_leaves, generate, main,
}

-- A text without separators.
abbrev pub IsPlain : String → Type 0
IsPlain s = has_separator s ≡ false

append-IsPlain : (s t : String) → IsPlain s → IsPlain t → IsPlain (s <> t)
unfolding has_separator
append-IsPlain String.[] t hs ht = rw (nil-append t) ht
append-IsPlain (String.◌∷◌ c s) t hs ht =
    rw (cons-append c s t) (ground (arith, append-IsPlain s t))

replace_char-IsPlain : (old : ℕ) (s : String) → IsPlain s → IsPlain (replace_char old "-" s)
unfolding has_separator replace_char
replace_char-IsPlain old String.[] h = refl
replace_char-IsPlain old (String.◌∷◌ c s) h = elim (Bool-cases (eqb (code c) old)) [
  | inl same ↦
      rw same (
        append-IsPlain "-" (replace_char old "-" s) refl
          (replace_char-IsPlain old s (ground arith)))
  | inr other ↦ rw other (ground (arith, replace_char-IsPlain old s))
]

all_dns_chars-IsPlain : (s : String) → all_dns_chars s ≡ true → IsPlain s
unfolding has_separator all_dns_chars is_dns_char
all_dns_chars-IsPlain String.[] h = refl
all_dns_chars-IsPlain (String.◌∷◌ c s) h = ground (arith, all_dns_chars-IsPlain s)

agent_file-IsPlain : (raw : String) → IsPlain raw → IsPlain (agent_file raw)
unfolding agent_file has_separator
agent_file-IsPlain raw h =
    append-IsPlain "agent-" (replace_char 58 "-" (replace_char 46 "-" raw)) refl
      (replace_char-IsPlain 58 (replace_char 46 "-" raw) (replace_char-IsPlain 46 raw h))

module _ {W Key Ca : Type 0} (tools : Tools W Key Ca) (out : String) (P : W → Type 0) where
  -- `P` survives the tools, of which the files are written in the directory itself, under a plain name. An
  -- address that is read as an IP address has no separators.
  pub record Inside : Type 0 where
    pub mkdir_all : (w : W) → P w → P (tools.mkdir_all out w).1
    pub generate_ca_key : (w : W) → P w → P (tools.generate_ca_key w).1
    pub generate_key : (w : W) → P w → P (tools.generate_key w).1
    pub make_ca : (key : Key) (w : W) → P w → P (tools.make_ca key w).1
    pub sign :
        (template : Leaf) (ca : Ca) (key ca_key : Key) (w : W)
        → P w
        → P (tools.sign template ca key ca_key w).1
    pub write :
        (name text : String) (mode : ℕ) (w : W)
        → IsPlain name
        → P w
        → P (tools.write_file (tools.join out name) text mode w).1
    pub address : (s : String) → tools.parse_ip s ≡ true → IsPlain s

  abbrev Kept : {A : Type 0} → Result A × W → Type 0
  Kept o = Ends (λ _. P) P o

  guard : (b : Bool) (e : String) (w : W) → P w → P (require b e w).1
  unfolding require
  guard true e w h = h
  guard false e w h = h

  end : {A : Type 0} (r : Result A) (w : W) → Ends (λ _. P) P (r, w) → P w
  end (ok a) w h = h.how
  end (err e) w h = h.how

  module _ (inside : Inside) where
    write_key-Kept :
        (name : String) (key : Key) (w : W)
        → IsPlain name
        → P w
        → Kept (write_key tools out (tools.join out name) key w)
    unfolding write_key
    write_key-Kept name key w plain h =
        after (λ _. P) _ _ _ (anyhow (tools.key_text key) w h)
          λ text v k. anyhow _ _ (inside.write name text 384 v plain k)

    leaf-Kept :
        (ca : Ca) (ca_key : Key) (template : Leaf) (w : W)
        → IsPlain template.name
        → P w
        → Kept (leaf tools out ca ca_key template w)
    unfolding leaf has_separator
    leaf-Kept ca ca_key template w plain h =
        after (λ _. P) _ _ _ (anyhow _ _ (inside.generate_key w h))
          λ key w1 h1.
            after (λ _. P) _ _ _ (anyhow _ _ (inside.sign template ca key ca_key w1 h1))
              λ text w2 h2.
                after (λ _. P) _ _ _
                  (anyhow _ _ (
                    inside.write (template.name <> ".crt") text 420 w2
                      (append-IsPlain template.name ".crt" plain refl) h2))
                  λ _ w3 h3.
                    write_key-Kept (template.name <> ".key") key w3
                      (append-IsPlain template.name ".key" plain refl) h3

    agent_leaf-IsPlain :
        (raw : String) (w : W)
        → P w
        → Ends (λ template v. IsPlain template.name × P v) P (agent_leaf tools out raw, w)
    unfolding agent_leaf valid_dns_name
    agent_leaf-IsPlain raw w h = elim (Bool-cases (tools.parse_ip raw)) [
      | inl ip ↦ rw ip (record { how = (agent_file-IsPlain raw (inside.address raw ip), h) })
      | inr name ↦ elim (Bool-cases (valid_dns_name raw)) [
        | inl valid ↦
            rw (name, valid)
              (record {
                how = (agent_file-IsPlain raw (all_dns_chars-IsPlain raw (ground arith)), h);
              })
        | inr invalid ↦ rw (name, invalid) (record { how = h })
      ]
    ]

    agent_leaves-Kept :
        (ca : Ca) (ca_key : Key) (raws : List String) (w : W)
        → P w
        → Kept (agent_leaves tools out ca ca_key raws w)
    unfolding agent_leaves
    agent_leaves-Kept ca ca_key [] w h = record { how = h }
    agent_leaves-Kept ca ca_key (raw ∷ raws) w h =
        after (λ template v. IsPlain template.name × P v) _ _ _ (agent_leaf-IsPlain raw w h)
          λ template v (plain, k).
            after (λ _. P) _ _ _ (leaf-Kept ca ca_key template v plain k)
              λ _ u g. agent_leaves-Kept ca ca_key raws u g

    controller_leaves-Kept :
        (ca : Ca) (ca_key : Key) (ids : List String) (w : W)
        → P w
        → Kept (controller_leaves tools out ca ca_key ids w)
    unfolding controller_leaves
    controller_leaves-Kept ca ca_key [] w h = record { how = h }
    controller_leaves-Kept ca ca_key (id ∷ ids) w h =
        after (λ _ v. P v × (not (has_separator id) ≡ true)) _ _ _
          (required P P (not (has_separator id)) _ w (λ k. k) h)
          λ _ v (k, plain).
            after (λ _. P) _ _ _ (leaf-Kept ca ca_key _ v (ground arith) k)
              λ _ u g. controller_leaves-Kept ca ca_key ids u g

    generate-Kept :
        (agents controllers : List String) (w : W)
        → P w
        → Kept (generate tools out agents controllers w)
    unfolding generate has_separator
    generate-Kept agents controllers w h =
        after (λ _. P) _ _ _ (anyhow _ _ (inside.mkdir_all w h))
          λ _ w1 h1.
            after (λ _. P) _ _ _ (anyhow _ _ (inside.generate_ca_key w1 h1))
              λ ca_key w2 h2.
                after (λ _. P) _ _ _ (anyhow _ _ (inside.make_ca ca_key w2 h2))
                  λ made w3 h3.
                    after (λ _. P) _ _ _ (anyhow _ _ (inside.write "ca.crt" made.0 420 w3 refl h3))
                      λ _ w4 h4.
                        after (λ _. P) _ _ _
                          (anyhow _ _ (end _ _ (write_key-Kept "ca.key" ca_key w4 refl h4)))
                          λ _ w5 h5.
                            after (λ _. P) _ _ _ (agent_leaves-Kept made.1 ca_key agents w5 h5)
                              λ _ w6 h6. controller_leaves-Kept made.1 ca_key controllers w6 h6

    -- Where an IP address has no separators: what the generator does, also where it fails, keeps every fact that
    -- the creation of its directory, its cryptography, and writes to plain names in that directory keep.
    pub main-Kept :
        (agents controllers : String) (w : W) → P w → P (main tools out agents controllers w).1
    unfolding main
    main-Kept agents controllers w h = end _ _ (
        after (λ _. P) _ _ _ (anyhow _ _ (guard _ _ w h))
          λ _ w1 h1.
            after (λ _. P) _ _ _ (anyhow _ _ (guard _ _ w1 h1)) λ _ w2 h2. generate-Kept _ _ w2 h2)
