-- ===== src/Config/Load/Bounds.antt =====
-- The bounds of a loaded configuration (internal/config/config.go), and how its numbers are written.
use Prim.Native.Char.{code}
use mathlib.Core.Path.{subst}
use ha.Base.{
  ◌&&◌, String, ℕ, zero, suc, ◌≤◌, ◌<◌, ◌≡◌, ◌≢◌, refl, true, false, Option, none, some, List, [],
  ◌∷◌, All, Bool, Bool-cases, inl, inr, ◌==◌, arith, leb, eqb,
}
use ha.Base.Int.{ℤ, pos, pos_part, max_int64, ◌≤ℤ◌, ◌<ℤ◌, ltb_ℤ, leb_ℤ}
use ha.Base.Decimal.{show_ℕ}
use ha.Base.Parsing.{in_int64, parse_magnitude, parse_int, parse_int-show_ℕ}
use ha.Base.Strings.{is_space, is_empty, split, trim_left, trim_right, trim_space}
use ha.Exec.{Result-cases, Result, ok, err, err≢ok, ok_inj}
use ha.Model.{AgentNodeConfig}
use ha.Config.{Config}
use ha.Config.Load.{
  Environment, items, endpoints_of, value_or, hostname_of, positive_or, natural_or, with_nodes, env,
  integer, int64_value, initial_config, decode_nodes, load, hostname,
}

-- A text that begins with a character is not empty.
full : (s : String) → is_empty s ≡ false → s ≢ ""
unfolding is_empty
full String.[] h p = cc
full (String.◌∷◌ c s) h p = let f : is_empty "" ≡ false = subst (λ t. is_empty t ≡ false) p h in cc

-- A text of spaces only, such as the empty one.
pub is_blank : String → Bool
is_blank String.[] = true
is_blank (String.◌∷◌ c s) = is_space (code c) && is_blank s

kept_blank :
    (space : Bool) (rest : String)
    → (is_empty rest && space) ≡ false
    → (is_blank rest ≡ true → is_empty rest ≡ true)
    → (space && is_blank rest) ≡ true
    → ⊥
kept_blank space rest kept ih h = ground (arith, ih (ground arith))

-- What is left without the spaces at its end is not blank, unless it is empty.
trim_right-blank : (s : String) → is_blank (trim_right s) ≡ true → is_empty (trim_right s) ≡ true
unfolding is_blank trim_right
trim_right-blank String.[] h = refl
trim_right-blank (String.◌∷◌ c s) h =
    elim (Bool-cases (is_empty (trim_right s) && is_space (code c))) [
      | inl spaces ↦ rw spaces refl
      | inr kept ↦
          absurd
            (kept_blank (is_space (code c)) (trim_right s) kept (trim_right-blank s) (rw kept at h))
    ]

trim_space-Full : (s : String) → (trim_space s == "") ≡ false → is_blank (trim_space s) ≡ false
unfolding trim_space
trim_space-Full s h = elim (Bool-cases (is_blank (trim_right (trim_left s)))) [
  | inl blank ↦ absurd (unempty _ h (trim_right-blank (trim_left s) blank))
  | inr other ↦ other
]
  where
    unempty : (t : String) → (t == "") ≡ false → is_empty t ≡ true → ⊥
    unempty String.[] h e = ground arith
    unempty (String.◌∷◌ c t) h e = cc

items-Full : (parts : List String) → All (λ item. is_blank item ≡ false) (items parts)
unfolding items
items-Full [] = tt
items-Full (part ∷ parts) = elim (Bool-cases (trim_space part == "")) [
  | inl blank ↦ rw blank (items-Full parts)
  | inr kept ↦ rw kept (trim_space-Full part kept, items-Full parts)
]

value_or-Named : (value fallback : String) → fallback ≢ "" → value_or value fallback ≢ ""
unfolding value_or
value_or-Named value fallback h = ground arith

hostname_of-Named : (name : Result String) → hostname_of name ≢ ""
unfolding hostname_of is_empty
hostname_of-Named (ok value) = elim (Bool-cases (value == "")) [
  | inl unnamed ↦ rw unnamed (full "ha-controller" refl)
  | inr named ↦ rw named (ground arith)
]
hostname_of-Named (err e) = full "ha-controller" refl

-- What a number that `ParseInt` reads is at most.
abbrev AtMost : Option ℤ → Type 0
AtMost o = (v : ℤ) → o ≡ some v → pos_part v ≤ max_int64

in_int64-AtMost : (b : Bool) (o : Option ℕ) → AtMost (in_int64 b o)
unfolding in_int64
in_int64-AtMost b none v h = cc
in_int64-AtMost true (some zero) v h = ground arith
in_int64-AtMost true (some (suc n)) v h = elim (Bool-cases (leb n max_int64)) [
  | inl small ↦ ground arith
  | inr large ↦ ground arith
]
in_int64-AtMost false (some n) v h = elim (Bool-cases (leb n max_int64)) [
  | inl small ↦ ground arith
  | inr large ↦ ground arith
]

parse_int-AtMost : (s : String) → AtMost (parse_int s)
unfolding parse_int
parse_int-AtMost String.[] = λ v h. cc
parse_int-AtMost (String.◌∷◌ c s) = elim (Bool-cases (eqb (code c) 45)) [
  | inl minus ↦ rw minus (in_int64-AtMost true (parse_magnitude s))
  | inr unsigned ↦ elim (Bool-cases (eqb (code c) 43)) [
    | inl plus ↦ rw (unsigned, plus) (in_int64-AtMost false (parse_magnitude s))
    | inr bare ↦ rw (unsigned, bare) (in_int64-AtMost false (parse_magnitude (String.◌∷◌ c s)))
  ]
]

abbrev Within : (ℤ → Type 0) → ℤ → Type 0
Within Lower v = Lower v × (pos_part v ≤ max_int64)

positive_or-Within : (o : Option ℤ) → AtMost o → Within (λ v. pos 0 <ℤ v) (positive_or (pos 3) o)
unfolding positive_or
positive_or-Within none h = (omega arith, omega arith)
positive_or-Within (some v) h = elim (Bool-cases (ltb_ℤ (pos 0) v)) [
  | inl positive ↦ rw positive (ground arith, h v refl)
  | inr other ↦ rw other (omega arith, omega arith)
]

natural_or-Within : (o : Option ℤ) → AtMost o → Within (λ v. pos 0 ≤ℤ v) (natural_or (pos 30) o)
unfolding natural_or
natural_or-Within none h = (omega arith, omega arith)
natural_or-Within (some v) h = elim (Bool-cases (leb_ℤ (pos 0) v)) [
  | inl natural ↦ rw natural (ground arith, h v refl)
  | inr other ↦ rw other (omega arith, omega arith)
]

-- Texts that must be given are given, an endpoint is more than spaces, and the numbers are in their ranges.
pub record IsUsable (c : Config) : Type 0 where
  pub http_addr : c.http_addr ≢ ""
  pub cluster_name : c.cluster_name ≢ ""
  pub controller_id : c.controller_id ≢ ""
  pub agent_ca_file : c.agent_ca_file ≢ ""
  pub agent_cert_file : c.agent_cert_file ≢ ""
  pub agent_key_file : c.agent_key_file ≢ ""
  pub etcd_endpoints : All (λ endpoint. is_blank endpoint ≡ false) c.etcd_endpoints
  pub failure_threshold : Within (λ v. pos 0 <ℤ v) c.failure_threshold
  pub max_replica_lag_seconds : Within (λ v. pos 0 ≤ℤ v) c.max_replica_lag_seconds

initial_config-IsUsable :
    (environment : Environment) (nodes : List AgentNodeConfig)
    → IsUsable (record (initial_config environment) { nodes = nodes })
unfolding is_empty initial_config env hostname integer int64_value endpoints_of
initial_config-IsUsable environment nodes = record {
  http_addr = value_or-Named _ _ (full _ refl);
  cluster_name = value_or-Named _ _ (full _ refl);
  controller_id = value_or-Named _ _ (hostname_of-Named environment.machine_name);
  agent_ca_file = value_or-Named _ _ (full _ refl);
  agent_cert_file = value_or-Named _ _ (full _ refl);
  agent_key_file = value_or-Named _ _ (full _ refl);
  etcd_endpoints =
      items-Full
        (split 44 (value_or (environment.getenv "HA_ETCD_ENDPOINTS") "http://127.0.0.1:2379"));
  failure_threshold = positive_or-Within _ (parse_int-AtMost _);
  max_replica_lag_seconds = natural_or-Within _ (parse_int-AtMost _);
}

-- A configuration that decoding gives is the given one with other nodes.
decoded :
    (environment : Environment) (c d : Config) (raw : Result String)
    → decode_nodes environment c raw ≡ ok d
    → (nodes : List AgentNodeConfig) × (record c { nodes = nodes } ≡ d)
unfolding decode_nodes with_nodes
decoded environment c d (err e) h = absurd (err≢ok h)
decoded environment c d (ok raw) h = elim (Bool-cases (raw == "")) [
  | inl empty ↦ (c.nodes, ok_inj (rw empty at h))
  | inr given ↦ elim (Result-cases (environment.unmarshal_nodes raw)) [
    | inl (nodes, e) ↦ (nodes, ok_inj (rw (given, e) at h))
    | inr (x, e) ↦ absurd (err≢ok (rw (given, e) at h))
  ]
]

-- Whatever the environment holds, a configuration that `Load` gives has a name for all it needs and no
-- endpoint of spaces only, its failure threshold is positive and its lag limit not negative, both in the range of `int64`.
pub load-IsUsable : (environment : Environment) (c : Config) → load environment ≡ ok c → IsUsable c
unfolding load
load-IsUsable environment c h =
    let (nodes, same) = decoded environment _ c _ h in
    subst IsUsable same (initial_config-IsUsable environment nodes)

-- A positive `int64` in decimal notation is what `integer` reads, whatever the fallback.
pub integer-show_ℕ :
    (environment : Environment) (key : String) (fallback : ℤ) (n : ℕ)
    → 0 < n
    → n ≤ max_int64
    → environment.getenv key ≡ show_ℕ n
    → integer environment key fallback ≡ pos n
unfolding integer positive_or
integer-show_ℕ environment key fallback n positive small written =
    let tested : ltb_ℤ (pos 0) (pos n) ≡ true = ground arith in
    rw (written, parse_int-show_ℕ n small, tested) refl
