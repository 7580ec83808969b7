-- ===== src/Tests/Configuring.antt =====
-- The configuration of small environments.
use ha.Base.{String, ◌≡◌, refl, [], str_dec, arith}
use ha.Base.Int.{pos}
use ha.Base.Decimal.{show_ℕ, digits, digit}
use ha.Exec.{ok, err}
use ha.Config.Load.{Environment, initial_config, raw_nodes, decode_nodes, load, integer}
use ha.Config.Load.Bounds.{IsUsable, load-IsUsable, integer-show_ℕ}

-- Every variable has this value, and nothing can be read.
abbrev constant : String → Environment
constant value = record {
  getenv = λ key. value;
  machine_name = err "no name";
  read_file = λ path. err "no file";
  parse_duration = λ text. err "no duration";
  unmarshal_nodes = λ text. ok [];
}

loads : load (constant "") ≡ ok (initial_config (constant ""))
unfolding load raw_nodes decode_nodes initial_config str_dec
loads = refl

load-IsUsable_example : IsUsable (initial_config (constant ""))
load-IsUsable_example = load-IsUsable (constant "") (initial_config (constant "")) loads

written : "7" ≡ show_ℕ 7
unfolding show_ℕ digits digit
written = refl

integer-show_ℕ_example : integer (constant "7") "HA_FAILURE_THRESHOLD" (pos 3) ≡ pos 7
integer-show_ℕ_example =
    integer-show_ℕ (constant "7") "HA_FAILURE_THRESHOLD" (pos 3) 7 (omega arith) (omega arith)
      written
