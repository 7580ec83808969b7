-- ===== src/Base/Text.antt =====
-- The order of Go's strings (`<`, `sort.Strings`): by bytes, which on UTF-8 is by code points.
use Prim.Native.Char.{code}
use Prim.Native.String.{String}
use mathlib.Core.Path.{ap₂}
use text.Mathlib.TextEquality.{Char-path}
use ha.Base.{◌≡◌, refl, Bool, true, false, arith, ltb, if◌then◌else◌}

unfoldable pub str_lt : String → String → Bool
str_lt String.[] String.[] = false
str_lt String.[] (String.◌∷◌ d t) = true
str_lt (String.◌∷◌ c s) String.[] = false
str_lt (String.◌∷◌ c s) (String.◌∷◌ d t) =
    if ltb (code c) (code d) then true else if ltb (code d) (code c) then false else str_lt s t

pub str_lt_irrefl : (s : String) → str_lt s s ≡ false
unfolding str_lt
str_lt_irrefl String.[] = refl
str_lt_irrefl (String.◌∷◌ c s) = ground (arith, str_lt_irrefl s)

pub str_lt_asymm : (s t : String) → str_lt s t ≡ true → str_lt t s ≡ false
unfolding str_lt
str_lt_asymm String.[] String.[] h = refl
str_lt_asymm String.[] (String.◌∷◌ d t) h = refl
str_lt_asymm (String.◌∷◌ c s) String.[] h = cc
str_lt_asymm (String.◌∷◌ c s) (String.◌∷◌ d t) h = ground (arith, str_lt_asymm s t)

-- Not below is transitive, as `sort` wants of its order.
pub str_lt_trans_not :
    (s t u : String) → str_lt t s ≡ false → str_lt u t ≡ false → str_lt u s ≡ false
unfolding str_lt
str_lt_trans_not String.[] t String.[] h k = refl
str_lt_trans_not String.[] t (String.◌∷◌ e u) h k = refl
str_lt_trans_not (String.◌∷◌ c s) String.[] u h k = cc
str_lt_trans_not (String.◌∷◌ c s) (String.◌∷◌ d t) String.[] h k = cc
str_lt_trans_not (String.◌∷◌ c s) (String.◌∷◌ d t) (String.◌∷◌ e u) h k =
    ground (arith, str_lt_trans_not s t u)

-- Two texts of which neither is below the other are the same.
pub str_lt_antisymm : (s t : String) → str_lt s t ≡ false → str_lt t s ≡ false → s ≡ t
unfolding str_lt
str_lt_antisymm String.[] String.[] h k = refl
str_lt_antisymm String.[] (String.◌∷◌ d t) h k = cc
str_lt_antisymm (String.◌∷◌ c s) String.[] h k = cc
str_lt_antisymm (String.◌∷◌ c s) (String.◌∷◌ d t) h k =
    ap₂ String.◌∷◌ (Char-path c d (ground arith))
      (str_lt_antisymm s t (ground arith) (ground arith))
