-- ===== src/Prelude/Text.antt =====
-- Python's tests on texts: truth of a text, `strip`, and the order of code points.
use Prim.Native.Nat.{ℕ, compare, Ordering}
use Prim.Native.Char.{code}
use Prim.Native.String.{String}
use mathlib.Core.Bool.{Bool, true, false, ◌&&◌, ◌||◌}
use mathlib.Core.List.{List, [], ◌∷◌}
use mathlib.Core.Path.{◌≡◌, refl}
use native.Mathlib.Omega.{arith}
use hsl.Prelude.Tests.{leb, nat_eqb}

-- The code points of a text.
abbrev pub codes : String → List ℕ
codes String.[] = []
codes (String.◌∷◌ c s) = code c ∷ codes s

-- `not value`
abbrev pub is_empty : String → Bool
is_empty String.[] = true
is_empty (String.◌∷◌ c s) = false

-- `str.isspace` of one code point.
pub is_space : ℕ → Bool
is_space c =
    (leb 9 c && leb c 13)
    || (leb 28 c && leb c 32)
    || nat_eqb c 133
    || nat_eqb c 160
    || nat_eqb c 5760
    || (leb 8192 c && leb c 8202)
    || nat_eqb c 8232
    || nat_eqb c 8233
    || nat_eqb c 8239
    || nat_eqb c 8287
    || nat_eqb c 12288

all_space : List ℕ → Bool
all_space [] = true
all_space (c ∷ cs) = is_space c && all_space cs

-- `not value.strip()`
unfoldable pub is_blank : String → Bool
unfolding is_space all_space
is_blank s = all_space (codes s)

pub is_blank-is_empty : (s : String) → is_blank s ≡ false → is_empty s ≡ false
unfolding is_blank
is_blank-is_empty String.[] named = ground (arith, named)
is_blank-is_empty (String.◌∷◌ c s) named = refl

-- A lowercase hexadecimal digit, `[0-9a-f]`.
is_hex : ℕ → Bool
is_hex c = (leb b'0' c && leb c b'9') || (leb b'a' c && leb c b'f')

hex_run : List ℕ → ℕ → Bool
hex_run [] n = nat_eqb n 0
hex_run (c ∷ cs) n = elim n [ ℕ.zero ↦ false | ℕ.suc m ↦ is_hex c && hex_run cs m ]

-- `re.compile(r"^[0-9a-f]{64}$").fullmatch(value) is not None`
unfoldable pub is_sha256 : String → Bool
unfolding is_hex hex_run
is_sha256 s = hex_run (codes s) 64

-- `a <= b` on texts, code point by code point.
codes_le : List ℕ → List ℕ → Bool
codes_le [] ys = true
codes_le (x ∷ xs) [] = false
codes_le (x ∷ xs) (y ∷ ys) = elim (compare x y) [
  | Ordering.lt ↦ true
  | Ordering.eq ↦ codes_le xs ys
  | Ordering.gt ↦ false
]

unfoldable pub str_le : String → String → Bool
unfolding codes_le
str_le a b = codes_le (codes a) (codes b)
