-- ===== src/Prelude/Text.antt =====
-- Texts: whole texts are the native `String`; where the program looks inside one, it is the list
-- of its characters' codes. `lower` is Python's on ASCII.
use Prim.Native.Nat.{ℕ, ◌+◌}
use Prim.Native.Char.{Char, code}
use Prim.Native.String.{String, ◌++◌, compare}
use mathlib.Core.Bool.{Bool, true, false, ◌&&◌, ◌||◌}
use mathlib.Core.List.{List, [], ◌∷◌, map}
use dsh_api.Prelude.Tests.{leb, eqb, if◌then◌else◌}
pub use text.Mathlib.Text.{◌==◌}
use text.Mathlib.Text.{is_le}

-- An f-string: its pieces, joined.
abbrev pub concat : List String → String
concat [] = ""
concat (s ∷ rest) = s ++ concat rest

-- The order of texts by which a query sorts.
abbrev pub str_le : String → String → Bool
str_le s t = is_le (compare s t)

abbrev pub is_empty : String → Bool
is_empty s = s == ""

-- The code points of a text. `String` has its own `[]` and `∷`.
unfoldable pub codes : String → List ℕ
codes String.[] = []
codes (String.◌∷◌ c s) = code c ∷ codes s

unfoldable pub lower_code : ℕ → ℕ
lower_code c = if leb b'A' c && leb c b'Z' then c + 32 else c

unfoldable pub lower : List ℕ → List ℕ
unfolding lower_code
lower = map lower_code

unfoldable pub is_prefix : List ℕ → List ℕ → Bool
is_prefix [] _ = true
is_prefix (c ∷ cs) [] = false
is_prefix (c ∷ cs) (d ∷ ds) = eqb c d && is_prefix cs ds

-- `t in s`.
unfoldable pub is_infix : List ℕ → List ℕ → Bool
unfolding is_prefix
is_infix t [] = is_prefix t []
is_infix t (d ∷ ds) = is_prefix t (d ∷ ds) || is_infix t ds

-- `s.replace(a, b)` for single characters, by their codes.
unfoldable pub replace_char : ℕ → Char → String → String
replace_char a b String.[] = ""
replace_char a b (String.◌∷◌ c s) =
    String.◌∷◌ (if eqb (code c) a then b else c) (replace_char a b s)
