-- ===== src/Prelude/Chars.antt =====
-- Texts as lists of characters, for the code that cuts them.
use Prim.Native.Nat.{ℕ}
use Prim.Native.Char.{Char, code}
use Prim.Native.String.{String}
use mathlib.Core.Path.{◌≡◌, refl, ap}
use mathlib.Core.Bool.{Bool, true, false, ◌&&◌}
use mathlib.Core.List.{List, [], ◌∷◌, reverse, map}
use dsh_api.Prelude.Tests.{if◌then◌else◌, eqb, leb}

unfoldable pub chars : String → List Char
chars String.[] = []
chars (String.◌∷◌ c s) = c ∷ chars s

unfoldable pub text : List Char → String
text [] = ""
text (c ∷ cs) = String.◌∷◌ c (text cs)

pub text-chars : (s : String) → text (chars s) ≡ s
unfolding chars text
text-chars String.[] = refl
text-chars (String.◌∷◌ c s) = ap (String.◌∷◌ c) (text-chars s)

pub chars-text : (cs : List Char) → chars (text cs) ≡ cs
unfolding chars text
chars-text [] = refl
chars-text (c ∷ cs) = ap (◌∷◌ c) (chars-text cs)

abbrev pub is_char : ℕ → Char → Bool
is_char n c = eqb (code c) n

abbrev pub is_digit : Char → Bool
is_digit c = leb b'0' (code c) && leb (code c) b'9'

-- The characters before the first that passes, and all of them if none does.
unfoldable pub before : (Char → Bool) → List Char → List Char
before p [] = []
before p (c ∷ cs) = if p c then [] else c ∷ before p cs

-- The characters behind the last that passes, and all of them if none does:
-- `s.rsplit("/", 1)[-1]`.
unfoldable pub after_last : (Char → Bool) → List Char → List Char
after_last p cs = reverse (before p (reverse cs))

unfoldable pub starts : List Char → List Char → Bool
starts [] cs = true
starts (d ∷ ds) [] = false
starts (d ∷ ds) (c ∷ cs) = eqb (code d) (code c) && starts ds cs

-- `s.removesuffix(t)`, for a suffix given backwards.
unfoldable pub drop_prefix : List Char → List Char → List Char
drop_prefix [] cs = cs
drop_prefix (d ∷ ds) [] = []
drop_prefix (d ∷ ds) (c ∷ cs) = drop_prefix ds cs

abbrev letter_pairs : List Char → List Char → Char → Char
letter_pairs (u ∷ us) (l ∷ ls) c = if eqb (code c) (code u) then l else letter_pairs us ls c
letter_pairs _ _ c = c

-- `str.lower`, on ASCII.
unfoldable pub lower_char : Char → Char
unfolding chars
lower_char c =
    letter_pairs (chars "ABCDEFGHIJKLMNOPQRSTUVWXYZ") (chars "abcdefghijklmnopqrstuvwxyz") c

unfoldable pub lower_text : String → String
unfolding chars text lower_char
lower_text s = text (map lower_char (chars s))
