-- ===== src/Prelude/Splitting.antt =====
-- `str.rstrip`, `str.strip` and `str.split`, for characters that pass a test.
use Prim.Native.Char.{Char}
use Prim.Native.String as S
use Prim.Native.String.append
use Prim.Native.String.{String}
use native.Mathlib.Omega.{arith}
use mathlib.Core.Bool.{Bool, true, false}
use mathlib.Core.List.{List, [], ◌∷◌, ◌++◌, map, reverse}
use mathlib.Core.Option.{Option, none, some}
use mathlib.Core.Path.{◌≡◌, refl, ap, ◌∙◌}
use dsh_api.Prelude.Chars.{chars, text}
use dsh_api.Prelude.Lists.{any}
use dsh_api.Prelude.Text.{concat}
use dsh_api.Prelude.Tests.{if◌then◌else◌}

-- `s.rstrip(c)`, of a text given backwards.
abbrev pub strip_front : (Char → Bool) → List Char → List Char
strip_front p [] = []
strip_front p (c ∷ cs) = if p c then strip_front p cs else c ∷ cs

unfoldable pub rstrip : (Char → Bool) → String → String
unfolding chars text
rstrip p s = text (reverse (strip_front p (reverse (chars s))))

unfoldable pub strip : (Char → Bool) → String → String
unfolding rstrip chars text
strip p s = text (strip_front p (chars (rstrip p s)))

-- `value.split(c)`, on the characters: always one piece at least.
unfoldable pub split_at : (Char → Bool) → List Char → List Char × List (List Char)
split_at p [] = ([], [])
split_at p (c ∷ cs) =
    let (first, others) = split_at p cs in if p c then ([], first ∷ others) else (c ∷ first, others)

unfoldable pub split : (Char → Bool) → String → List String
unfolding split_at chars text
split p s = let (first, others) = split_at p (chars s) in text first ∷ map text others

-- `value.split(c, 1)`, where there is a separator.
unfoldable pub split_once : (Char → Bool) → List Char → Option (List Char × List Char)
split_once p [] = none
split_once p (c ∷ cs) =
    let rest = split_once p cs in
    if p c then some ([], cs) else elim rest [ none ↦ none | some (a, b) ↦ some (c ∷ a, b) ]

pub split_once-append :
    (p : Char → Bool) (xs ys : List Char) (c : Char)
    → any p xs ≡ false
    → p c ≡ true
    → split_once p (xs ++ c ∷ ys) ≡ some (xs, ys)
unfolding split_once
split_once-append p [] ys c free here = rw here refl
split_once-append p (x ∷ xs) ys c free here = ground (arith, split_once-append p xs ys c)

pub split_at-append :
    (p : Char → Bool) (xs ys : List Char) (c : Char)
    → any p xs ≡ false
    → p c ≡ true
    → split_at p (xs ++ c ∷ ys) ≡ (xs, (split_at p ys).0 ∷ (split_at p ys).1)
unfolding split_at
split_at-append p [] ys c free here = rw here refl
split_at-append p (x ∷ xs) ys c free here = ground (arith, split_at-append p xs ys c)

pub split_at-free : (p : Char → Bool) (xs : List Char) → any p xs ≡ false → split_at p xs ≡ (xs, [])
unfolding split_at
split_at-free p [] free = refl
split_at-free p (x ∷ xs) free = ground (arith, split_at-free p xs)

pub chars-append : (s t : String) → chars (S.◌++◌ s t) ≡ chars s ++ chars t
unfolding chars
chars-append S.[] t = ap chars (append.nil t)
chars-append (S.◌∷◌ c s) t = ap chars (append.cons c s t) ∙ ap (◌∷◌ c) (chars-append s t)

-- The characters of an f-string.
pub chars-concat :
    (s : String) (rest : List String) → chars (concat (s ∷ rest)) ≡ chars s ++ chars (concat rest)
chars-concat s rest = chars-append s (concat rest)
