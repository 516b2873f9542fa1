-- ===== src/Prelude/Decimal.antt =====
-- `str(n)` for a natural number.
use Prim.Native.Char.{Char, code}
use Prim.Native.Nat.{ℕ, zero, suc, ◌+◌, ◌-◌, ◌*◌, ◌/◌, ◌%◌}
use Prim.Native.String.{String}
use mathlib.Core.List.{List, [], ◌∷◌}
use mathlib.Core.Option.{Option, none, some}
use dsh_api.Prelude.Chars.{chars, is_char, is_digit}
use dsh_api.Prelude.Int.{ℤ, pos, negsuc}
use dsh_api.Prelude.Tests.{ltb, if◌then◌else◌}

abbrev pub digit_in : ℕ → String → String
digit_in zero (String.◌∷◌ c s) = String.◌∷◌ c ""
digit_in (suc n) (String.◌∷◌ c s) = digit_in n s
digit_in _ String.[] = ""

abbrev pub prepend : String → String → String
prepend String.[] t = t
prepend (String.◌∷◌ c s) t = String.◌∷◌ c (prepend s t)

-- Each step takes the last digit; a number has no more digits than it says.
abbrev pub digits : (fuel n : ℕ) → String → String
digits zero n done = done
digits (suc fuel) n done =
    let rest = digits fuel (n / 10) (prepend (digit_in (n % 10) "0123456789") done) in
    if ltb n 10 then prepend (digit_in n "0123456789") done else rest

unfoldable pub decimal : ℕ → String
decimal n = digits (suc n) n ""

-- `int(s)` of a text that is a sign at most and digits; the spellings with spaces, underscores and
-- digits of other scripts, which no code here writes, are no numbers.
unfoldable pub parse_digits : ℕ → List Char → Option ℕ
parse_digits seen [] = some seen
parse_digits seen (c ∷ cs) =
    let rest = parse_digits (10 * seen + (code c - b'0')) cs in if is_digit c then rest else none

abbrev pub some_digits : List Char → Option ℕ
some_digits [] = none
some_digits (c ∷ cs) = parse_digits 0 (c ∷ cs)

unfoldable pub parse_nat : String → Option ℕ
unfolding parse_digits chars
parse_nat s = some_digits (chars s)

abbrev negated : ℕ → ℤ
negated zero = pos 0
negated (suc n) = negsuc n

abbrev signed : (ℕ → ℤ) → Option ℕ → Option ℤ
signed f none = none
signed f (some n) = some (f n)

abbrev pub int_of : List Char → Option ℤ
int_of [] = none
int_of (c ∷ cs) =
    if is_char b'-' c
    then signed negated (some_digits cs)
    else signed pos (some_digits (if is_char b'+' c then cs else c ∷ cs))

unfoldable pub parse_int : String → Option ℤ
unfolding parse_digits chars
parse_int s = int_of (chars s)
