-- ===== src/Prelude/Numerals.antt =====
-- What is written as a number is read as that number.
use Prim.Native.Char.{Char, code}
use Prim.Native.Nat.{ℕ, zero, suc, ◌+◌, ◌-◌, ◌*◌, ◌/◌, ◌%◌, ◌<◌}
use Prim.Native.String.{String}
use native.Mathlib.Nat.{div-add-mod}
use native.Mathlib.Omega.{arith}
use mathlib.Core.Bool.{Bool, true, false}
use mathlib.Core.List.{List, [], ◌∷◌}
use mathlib.Core.Logic.{inl, inr}
use mathlib.Core.Option.{some}
use mathlib.Core.Path.{◌≡◌, refl, ap, ◌∙◌}
use dsh_api.Prelude.Chars.{chars, is_digit}
use dsh_api.Prelude.Decimal.{
  digit_in, prepend, digits, decimal, parse_digits, some_digits, parse_nat, parse_int, int_of,
}
use dsh_api.Prelude.Int.{pos}
use dsh_api.Prelude.Lists.{any}
use dsh_api.Prelude.Tests.{ltb, Bool-cases}

abbrev decimals : String
decimals = "0123456789"

parse-digit :
    (k acc : ℕ) (done : String)
    → k < 10
    → parse_digits acc (chars (prepend (digit_in k decimals) done))
      ≡ parse_digits (10 * acc + k) (chars done)
unfolding parse_digits chars
parse-digit zero acc done h = refl
parse-digit (suc zero) acc done h = refl
parse-digit (suc (suc zero)) acc done h = refl
parse-digit (suc (suc (suc zero))) acc done h = refl
parse-digit (suc (suc (suc (suc zero)))) acc done h = refl
parse-digit (suc (suc (suc (suc (suc zero))))) acc done h = refl
parse-digit (suc (suc (suc (suc (suc (suc zero)))))) acc done h = refl
parse-digit (suc (suc (suc (suc (suc (suc (suc zero))))))) acc done h = refl
parse-digit (suc (suc (suc (suc (suc (suc (suc (suc zero)))))))) acc done h = refl
parse-digit (suc (suc (suc (suc (suc (suc (suc (suc (suc zero))))))))) acc done h = refl
parse-digit (suc (suc (suc (suc (suc (suc (suc (suc (suc (suc k)))))))))) acc done h =
    absurd (omega arith)

zero_less : (n : ℕ) → 10 * 0 + n ≡ n
zero_less n = omega arith

again : (n : ℕ) → 10 * (n / 10) + n % 10 ≡ n
again n = omega (arith, div-add-mod n 10)

parse-digits :
    (fuel n : ℕ) (done : String)
    → n < fuel
    → parse_digits 0 (chars (digits fuel n done)) ≡ parse_digits n (chars done)
parse-digits zero n done h = absurd (omega arith)
parse-digits (suc fuel) n done h = elim (Bool-cases (ltb n 10)) [
  | inl small ↦ rw small (
      parse-digit n 0 done (ground arith)
      ∙ ap (λ (k : ℕ). parse_digits k (chars done)) (zero_less n))
  | inr large ↦
      rw
        (
          large,
          parse-digits fuel (n / 10) (prepend (digit_in (n % 10) decimals) done) (ground arith),
          parse-digit (n % 10) (n / 10) done (omega arith),
          again n,
        )
        refl
]

-- The digits of a number are read back.
pub parse_digits-decimal : (n : ℕ) → parse_digits 0 (chars (decimal n)) ≡ some n
unfolding decimal parse_digits chars
parse_digits-decimal n = parse-digits (suc n) n "" (omega arith)

-- A text that starts somehow.
abbrev starts_with_digit : List Char → Bool
starts_with_digit [] = false
starts_with_digit (c ∷ _) = is_digit c

digit-starts :
    (k : ℕ) (done : String)
    → k < 10
    → starts_with_digit (chars (prepend (digit_in k decimals) done)) ≡ true
unfolding chars
digit-starts zero done h = refl
digit-starts (suc zero) done h = refl
digit-starts (suc (suc zero)) done h = refl
digit-starts (suc (suc (suc zero))) done h = refl
digit-starts (suc (suc (suc (suc zero)))) done h = refl
digit-starts (suc (suc (suc (suc (suc zero))))) done h = refl
digit-starts (suc (suc (suc (suc (suc (suc zero)))))) done h = refl
digit-starts (suc (suc (suc (suc (suc (suc (suc zero))))))) done h = refl
digit-starts (suc (suc (suc (suc (suc (suc (suc (suc zero)))))))) done h = refl
digit-starts (suc (suc (suc (suc (suc (suc (suc (suc (suc zero))))))))) done h = refl
digit-starts (suc (suc (suc (suc (suc (suc (suc (suc (suc (suc k)))))))))) done h =
    absurd (omega arith)

digits-starts :
    (fuel n : ℕ) (done : String) → n < fuel → starts_with_digit (chars (digits fuel n done)) ≡ true
digits-starts zero n done h = absurd (omega arith)
digits-starts (suc fuel) n done h = elim (Bool-cases (ltb n 10)) [
  | inl small ↦ rw small (digit-starts n done (ground arith))
  | inr large ↦
      rw large
        (digits-starts fuel (n / 10) (prepend (digit_in (n % 10) decimals) done) (ground arith))
]

-- A natural number that is written is read back.
pub parse_nat-decimal : (n : ℕ) → parse_nat (decimal n) ≡ some n
unfolding parse_nat decimal chars
parse_nat-decimal n =
    go (chars (decimal n)) (digits-starts (suc n) n "" (omega arith)) (parse_digits-decimal n)
  where
    go :
        (cs : List Char)
        → starts_with_digit cs ≡ true
        → parse_digits 0 cs ≡ some n
        → some_digits cs ≡ some n
    go [] starts parsed = absurd (ground arith)
    go (c ∷ cs) starts parsed = parsed

pub parse_int-decimal : (n : ℕ) → parse_int (decimal n) ≡ some (pos n)
unfolding parse_int decimal chars
parse_int-decimal n =
    go (chars (decimal n)) (digits-starts (suc n) n "" (omega arith)) (parse_digits-decimal n)
  where
    go :
        (cs : List Char)
        → starts_with_digit cs ≡ true
        → parse_digits 0 cs ≡ some n
        → int_of cs ≡ some (pos n)
    go [] starts parsed = absurd (ground arith)
    go (c ∷ cs) starts parsed = ground (arith, parsed)

-- A text of digits has no other character.
pub digits_only :
    (p : Char → Bool) (cs : List Char) (acc n : ℕ)
    → ((c : Char) → is_digit c ≡ true → p c ≡ false)
    → parse_digits acc cs ≡ some n
    → any p cs ≡ false
unfolding parse_digits
digits_only p [] acc n no_digit parsed = refl
digits_only p (c ∷ cs) acc n no_digit parsed = elim (Bool-cases (is_digit c)) [
  | inl digit ↦
      rw (no_digit c digit)
        (digits_only p cs (10 * acc + (code c - b'0')) n no_digit (rw digit at parsed))
  | inr other ↦ absurd (ground arith)
]
