-- ===== src/Prelude/Int.antt =====
-- Whole numbers over the native ℕ.
use Prim.Native.Nat.{ℕ, zero, suc, ◌+◌, ◌-◌, ◌/◌}
use mathlib.Core.Path.{◌≡◌, refl, ap}
use mathlib.Core.Bool.{Bool, true, false}
use native.Mathlib.Omega.{arith}
use dsh_api.Prelude.Tests.{leb, eqb, if◌then◌else◌}

-- `negsuc n` is -(n + 1).
pub data ℤ : Type 0 where
  pos : ℕ → ℤ
  negsuc : ℕ → ℤ

-- `abs`
abbrev pub abs : ℤ → ℕ
abs (pos n) = n
abs (negsuc n) = suc n

-- `a <= b`
abbrev pub le_int : ℤ → ℤ → Bool
le_int (pos m) (pos n) = leb m n
le_int (pos m) (negsuc n) = false
le_int (negsuc m) (pos n) = true
le_int (negsuc m) (negsuc n) = leb n m

-- m - n, of two naturals.
abbrev pub diff : ℕ → ℕ → ℤ
diff m n = if leb n m then pos (m - n) else negsuc (n - suc m)

-- `a - b`
abbrev pub minus : ℤ → ℤ → ℤ
minus (pos m) (pos n) = diff m n
minus (pos m) (negsuc n) = pos (m + suc n)
minus (negsuc m) (pos n) = negsuc (m + n)
minus (negsuc m) (negsuc n) = diff n m

-- `a + 1`
abbrev pub succ : ℤ → ℤ
succ (pos n) = pos (suc n)
succ (negsuc zero) = pos 0
succ (negsuc (suc n)) = negsuc n

-- `a + b`
abbrev pub plus : ℤ → ℤ → ℤ
plus (pos m) (pos n) = pos (m + n)
plus (pos m) (negsuc n) = diff m (suc n)
plus (negsuc m) (pos n) = diff n (suc m)
plus (negsuc m) (negsuc n) = negsuc (suc (m + n))

-- `a // d`, rounded down, for a divisor that is not 0.
abbrev pub floor_div : ℤ → ℕ → ℤ
floor_div (pos n) d = pos (n / d)
floor_div (negsuc n) d = negsuc (n / d)

-- `a == b`
abbrev pub eq_int : ℤ → ℤ → Bool
eq_int (pos m) (pos n) = eqb m n
eq_int (negsuc m) (negsuc n) = eqb m n
eq_int _ _ = false

-- How far two numbers are apart.
abbrev pub distance : ℤ → ℤ → ℕ
distance (pos m) (pos n) = (m - n) + (n - m)
distance (pos m) (negsuc n) = m + suc n
distance (negsuc m) (pos n) = suc m + n
distance (negsuc m) (negsuc n) = (m - n) + (n - m)

-- The larger less the smaller is the distance.
pub minus-distance : (a b : ℤ) → le_int a b ≡ true → minus b a ≡ pos (distance a b)
minus-distance (pos m) (pos n) h = ground arith
minus-distance (pos m) (negsuc n) h = absurd (ground arith)
minus-distance (negsuc m) (pos n) h = ap pos (omega arith)
minus-distance (negsuc m) (negsuc n) h = ground arith

pub distance_comm : (a b : ℤ) → distance a b ≡ distance b a
distance_comm (pos m) (pos n) = omega arith
distance_comm (pos m) (negsuc n) = omega arith
distance_comm (negsuc m) (pos n) = omega arith
distance_comm (negsuc m) (negsuc n) = omega arith

pub le_int_total : (a b : ℤ) → le_int a b ≡ false → le_int b a ≡ true
le_int_total (pos m) (pos n) h = ground arith
le_int_total (pos m) (negsuc n) h = refl
le_int_total (negsuc m) (pos n) h = absurd (ground arith)
le_int_total (negsuc m) (negsuc n) h = ground arith
