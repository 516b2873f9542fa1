-- ===== src/Script/Box.antt =====
-- The class `Area` of export/dsh_world_export.py.
use dsh_api.Prelude.{ℕ, zero, suc, ◌/◌, ℤ, pos, List, [], ◌∷◌, ◌++◌, map, if◌then◌else◌}
use dsh_api.Prelude.Int.{le_int, minus, plus, succ, distance, floor_div}

-- REGION_BLOCKS
abbrev pub region_blocks : ℕ
region_blocks = 512

-- A box of blocks, both ends included.
pub record Box : Type 0 where
  pub x1 : ℤ
  pub z1 : ℤ
  pub x2 : ℤ
  pub z2 : ℤ

abbrev pub least : ℤ → ℤ → ℤ
least a b = if le_int a b then a else b

abbrev pub greatest : ℤ → ℤ → ℤ
greatest a b = if le_int a b then b else a

unfoldable pub from_corners : (x1 z1 x2 z2 : ℤ) → Box
from_corners x1 z1 x2 z2 = record {
  x1 = least x1 x2;
  z1 = least z1 z2;
  x2 = greatest x1 x2;
  z2 = greatest z1 z2;
}

abbrev pub low_side : ℤ → ℕ → ℤ
low_side x size = minus x (pos (size / 2))

abbrev pub high_side : ℤ → ℕ → ℤ
high_side x size = minus (plus (low_side x size) (pos size)) (pos 1)

unfoldable pub around : (x z : ℤ) (size : ℕ) → Box
around x z size = record {
  x1 = low_side x size;
  z1 = low_side z size;
  x2 = high_side x size;
  z2 = high_side z size;
}

-- `x2 - x1 + 1` and `z2 - z1 + 1`
unfoldable pub width : Box → ℤ
width box = succ (minus box.x2 box.x1)

unfoldable pub depth : Box → ℤ
depth box = succ (minus box.z2 box.z1)

-- So many numbers, from one on.
unfoldable pub count_up : ℤ → ℕ → List ℤ
count_up a zero = []
count_up a (suc n) = a ∷ count_up (succ a) n

-- `range(a, b + 1)`
abbrev pub range_to : ℤ → ℤ → List ℤ
range_to a b = if le_int a b then count_up a (suc (distance a b)) else []

unfoldable pub pairs : List ℤ → List ℤ → List (ℤ × ℤ)
pairs [] zs = []
pairs (x ∷ xs) zs = map (λ z. (x, z)) zs ++ pairs xs zs

abbrev pub region_of : ℤ → ℤ
region_of x = floor_div x region_blocks

unfoldable pub regions : Box → List (ℤ × ℤ)
unfolding count_up pairs
regions box =
    pairs (range_to (region_of box.x1) (region_of box.x2))
      (range_to (region_of box.z1) (region_of box.z2))
