-- ===== src/Script/Regions.antt =====
-- Which regions the script copies (export/dsh_world_export.py).
use dsh_api.Prelude.{
  ℕ, zero, suc, ◌+◌, ◌*◌, ℤ, pos, negsuc, ◌≡◌, refl, ap, ◌∙◌, ◌↔◌, Bool, true, false, ◌&&◌, ◌||◌,
  List, [], ◌∷◌, map, any, any-append, ltb, arith, Bool-cases, inl, inr,
}
use dsh_api.Prelude.Int.{le_int, eq_int, succ, distance}
use dsh_api.Script.Box.{Box, region_of, count_up, range_to, pairs, regions}

-- `r in xs`
abbrev has_int : ℤ → List ℤ → Bool
has_int r xs = any (eq_int r) xs

abbrev same_pair : ℤ → ℤ → (ℤ × ℤ) → Bool
same_pair rx rz (x, z) = eq_int rx x && eq_int rz z

-- `(rx, rz) in list`
abbrev pub has_region : ℤ → ℤ → List (ℤ × ℤ) → Bool
has_region rx rz list = any (same_pair rx rz) list

step :
    (r a : ℤ) (n : ℕ)
    → (eq_int r a || (le_int (succ a) r && ltb (distance (succ a) r) n))
      ≡ (le_int a r && ltb (distance a r) (suc n))
step (pos m) (pos k) n = ground arith
step (pos m) (negsuc zero) n = ground arith
step (pos m) (negsuc (suc k)) n = ground arith
step (negsuc m) (pos k) n = ground arith
step (negsuc m) (negsuc zero) n = ground arith
step (negsuc m) (negsuc (suc k)) n = ground arith

has_int-count_up :
    (n : ℕ) (a r : ℤ) → has_int r (count_up a n) ≡ (le_int a r && ltb (distance a r) n)
unfolding count_up
has_int-count_up zero a r = ground arith
has_int-count_up (suc n) a r = rw (has_int-count_up n (succ a) r) (step r a n)

between :
    (a b r : ℤ)
    → le_int a b ≡ true
    → (le_int a r && ltb (distance a r) (suc (distance a b))) ≡ (le_int a r && le_int r b)
between (pos a) (pos b) (pos r) h = ground arith
between (pos a) (pos b) (negsuc r) h = ground arith
between (pos a) (negsuc b) r h = absurd (ground arith)
between (negsuc a) (pos b) (pos r) h = ground arith
between (negsuc a) (pos b) (negsuc r) h = ground arith
between (negsuc a) (negsuc b) (pos r) h = ground arith
between (negsuc a) (negsuc b) (negsuc r) h = ground arith

le_trans : (a b c : ℤ) → le_int a b ≡ true → le_int b c ≡ true → le_int a c ≡ true
le_trans (pos a) (pos b) (pos c) h k = ground arith
le_trans (pos a) (pos b) (negsuc c) h k = absurd (ground arith)
le_trans (pos a) (negsuc b) c h k = absurd (ground arith)
le_trans (negsuc a) (pos b) (pos c) h k = refl
le_trans (negsuc a) (pos b) (negsuc c) h k = absurd (ground arith)
le_trans (negsuc a) (negsuc b) (pos c) h k = refl
le_trans (negsuc a) (negsuc b) (negsuc c) h k = ground arith

has_int-range_to : (a b r : ℤ) → has_int r (range_to a b) ≡ (le_int a r && le_int r b)
has_int-range_to a b r = elim (Bool-cases (le_int a b)) [
  | inl up ↦ rw up (has_int-count_up (suc (distance a b)) a r ∙ between a b r up)
  | inr down ↦ rw down (ground (arith, le_trans a r b, down))
]

has_region-row :
    (rx rz x : ℤ) (zs : List ℤ)
    → has_region rx rz (map (λ z. (x, z)) zs) ≡ (eq_int rx x && has_int rz zs)
has_region-row rx rz x [] = ground arith
has_region-row rx rz x (z ∷ zs) = ground (arith, has_region-row rx rz x zs)

has_region-pairs :
    (rx rz : ℤ) (xs zs : List ℤ) → has_region rx rz (pairs xs zs) ≡ (has_int rx xs && has_int rz zs)
unfolding pairs
has_region-pairs rx rz [] zs = refl
has_region-pairs rx rz (x ∷ xs) zs =
    rw
      (
        any-append (same_pair rx rz) (map (λ z. (x, z)) zs) (pairs xs zs),
        has_region-row rx rz x zs,
        has_region-pairs rx rz xs zs,
      )
      (ground arith)

-- The first block of a region.
abbrev start_of : ℤ → ℤ
start_of (pos n) = pos (512 * n)
start_of (negsuc n) = negsuc (512 * n + 511)

region_of_mono : (a b : ℤ) → le_int a b ≡ true → le_int (region_of a) (region_of b) ≡ true
region_of_mono (pos a) (pos b) h = ground arith
region_of_mono (pos a) (negsuc b) h = absurd (ground arith)
region_of_mono (negsuc a) (pos b) h = refl
region_of_mono (negsuc a) (negsuc b) h = ground arith

region_of-start : (r : ℤ) → region_of (start_of r) ≡ r
region_of-start (pos n) = ap pos (omega arith)
region_of-start (negsuc n) = ap negsuc (omega arith)

start_below : (r b : ℤ) → le_int r (region_of b) ≡ true → le_int (start_of r) b ≡ true
start_below (pos r) (pos b) h = ground arith
start_below (pos r) (negsuc b) h = absurd (ground arith)
start_below (negsuc r) (pos b) h = refl
start_below (negsuc r) (negsuc b) h = ground arith

-- The region of a block before its start would be an earlier one.
same_region :
    (a r : ℤ) → le_int (region_of a) r ≡ true → le_int a (start_of r) ≡ false → region_of a ≡ r
same_region (pos a) (pos r) h k = ap pos (ground arith)
same_region (pos a) (negsuc r) h k = absurd (ground arith)
same_region (negsuc a) (pos r) h k = absurd (ground arith)
same_region (negsuc a) (negsuc r) h k = ap negsuc (ground arith)

le_refl : (a : ℤ) → le_int a a ≡ true
le_refl (pos a) = ground arith
le_refl (negsuc a) = ground arith

both : {a b : Bool} → a ≡ true → b ≡ true → (a && b) ≡ true
both h k = ground arith

both_iff : (a b : Bool) → ((a && b) ≡ true) ↔ ((a ≡ true) × (b ≡ true))
both_iff a b = ground arith

-- A block of a side of the box, in the region.
abbrev pub HasBlock : (a b r : ℤ) → Type 0
HasBlock a b r = (x : ℤ) × (le_int a x ≡ true) × (le_int x b ≡ true) × (region_of x ≡ r)

in_range :
    (a b r : ℤ)
    → le_int a b ≡ true
    → (le_int (region_of a) r && le_int r (region_of b)) ≡ true
    → HasBlock a b r
in_range a b r up h = elim (Bool-cases (le_int a (start_of r))) [
  | inl after ↦ (start_of r, after, start_below r b (ground arith), region_of-start r)
  | inr before ↦ (a, le_refl a, up, same_region a r (ground arith) before)
]

from_block :
    (a b r : ℤ) → HasBlock a b r → (le_int (region_of a) r && le_int r (region_of b)) ≡ true
from_block a b r (x, low, high, here) =
    rw⁻¹ here (both (region_of_mono a x low) (region_of_mono x b high))

-- Of a box whose corners are in order, the regions that the script copies are those in which a
-- column of the box lies.
pub regions_iff :
    (box : Box) (rx rz : ℤ)
    → le_int box.x1 box.x2 ≡ true
    → le_int box.z1 box.z2 ≡ true
    → (has_region rx rz (regions box) ≡ true)
      ↔ (HasBlock box.x1 box.x2 rx × HasBlock box.z1 box.z2 rz)
unfolding regions
regions_iff box rx rz wide deep =
    rw
      (
        has_region-pairs rx rz (range_to (region_of box.x1) (region_of box.x2))
            (range_to (region_of box.z1) (region_of box.z2)),
        has_int-range_to (region_of box.x1) (region_of box.x2) rx,
        has_int-range_to (region_of box.z1) (region_of box.z2) rz,
      )
      (
        λ h.
            let (x, z) = (both_iff _ _).0 h in
            (in_range box.x1 box.x2 rx wide x, in_range box.z1 box.z2 rz deep z),
        λ blocks.
            both (from_block box.x1 box.x2 rx blocks.0) (from_block box.z1 box.z2 rz blocks.1),
      )
