-- ===== src/Export/Area.antt =====
-- `ExportService.validate_area` (src/dsh_api/export_service.py).
use dsh_api.Prelude.{
  ℕ, suc, ℤ, pos, negsuc, ◌≤◌, ◌<◌, ◌≡◌, ◌↔◌, refl, Bool, true, false, ◌||◌, [], ◌∷◌, ltb, concat,
  arith, Bool-cases, inl, inr, if◌then◌else◌,
}
use dsh_api.Prelude.Decimal.{decimal}
use dsh_api.Prelude.Int.{
  abs, le_int, minus, succ, distance, minus-distance, distance_comm, le_int_total,
}
use dsh_api.Action.{Error, Result, ok, err, invalid_area}
use dsh_api.Db.Exports.{Area}

-- The world border.
abbrev pub coordinate_limit : ℕ
coordinate_limit = 29999984

abbrev pub is_outside : ℤ → Bool
is_outside v = ltb coordinate_limit (abs v)

-- `sorted((a, b))`
abbrev pub smaller : ℤ → ℤ → ℤ
smaller a b = if le_int a b then a else b

abbrev pub larger : ℤ → ℤ → ℤ
larger a b = if le_int a b then b else a

abbrev exceeds : ℕ → ℤ → Bool
exceeds cap (pos n) = ltb cap n
exceeds cap (negsuc n) = false

-- `b - a + 1 > cap`
abbrev pub is_wide : ℕ → ℤ → ℤ → Bool
is_wide cap a b = exceeds cap (succ (minus b a))

-- `cap` is the setting `export_max_size`.
unfoldable pub validate_area : (cap : ℕ) (x1 z1 x2 z2 : ℤ) → Result Area
unfolding decimal
validate_area cap x1 z1 x2 z2 =
    if is_outside x1 || is_outside z1 || is_outside x2 || is_outside z2
    then err (invalid_area "coordinates must be inside the world border")
    else if is_wide cap (smaller x1 x2) (larger x1 x2) || is_wide cap (smaller z1 z2) (larger z1 z2)
    then err (
        invalid_area (
          concat ("the area can be at most " ∷ decimal cap ∷ " × " ∷ decimal cap ∷ " blocks" ∷ [])))
    else ok record { x1 = smaller x1 x2; z1 = smaller z1 z2; x2 = larger x1 x2; z2 = larger z1 z2 }

is_wide-distance :
    (cap : ℕ) (a b : ℤ) → is_wide cap (smaller a b) (larger a b) ≡ ltb cap (suc (distance a b))
is_wide-distance cap a b = elim (Bool-cases (le_int a b)) [
  | inl up ↦ rw (up, minus-distance a b up) refl
  | inr down ↦ rw (down, minus-distance b a (le_int_total a b down), distance_comm a b) refl
]

-- Every corner is inside the world border.
abbrev pub IsInBorder : (x1 z1 x2 z2 : ℤ) → Type 0
IsInBorder x1 z1 x2 z2 =
    (abs x1 ≤ coordinate_limit)
    × (abs z1 ≤ coordinate_limit)
    × (abs x2 ≤ coordinate_limit)
    × (abs z2 ≤ coordinate_limit)

abbrev any_outside : (x1 z1 x2 z2 : ℤ) → Bool
any_outside x1 z1 x2 z2 = is_outside x1 || is_outside z1 || is_outside x2 || is_outside z2

abbrev any_wide : (cap : ℕ) (x1 z1 x2 z2 : ℤ) → Bool
any_wide cap x1 z1 x2 z2 =
    is_wide cap (smaller x1 x2) (larger x1 x2) || is_wide cap (smaller z1 z2) (larger z1 z2)

is_outside_iff : (v : ℤ) → (is_outside v ≡ false) ↔ (abs v ≤ coordinate_limit)
is_outside_iff v = ground arith

never : {e : Error} {a : Area} → err e ≡ ok a → ⊥
never h = cc

clash : {b : Bool} → b ≡ false → b ≡ true → ⊥
clash f t = cc

any_outside_iff : (x1 z1 x2 z2 : ℤ) → (any_outside x1 z1 x2 z2 ≡ false) ↔ IsInBorder x1 z1 x2 z2
any_outside_iff x1 z1 x2 z2 =
    four (is_outside x1) (is_outside z1) (is_outside x2) (is_outside z2) (is_outside_iff x1)
      (is_outside_iff z1) (is_outside_iff x2) (is_outside_iff z2)
  where
    four :
        {P Q R S : Type 0} (a b c d : Bool)
        → (a ≡ false) ↔ P
        → (b ≡ false) ↔ Q
        → (c ≡ false) ↔ R
        → (d ≡ false) ↔ S
        → ((a || b || c || d) ≡ false) ↔ (P × Q × R × S)
    four a b c d p q r s = ground (arith, p, q, r, s)

any_wide_iff :
    (cap : ℕ) (x1 z1 x2 z2 : ℤ)
    → (any_wide cap x1 z1 x2 z2 ≡ false) ↔ ((distance x1 x2 < cap) × (distance z1 z2 < cap))
any_wide_iff cap x1 z1 x2 z2 =
    rw (is_wide-distance cap x1 x2, is_wide-distance cap z1 z2)
      (both (distance x1 x2) (distance z1 z2) cap)
  where
    both : (m n cap : ℕ) → ((ltb cap (suc m) || ltb cap (suc n)) ≡ false) ↔ ((m < cap) × (n < cap))
    both m n cap = ground arith

-- Two corners, in whatever order, are accepted as the sorted box exactly when all coordinates are
-- inside the world border and the box is at most `cap` blocks wide in both directions.
pub validate_area_iff :
    (cap : ℕ) (x1 z1 x2 z2 : ℤ)
    → (validate_area cap x1 z1 x2 z2
        ≡ ok
            record { x1 = smaller x1 x2; z1 = smaller z1 z2; x2 = larger x1 x2; z2 = larger z1 z2 })
      ↔ (IsInBorder x1 z1 x2 z2 × (distance x1 x2 < cap) × (distance z1 z2 < cap))
unfolding validate_area
validate_area_iff cap x1 z1 x2 z2 =
    let (to_border, from_border) = any_outside_iff x1 z1 x2 z2 in
    let (to_size, from_size) = any_wide_iff cap x1 z1 x2 z2 in
    elim (Bool-cases (any_outside x1 z1 x2 z2)) [
      | inl out ↦ (λ h. absurd (never (rw out at h)), λ h. absurd (clash (from_border h.0) out))
      | inr inside ↦ elim (Bool-cases (any_wide cap x1 z1 x2 z2)) [
        | inl wide ↦ (
          λ h. absurd (never (rw (inside, wide) at h)),
          λ h. absurd (clash (from_size (h.1, h.2)) wide),
        )
        | inr narrow ↦ (
          λ h. (to_border inside, (to_size narrow).0, (to_size narrow).1),
          λ h. rw (inside, narrow) refl,
        )
      ]
    ]
