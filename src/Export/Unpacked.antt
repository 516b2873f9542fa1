-- ===== src/Export/Unpacked.antt =====
-- What an export leaves on the disk (src/dsh_api/export_pod.py).
use Prim.Native.Char.{Char}
use dsh_api.Prelude.{
  ℕ, suc, ◌+◌, ◌≤◌, String, ◌≡◌, refl, Bool, true, false, ◌&&◌, Option, none, some, List, [], ◌∷◌,
  ◌++◌, All, All-append, arith, ltb, length, Bool-cases, inl, inr, if◌then◌else◌,
}
use dsh_api.Prelude.Dict.{has}
use dsh_api.Action.{Error, Result, ok, err}
use dsh_api.Export.Names.{allowed}
use dsh_api.Export.Unpack.{
  Member, bare, required, check_required, finish, is_regular, is_preview_dir, unpack, max_members,
  max_unpacked_bytes,
}

-- The bytes of the files among the members.
abbrev pub file_bytes : List Member → ℕ
file_bytes [] = 0
file_bytes (m ∷ ms) = if is_regular m.kind then m.size + file_bytes ms else file_bytes ms

check_required-has :
    (names written out : List String)
    → check_required names written ≡ ok out
    → (out ≡ written) × All (λ n. has n written ≡ true) names
unfolding check_required
check_required-has [] written out h = (ground arith, tt)
check_required-has (n ∷ names) written out h = elim (Bool-cases (has n written)) [
  | inl there ↦
      let (same, all) = check_required-has names written out (ground arith) in (same, (there, all))
  | inr missing ↦ absurd (ground arith)
]

module _ (is_decimal : Char → Bool) (repr : String → String) where
  -- What one member does to the loop.
  pub data IsStep (count : ℕ) (m : Member) (members : List Member) (broken : Option String)
      (total : ℕ) (written : List String) : Result (List String) × List String → Type 0 where
    refused : (e : Error) → IsStep count m members broken total written (err e, written)
    skipped :
        count ≤ max_members
        → is_regular m.kind ≡ false
        → IsStep count m members broken total written
            (unpack is_decimal repr (suc count) members broken total written)
    taken :
        count ≤ max_members
        → is_regular m.kind ≡ true
        → allowed is_decimal (bare m.name) ≡ true
        → total + m.size ≤ max_unpacked_bytes
        → IsStep count m members broken total written (
            unpack is_decimal repr
              (suc count)
              members
              broken
              (total + m.size)
              (written ++ bare m.name ∷ []))

  preview_dir-is_regular : (m : Member) → is_preview_dir m ≡ true → is_regular m.kind ≡ false
  preview_dir-is_regular m h = ground arith

  unpack-IsStep :
      (count : ℕ) (m : Member) (members : List Member) (broken : Option String) (total : ℕ)
      (written : List String)
      → IsStep count m members broken total written
          (unpack is_decimal repr count (m ∷ members) broken total written)
  unfolding unpack
  unpack-IsStep count m members broken total written = elim (Bool-cases (ltb max_members count)) [
    | inl many ↦ rw many (refused _)
    | inr few ↦ elim (Bool-cases (is_preview_dir m)) [
      | inl dir ↦ rw (few, dir) (skipped (ground arith) (preview_dir-is_regular m dir))
      | inr no_dir ↦ elim (Bool-cases (is_regular m.kind && allowed is_decimal (bare m.name))) [
        | inr bad ↦ rw (few, no_dir, bad) (refused _)
        | inl good ↦ elim (Bool-cases (ltb max_unpacked_bytes (total + m.size))) [
          | inl large ↦ rw (few, no_dir, good, large) (refused _)
          | inr fits ↦
              rw (few, no_dir, good, fits)
                (taken (ground arith) (ground arith) (ground arith) (ground arith))
        ]
      ]
    ]
  ]

  -- Only names that `_allowed` lets through are written, whatever comes out.
  pub unpack-allowed :
      (count : ℕ) (members : List Member) (broken : Option String) (total : ℕ)
      (written : List String)
      → All (λ n. allowed is_decimal n ≡ true) written
      → All
          (λ n. allowed is_decimal n ≡ true)
          (unpack is_decimal repr count members broken total written).1
  unfolding unpack
  unpack-allowed count [] broken total written h = h
  unpack-allowed count (m ∷ members) broken total written h =
      go (unpack-allowed (suc count) members broken) _
        (unpack-IsStep count m members broken total written)
    where
      go :
          ((size : ℕ) (names : List String)
            → All (λ n. allowed is_decimal n ≡ true) names
            → All
                (λ n. allowed is_decimal n ≡ true)
                (unpack is_decimal repr (suc count) members broken size names).1)
          → (r : Result (List String) × List String) → IsStep count m members broken total written r
          → All (λ n. allowed is_decimal n ≡ true) r.1
      go again _ (refused e) = h
      go again _ (skipped few no_file) = again total written h
      go again _ (taken few file good fits) =
          again (total + m.size) (written ++ bare m.name ∷ [])
            (All-append (λ n. allowed is_decimal n ≡ true) written (bare m.name ∷ []) h (good, tt))

  -- What a result without an error says of the archive.
  abbrev pub IsUnpacked :
      (count total : ℕ) (members : List Member) (broken : Option String) (out disk : List String)
      → Type 0
  IsUnpacked count total members broken out disk =
      (broken ≡ none)
      × (out ≡ disk)
      × All (λ n. has n out ≡ true) required
      × (count + length members ≤ suc max_members)
      × (total + file_bytes members ≤ max_unpacked_bytes)

  finish-ok :
      (broken : Option String) (written out : List String)
      → finish broken written ≡ ok out
      → (broken ≡ none) × (out ≡ written) × All (λ n. has n out ≡ true) required
  finish-ok none written out h =
      let (same, all) = check_required-has required written out h in (refl, same, rw same all)
  finish-ok (some message) written out h = absurd (ground arith)

  pub unpack-IsUnpacked :
      (count : ℕ) (members : List Member) (broken : Option String) (total : ℕ)
      (written out : List String)
      → count ≤ suc max_members
      → total ≤ max_unpacked_bytes
      → (unpack is_decimal repr count members broken total written).0 ≡ ok out
      → IsUnpacked count total members broken out
          (unpack is_decimal repr count members broken total written).1
  unfolding unpack
  unpack-IsUnpacked count [] broken total written out few fits done =
      let (whole, same, all) = finish-ok broken written out done in
      (whole, same, all, omega arith, omega arith)
  unpack-IsUnpacked count (m ∷ members) broken total written out few fits done =
      go (λ size names. unpack-IsUnpacked (suc count) members broken size names out) _
        (unpack-IsStep count m members broken total written) done
    where
      go :
          ((size : ℕ) (names : List String)
            → suc count ≤ suc max_members
            → size ≤ max_unpacked_bytes
            → (unpack is_decimal repr (suc count) members broken size names).0 ≡ ok out
            → IsUnpacked
                (suc count)
                size
                members
                broken
                out
                (unpack is_decimal repr (suc count) members broken size names).1)
          → (r : Result (List String) × List String) → IsStep count m members broken total written r
          → r.0 ≡ ok out
          → IsUnpacked count total (m ∷ members) broken out r.1
      go again _ (refused e) h = absurd (ground arith)
      go again _ (skipped few' no_file) h =
          let (whole, same, all, short, small) = again total written (omega arith) fits h in
          (whole, same, all, omega arith, ground arith)
      go again _ (taken few' file good fits') h =
          let (whole, same, all, short, small) =
            again (total + m.size) (written ++ bare m.name ∷ []) (omega arith) fits' h in
          (whole, same, all, omega arith, ground arith)
