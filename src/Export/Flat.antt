-- ===== src/Export/Flat.antt =====
-- No export is written outside of its directory (src/dsh_api/export_pod.py).
use Prim.Native.Char.{Char}
use dsh_api.Prelude.{
  ℕ, suc, String, ◌≡◌, refl, ap, ◌∙◌, sym, Bool, true, false, List, [], ◌∷◌, All, any, arith, ◌==◌,
  eq_iff, Bool-cases, inl, inr, ◌⊎◌,
}
use dsh_api.Prelude.Chars.{chars, text, chars-text, is_char}
use dsh_api.Export.Names.{
  run, is_uwt, is_hash, is_hex, drop_sign, is_number, is_tile, is_preview_file, partition, allowed,
}
use dsh_api.Export.Unpack.{Archive, extract_export}
use dsh_api.Export.Unpacked.{unpack-allowed}

abbrev pub is_slash : Char → Bool
is_slash c = is_char b'/' c

run-flat :
    (p : Char → Bool) (fits : ℕ → Bool) (then_is : List Char → Bool) (seen : ℕ) (cs : List Char)
    → ((c : Char) → p c ≡ true → is_slash c ≡ false)
    → ((ds : List Char) → then_is ds ≡ true → any is_slash ds ≡ false)
    → run p fits then_is seen cs ≡ true
    → any is_slash cs ≡ false
unfolding run
run-flat p fits then_is seen [] flat rest h = refl
run-flat p fits then_is seen (c ∷ cs) flat rest h = elim (Bool-cases (p c)) [
  | inl passes ↦
      ground (arith, flat c passes, run-flat p fits then_is (suc seen) cs flat rest (ground arith))
  | inr other ↦ ground (arith, rest cs (ground arith))
]

same_text : (cs : List Char) (s : String) → (text cs == s) ≡ true → cs ≡ chars s
same_text cs s h = sym (chars-text cs) ∙ ap chars ((eq_iff (text cs) s).0 h)

is_uwt-flat : (cs : List Char) → is_uwt cs ≡ true → any is_slash cs ≡ false
unfolding chars
is_uwt-flat cs h = ap (any is_slash) (same_text cs "uwt" h)

is_hash-flat : (cs : List Char) → is_hash cs ≡ true → any is_slash cs ≡ false
is_hash-flat cs h = run-flat is_hex _ is_uwt 0 cs (λ c hex. ground arith) is_uwt-flat h

drop_sign-flat : (cs : List Char) → any is_slash (drop_sign cs) ≡ false → any is_slash cs ≡ false
drop_sign-flat [] h = refl
drop_sign-flat (c ∷ cs) h = ground arith

-- `is_decimal` is the class `\d` of the patterns: a slash is not of it.
module _ (is_decimal : Char → Bool)
    (no_slash : (c : Char) → is_decimal c ≡ true → is_slash c ≡ false) where
  is_number-flat :
      (then_is : List Char → Bool) (cs : List Char)
      → ((ds : List Char) → then_is ds ≡ true → any is_slash ds ≡ false)
      → is_number is_decimal then_is cs ≡ true
      → any is_slash cs ≡ false
  is_number-flat then_is cs rest h =
      drop_sign-flat cs (run-flat is_decimal _ then_is 0 (drop_sign cs) no_slash rest h)

  is_tile-flat : (cs : List Char) → is_tile is_decimal cs ≡ true → any is_slash cs ≡ false
  is_tile-flat [] h = refl
  is_tile-flat (c ∷ []) h = absurd (ground arith)
  is_tile-flat (c ∷ d ∷ cs) h =
      let rest =
        is_number-flat (is_number is_decimal is_hash) cs
          (λ ds. is_number-flat is_hash ds is_hash-flat) (ground arith) in
      ground (arith, rest)

  is_preview_file-flat :
      (cs : List Char) → is_preview_file is_decimal cs ≡ true → any is_slash cs ≡ false
  unfolding is_preview_file chars
  is_preview_file-flat cs h = elim (Bool-cases (text cs == "index.json")) [
    | inl same ↦ ap (any is_slash) (same_text cs "index.json" same)
    | inr tile ↦ is_tile-flat cs (ground arith)
  ]

  is_preview_file-named :
      (cs : List Char) → is_preview_file is_decimal cs ≡ true → (text cs == "..") ≡ false
  unfolding is_preview_file chars text run
  is_preview_file-named cs h = elim (Bool-cases (text cs == "..")) [
    | inr other ↦ other
    | inl dots ↦
        absurd (ground (arith, h, ap (is_preview_file is_decimal) (same_text cs ".." dots)))
  ]

  -- A fixed file of the export, or a file in `preview` whose name has no slash and is not `..`.
  abbrev pub IsInside : String → Type 0
  IsInside name =
      (name ≡ "summary.json")
      ⊎ (name ≡ "world.zip")
      ⊎ ((text (partition is_decimal (chars name)).0 ≡ "preview")
          × (any is_slash (partition is_decimal (chars name)).1 ≡ false)
          × ((text (partition is_decimal (chars name)).1 == "..") ≡ false))

  allowed-IsInside : (name : String) → allowed is_decimal name ≡ true → IsInside name
  unfolding allowed
  allowed-IsInside name h = elim (Bool-cases (name == "summary.json")) [
    | inl summary ↦ inl ((eq_iff name "summary.json").0 summary)
    | inr other ↦ elim (Bool-cases (name == "world.zip")) [
      | inl zip ↦ inr (inl ((eq_iff name "world.zip").0 zip))
      | inr neither ↦
          let file : is_preview_file is_decimal (partition is_decimal (chars name)).1 ≡ true =
            ground arith in
          inr (
            inr (
              (eq_iff _ "preview").0 (ground arith),
              is_preview_file-flat (partition is_decimal (chars name)).1 file,
              is_preview_file-named (partition is_decimal (chars name)).1 file,
            ))
    ]
  ]

  All-IsInside :
      (names : List String) → All (λ n. allowed is_decimal n ≡ true) names → All IsInside names
  All-IsInside [] h = tt
  All-IsInside (n ∷ names) h = (allowed-IsInside n h.0, All-IsInside names h.1)

  -- Whatever the archive of an export holds, and whether or not it is refused, each file that is
  -- written is `summary.json`, `world.zip` or a file of the directory `preview` whose name has no
  -- slash and is not `..`, if a slash is no decimal digit.
  pub extract_export-IsInside :
      (repr : String → String) (archive : Archive)
      → All IsInside (extract_export is_decimal repr archive).1
  unfolding extract_export
  extract_export-IsInside repr archive =
      All-IsInside (extract_export is_decimal repr archive).1
        (unpack-allowed is_decimal repr 1 archive.members archive.broken 0 [] tt)
