-- ===== src/Export/Names.antt =====
-- The file names that an export may hold: `_allowed` and PREVIEW_FILE_RE of
-- src/dsh_api/export_pod.py. The pattern is written out as a scan; it needs no way back, since
-- neither a digit nor a hex digit is a dot.
use Prim.Native.Char.{Char, code}
use dsh_api.Prelude.{
  ℕ, suc, String, Bool, false, ◌&&◌, ◌||◌, List, [], ◌∷◌, leb, ◌==◌, if◌then◌else◌,
}
use dsh_api.Prelude.Chars.{chars, text, is_char, is_digit}

-- `[0-9a-f]`
abbrev pub is_hex : Char → Bool
is_hex c = is_digit c || leb b'a' (code c) && leb (code c) b'f'

-- As many characters that pass `p` as `fits` allows, a dot, and what `then_is` accepts.
unfoldable pub run :
    (p : Char → Bool) (fits : ℕ → Bool) (then_is : List Char → Bool) (seen : ℕ) → List Char → Bool
run p fits then_is seen [] = false
run p fits then_is seen (c ∷ cs) =
    let longer = run p fits then_is (suc seen) cs in
    if p c then longer else is_char b'.' c && fits seen && then_is cs

-- `-?`
abbrev pub drop_sign : List Char → List Char
drop_sign [] = []
drop_sign (c ∷ cs) = if is_char b'-' c then cs else c ∷ cs

abbrev pub is_uwt : List Char → Bool
is_uwt cs = text cs == "uwt"

-- `[0-9a-f]{6,64}\.uwt`
abbrev pub is_hash : List Char → Bool
is_hash cs = run is_hex (λ n. leb 6 n && leb n 64) is_uwt 0 cs

-- `is_decimal` is the class `\d` of the patterns.
module _ (is_decimal : Char → Bool) where
  -- `-?\d+\.`
  abbrev pub is_number : (List Char → Bool) → List Char → Bool
  is_number then_is cs = run is_decimal (λ n. leb 1 n) then_is 0 (drop_sign cs)

  abbrev pub is_tile : List Char → Bool
  is_tile [] = false
  is_tile (_ ∷ []) = false
  is_tile (c ∷ d ∷ cs) = is_char b't' c && is_char b'.' d && is_number (is_number is_hash) cs

  -- PREVIEW_FILE_RE
  unfoldable pub is_preview_file : List Char → Bool
  unfolding run text
  is_preview_file cs = text cs == "index.json" || is_tile cs

  -- What stands before the first slash, and what stands behind it.
  unfoldable pub partition : List Char → List Char × List Char
  partition [] = ([], [])
  partition (c ∷ cs) =
      let rest = partition cs in if is_char b'/' c then ([], cs) else (c ∷ rest.0, rest.1)

  -- `_allowed`
  unfoldable pub allowed : String → Bool
  unfolding is_preview_file partition chars text
  allowed name =
      name == "summary.json"
      || name == "world.zip"
      || text (partition (chars name)).0 == "preview" && is_preview_file (partition (chars name)).1
