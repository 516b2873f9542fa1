-- ===== src/Export/Unpack.antt =====
-- `extract_export` of src/dsh_api/export_pod.py.
use Prim.Native.Char.{Char}
use dsh_api.Prelude.{
  ℕ, suc, ◌+◌, ◌*◌, String, Bool, true, false, ◌&&◌, not, Option, none, some, List, [], ◌∷◌, ◌++◌,
  concat, ltb, if◌then◌else◌,
}
use dsh_api.Prelude.Chars.{chars, text, starts, drop_prefix}
use dsh_api.Prelude.Dict.{has}
use dsh_api.Action.{Result, ok, err, other}
use dsh_api.Export.Names.{allowed}

pub data Kind : Type 0 where
  regular directory special : Kind

-- One member of the tar.
pub record Member : Type 0 where
  pub name : String
  pub kind : Kind
  pub size : ℕ

-- The members that can be read, and the text of the error that the reading ends with, if any.
pub record Archive : Type 0 where
  pub members : List Member
  pub broken : Option String

abbrev pub max_unpacked_bytes : ℕ
max_unpacked_bytes = 512 * 1024 * 1024

abbrev pub max_members : ℕ
max_members = 4096

abbrev is_directory : Kind → Bool
is_directory directory = true
is_directory _ = false

abbrev pub is_regular : Kind → Bool
is_regular regular = true
is_regular _ = false

-- `name.removeprefix("./")`
unfoldable pub bare : String → String
unfolding chars text starts drop_prefix
bare name =
    if starts (chars "./") (chars name) then text (drop_prefix (chars "./") (chars name)) else name

abbrev pub is_preview_dir : Member → Bool
is_preview_dir m = is_directory m.kind && has m.name ("preview" ∷ "./preview" ∷ [])

abbrev unsafe_archive : {A : Type 0} → List String → Result A
unsafe_archive message = err (other "UnsafeArchive" (concat message))

-- The files that an export must have.
abbrev pub required : List String
required = "summary.json" ∷ "world.zip" ∷ "preview/index.json" ∷ []

unfoldable pub check_required : List String → List String → Result (List String)
check_required [] written = ok written
check_required (name ∷ names) written =
    if has name written
    then check_required names written
    else unsafe_archive ("the export is missing " ∷ name ∷ [])

-- What follows the loop.
abbrev pub finish : Option String → List String → Result (List String)
finish none written = check_required required written
finish (some message) written = unsafe_archive ("the export could not be read: " ∷ message ∷ [])

-- `is_decimal` is the class `\d` of the patterns, and `repr` Python's quoting of a text.
module _ (is_decimal : Char → Bool) (repr : String → String) where
  -- The loop and what follows it: the result, and the files that were written.
  unfoldable pub unpack :
      (count : ℕ) (members : List Member) (broken : Option String) (total : ℕ)
      (written : List String)
      → Result (List String) × List String
  unfolding bare allowed check_required
  unpack count [] broken total written = (finish broken written, written)
  unpack count (m ∷ members) broken total written =
      let skipped = unpack (suc count) members broken total written in
      let unpacked =
        unpack (suc count) members broken (total + m.size) (written ++ bare m.name ∷ []) in
      if ltb max_members count
      then (unsafe_archive ("too many files" ∷ []), written)
      else if is_preview_dir m
      then skipped
      else if not (is_regular m.kind && allowed is_decimal (bare m.name))
      then (unsafe_archive ("unexpected entry " ∷ repr m.name ∷ []), written)
      else if ltb max_unpacked_bytes (total + m.size)
      then (unsafe_archive ("the export is larger than allowed" ∷ []), written)
      else unpacked

  unfoldable pub extract_export : Archive → Result (List String) × List String
  unfolding unpack
  extract_export archive = unpack 1 archive.members archive.broken 0 []
