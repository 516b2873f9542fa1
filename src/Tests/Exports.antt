-- ===== src/Tests/Exports.antt =====
-- Runs of the world exports.
use dsh_api.Prelude.{String, true, false, ◌≡◌, none, pos, negsuc, ◌<◌, ◌↔◌, [], ◌∷◌, All, arith}
use dsh_api.Prelude.Chars.{is_digit}
use dsh_api.Action.{ok}
use dsh_api.Db.ExportLimit.{
  Clocked, after_reservation, ExportsHold, now_at, reserved, Exporting-ExportsHold,
}
use dsh_api.Export.Unpack.{Member, Archive, regular, directory, extract_export}
use dsh_api.Export.Flat.{extract_export-IsInside, IsInside}
use dsh_api.Prelude.Int.{distance}
use dsh_api.Export.Area.{validate_area, validate_area_iff, IsInBorder}
use dsh_api.Tests.Samples.{db_with}

abbrev idle : Clocked
idle = record { now = 90000000000000; db = db_with []; started = [] }

idle-ExportsHold : ExportsHold 3 86400000000 idle
idle-ExportsHold = record {
  one_active = λ s t. omega arith;
  limited = λ t. omega arith;
  logged = λ t since. omega arith;
  within = λ t. omega arith;
}

Exporting-ExportsHold_example :
    ExportsHold 3 86400000000
      (after_reservation "0123456789ab" "alpha" "ann" none 3 86400000000 idle)
Exporting-ExportsHold_example =
    Exporting-ExportsHold idle
      (after_reservation "0123456789ab" "alpha" "ann" none 3 86400000000 idle) idle-ExportsHold
      (reserved idle "0123456789ab" "alpha" "ann" none now_at)

abbrev file : String → Member
file name = record { name = name; kind = regular; size = 100 }

abbrev small : Archive
small = record {
  members =
      file "./summary.json"
      ∷ record { name = "preview"; kind = directory; size = 0 }
      ∷ file "preview/index.json"
      ∷ file "world.zip"
      ∷ [];
  broken = none;
}

abbrev same_text : String → String
same_text s = s

digits_have_no_slash : (c : _) → is_digit c ≡ true → dsh_api.Export.Flat.is_slash c ≡ false
digits_have_no_slash c h = ground arith

extract_export-IsInside_example :
    All (IsInside is_digit digits_have_no_slash) (extract_export is_digit same_text small).1
extract_export-IsInside_example =
    extract_export-IsInside is_digit digits_have_no_slash same_text small

validate_area_iff_example :
    (validate_area 100 (pos 5) (negsuc 4) (negsuc 9) (pos 7)
      ≡ ok record { x1 = negsuc 9; z1 = negsuc 4; x2 = pos 5; z2 = pos 7 })
    ↔ (IsInBorder (pos 5) (negsuc 4) (negsuc 9) (pos 7)
        × (distance (pos 5) (negsuc 9) < 100)
        × (distance (negsuc 4) (pos 7) < 100))
validate_area_iff_example = validate_area_iff 100 (pos 5) (negsuc 4) (negsuc 9) (pos 7)
