-- ===== src/Tests/Copying.antt =====
-- Snapshots of a small world by the export script.
use dsh_api.Prelude.{
  ◌&&◌, ℕ, suc, String, ◌≡◌, ◌≤◌, refl, pos, negsuc, true, Option, none, some, List, [], ◌∷◌, All,
  map, sort_by, arith,
}
use dsh_api.Prelude.Dict.{get, has}
use dsh_api.Action.{Result, ok, err, other}
use dsh_api.Script.Box.{Box, regions}
use dsh_api.Script.Snapshot.{
  is_present, under, File, Disk, Copying, Snapshot, file_at, region_name, sources_of, snapshot,
}
use dsh_api.Script.Copied.{IsStamped, IsCopier}
use dsh_api.Script.Picture.{IsPicture, snapshot-IsPicture}
use dsh_api.Script.AtRest.{at_once, mca, snapshot_at_rest}

abbrev level : File
level = record { size = 9; mtime = 40; contents = "level" }

abbrev region : File
region = record { size = 5; mtime = 41; contents = "chunks" }

-- A world of the older layout, with one region of the box.
abbrev disk : Disk
disk = record {
  files = ("level.dat", level) ∷ ("region/r.0.0.mca", region) ∷ [];
  dirs = "region" ∷ [];
}

abbrev play : ℕ → Disk
play t = disk

abbrev read_of : Option File → ℕ → Result String × ℕ
read_of none t = (err (other "FileNotFoundError" ""), suc t)
read_of (some f) t = (ok f.contents, suc t)

-- Reads a file in one tick.
abbrev copyfile : String → ℕ → Result String × ℕ
copyfile path t = read_of (get path disk.files) t

later : (found : Option File) (t : ℕ) → t ≤ (read_of found t).1
later none t = omega arith
later (some f) t = omega arith

copyfile-IsCopier : IsCopier play copyfile 500
unfolding file_at
copyfile-IsCopier path t = (
  later (get path disk.files) t,
  λ f same. rw (same t (omega arith) (later (get path disk.files) t)) refl,
)

play-IsStamped : IsStamped play copyfile 500
unfolding file_at
play-IsStamped path a u c f g before after here there same = here

abbrev box : Box
box = record { x1 = negsuc 9; z1 = pos 0; x2 = pos 20; z2 = pos 30 }

abbrev start : Copying
start = record { tick = 7; dest = [] }

abbrev expected : Snapshot
expected = at_once ("r.0.0.mca" ∷ [])

snapshot-IsPicture_example :
    (rel : String) × IsPicture play copyfile 500
      (sources_of play copyfile 500 rel ("r.0.0.mca" ∷ []))
      (snapshot play copyfile 500 box 3 start).1
    × (1 ≤ 3)
    × All (λ name. has name (map region_name (regions box)) ≡ true) ("r.0.0.mca" ∷ [])
unfolding snapshot sort_by
snapshot-IsPicture_example =
    snapshot-IsPicture play copyfile 500 copyfile-IsCopier play-IsStamped box 3 start expected refl
      refl

snapshot_at_rest_example :
    (names : List String) × ((snapshot play copyfile 500 box 3 start).0 ≡ ok (at_once names))
    × ((name : String)
        → has name names
          ≡ (has name (map mca (regions box)) && is_present (get (under "region" name) disk.files)))
    × IsPicture play copyfile 500
        (sources_of play copyfile 500 "region" names)
        (snapshot play copyfile 500 box 3 start).1
unfolding get
snapshot_at_rest_example =
    snapshot_at_rest play copyfile 500 disk (λ t. refl) copyfile-IsCopier box 2 start level refl
      refl
