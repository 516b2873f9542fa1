-- ===== src/Script/Snapshot.antt =====
-- `region_dir` and `snapshot` of export/dsh_world_export.py, over a world that the game may write
-- at any time.
use dsh_api.Prelude.{
  ℕ, zero, suc, ◌+◌, String, ℤ, Bool, true, false, ◌&&◌, Option, none, some, List, [], ◌∷◌, map,
  sort_by, str_le, concat, eqb, ◌==◌, if◌then◌else◌,
}
use dsh_api.Prelude.Dict.{Dict, has, get, put}
use dsh_api.Prelude.Printing.{show_int}
use dsh_api.Action.{Act, Error, Result, ok, err, other, pure, raise, ◌>>=◌, ◌>>◌}
use dsh_api.Script.Box.{Box, regions}

pub record File : Type 0 where
  pub size : ℕ
  pub mtime : ℕ
  pub contents : String

-- The world at an instant; paths are relative to its folder.
pub record Disk : Type 0 where
  pub files : Dict File
  pub dirs : List String

-- The instant, and what was copied, by the path in the world.
pub record Copying : Type 0 where
  pub tick : ℕ
  pub dest : Dict String

pub record Snapshot : Type 0 where
  pub stable : Bool
  pub attempts : ℕ
  pub region_names : List String

abbrev pub world_error : String → Error
world_error message = other "WorldError" message

abbrev pub level_dat : String
level_dat = "level.dat"

abbrev pub modern_dir : String
modern_dir = "dimensions/minecraft/overworld/region"

-- SNAPSHOT_ATTEMPTS
abbrev pub snapshot_attempts : ℕ
snapshot_attempts = 3

-- `f"r.{rx}.{rz}.mca"`
unfoldable pub region_name : ℤ × ℤ → String
unfolding show_int
region_name (rx, rz) = concat ("r." ∷ show_int rx ∷ "." ∷ show_int rz ∷ ".mca" ∷ [])

abbrev pub under : String → String → String
under rel name = concat (rel ∷ "/" ∷ name ∷ [])

abbrev pub stat_of : File → ℕ × ℕ
stat_of file = (file.size, file.mtime)

abbrev pub same_stat : ℕ × ℕ → ℕ × ℕ → Bool
same_stat a b = eqb a.0 b.0 && eqb a.1 b.1

-- `before == after`, for the same sources in the same order.
unfoldable pub same_stats : List (ℕ × ℕ) → List (ℕ × ℕ) → Bool
same_stats [] [] = true
same_stats (a ∷ before) (b ∷ after) = same_stat a b && same_stats before after
same_stats _ _ = false

abbrev pub is_present : Option File → Bool
is_present none = false
is_present (some _) = true

-- `play` is the world at each instant. `copyfile` reads a file from an instant on, for as long as
-- it takes; `pause` is the sleep.
module _ (play : ℕ → Disk) (copyfile : String → ℕ → Result String × ℕ) (pause : ℕ) where
  unfoldable pub file_at : String → ℕ → Option File
  unfolding get
  file_at path t = get path (play t).files

  abbrev pub look : {A : Type 0} → (ℕ → A) → Act Copying A
  look f s = (ok (f s.tick), record s { tick = suc s.tick })

  unfoldable pub is_file : String → Act Copying Bool
  unfolding file_at
  is_file path = look (λ t. is_present (file_at path t))

  abbrev pub is_dir : String → Act Copying Bool
  is_dir path = look (λ t. has path (play t).dirs)

  -- `region_dir`
  abbrev pub legacy_dir : Bool → Act Copying String
  legacy_dir true = pure "region"
  legacy_dir false =
      raise (world_error "the world has no overworld region folder yet (has it been started once?)")

  abbrev pub modern_or_legacy : Bool → Act Copying String
  modern_or_legacy true = pure modern_dir
  modern_or_legacy false = is_dir "region" >>= legacy_dir

  unfoldable pub region_dir : Act Copying String
  region_dir = is_dir modern_dir >>= modern_or_legacy

  -- The names whose files are there.
  abbrev pub if_present : String → List String → Bool → List String
  if_present name names present = if present then name ∷ names else names

  unfoldable pub existing : String → List String → Act Copying (List String)
  unfolding is_file
  existing rel [] = pure []
  existing rel (name ∷ names) = do
    present ← is_file (under rel name)
    more ← existing rel names
    pure (if_present name more present)

  -- `_stat`, which raises for a file that is gone.
  abbrev pub found_stat : String → Option File → Result (ℕ × ℕ)
  found_stat path none = err (other "FileNotFoundError" path)
  found_stat path (some file) = ok (stat_of file)

  unfoldable pub stat : String → Act Copying (ℕ × ℕ)
  unfolding file_at
  stat path s = (found_stat path (file_at path s.tick), record s { tick = suc s.tick })

  unfoldable pub stat_all : List String → Act Copying (List (ℕ × ℕ))
  unfolding stat
  stat_all [] = pure []
  stat_all (path ∷ paths) = do x ← stat path; xs ← stat_all paths; pure (x ∷ xs)

  abbrev pub copied : String → Result String → ℕ → Copying → Result (Unit {0}) × Copying
  copied path (ok text) t s = (ok tt, record { tick = t; dest = put path text s.dest })
  copied path (err e) t s = (err e, record s { tick = t })

  unfoldable pub copy : String → Act Copying (Unit {0})
  unfolding put
  copy path s = copied path (copyfile path s.tick).0 (copyfile path s.tick).1 s

  unfoldable pub copy_all : List String → Act Copying (Unit {0})
  unfolding copy
  copy_all [] = pure tt
  copy_all (path ∷ paths) = copy path >> copy_all paths

  -- One turn of the loop: are all files as they were?
  unfoldable pub try_copy : List String → Act Copying Bool
  unfolding stat_all copy_all same_stats
  try_copy sources = do
    before ← stat_all sources
    copy_all sources
    after ← stat_all sources
    pure (same_stats before after)

  abbrev pub sleep : Act Copying (Unit {0})
  sleep s = (ok tt, record s { tick = s.tick + pause })

  -- There is no sleep after the last turn.
  abbrev pub sleep_before : (left : ℕ) → Act Copying (Unit {0})
  sleep_before zero = pure tt
  sleep_before (suc _) = sleep

  abbrev pub unless_stable : ℕ → Act Copying (Bool × ℕ) → Bool → Act Copying (Bool × ℕ)
  unless_stable tries again true = pure (true, tries)
  unless_stable tries again false = again

  -- The loop, with the turns that are left and those that were made.
  unfoldable pub copy_until : (left tries : ℕ) → List String → Act Copying (Bool × ℕ)
  unfolding try_copy
  copy_until zero tries sources = pure (false, tries)
  copy_until (suc left) tries sources =
      try_copy sources
      >>= unless_stable (suc tries) (sleep_before left >> copy_until left (suc tries) sources)

  abbrev pub require_level : Bool → Act Copying (Unit {0})
  require_level true = pure tt
  require_level false =
      raise (world_error "the world has no level.dat yet (has it been started once?)")

  abbrev pub sources_of : String → List String → List String
  sources_of rel names = level_dat ∷ map (under rel) names

  abbrev pub copy_regions : ℕ → String → List String → Act Copying Snapshot
  copy_regions attempts rel names = do
    outcome ← copy_until attempts 0 (sources_of rel names)
    pure (record { stable = outcome.0; attempts = outcome.1; region_names = names })

  abbrev pub from_dir : Box → ℕ → String → Act Copying Snapshot
  from_dir area attempts rel = do
    names ← existing rel (map region_name (regions area))
    copy_regions attempts rel (sort_by str_le names)

  -- `snapshot`; no two regions have the same name.
  unfoldable pub snapshot : Box → (attempts : ℕ) → Act Copying Snapshot
  unfolding is_file region_dir existing copy_until region_name regions
  snapshot area attempts = do
    there ← is_file level_dat
    require_level there
    rel ← region_dir
    from_dir area attempts rel

-- `snapshot_kind`
abbrev pub snapshot_kind : (server_state : String) → (stable : Bool) → String
snapshot_kind server_state stable =
    if server_state == "asleep" && stable
    then "at_rest"
    else if stable
    then "live_stable"
    else "live_changing"
