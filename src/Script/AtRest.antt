-- ===== src/Script/AtRest.antt =====
-- The snapshot of a world that nobody writes (export/dsh_world_export.py).
use dsh_api.Prelude.{
  ℤ, concat, any-sort_by, eq_iff, ◌==◌, none, false, ◌&&◌, if◌then◌else◌, ℕ, suc, String, ◌≡◌, refl,
  sym, ap, ◌∙◌, Bool, true, ◌||◌, some, List, [], ◌∷◌, All, map, sort_by, insert_by, str_le, arith,
  Bool-cases, Option-cases, inl, inr,
}
use dsh_api.Prelude.Dict.{has, get}
use dsh_api.Prelude.Printing.{show_int}
use dsh_api.Action.{Result, ok}
use dsh_api.Script.Box.{Box, regions}
use dsh_api.Script.Snapshot.{
  is_present, File, Disk, Copying, Snapshot, stat_of, same_stats, level_dat, under, region_name,
  modern_dir, file_at, stat, stat_all, copy, copy_all, try_copy, copy_until, sources_of, from_dir,
  existing, region_dir, is_file, snapshot,
}
use dsh_api.Script.Copied.{IsStamped, IsCopier}
use dsh_api.Script.Picture.{IsPicture, from_dir-IsTakenFrom}

same_stats_refl : (xs : List (ℕ × ℕ)) → same_stats xs xs ≡ true
unfolding same_stats
same_stats_refl [] = refl
same_stats_refl (x ∷ xs) = ground (arith, same_stats_refl xs)

All-insert_by :
    {A : Type 0} (P : A → Type 0) (le : A → A → Bool) (x : A) (xs : List A)
    → P x
    → All P xs
    → All P (insert_by le x xs)
unfolding insert_by
All-insert_by P le x [] p all = (p, tt)
All-insert_by P le x (y ∷ ys) p all = elim (Bool-cases (le x y)) [
  | inl first ↦ rw first (p, all)
  | inr after ↦ rw after (all.0, All-insert_by P le x ys p all.1)
]

All-sort_by :
    {A : Type 0} (P : A → Type 0) (le : A → A → Bool) (xs : List A)
    → All P xs
    → All P (sort_by le xs)
unfolding sort_by
All-sort_by P le [] all = tt
All-sort_by P le (x ∷ xs) all =
    All-insert_by P le x (sort_by le xs) all.0 (All-sort_by P le xs all.1)

-- What holds of a run holds of an equal one.
carried : {A : Type 0} (P : A → Type 0) (a b : A) → a ≡ b → P b → P a
carried P a b same p = rw same p

-- The folder of the regions: the newer layout wins.
abbrev pub folder : Disk → String
folder disk = if has modern_dir disk.dirs then modern_dir else "region"

-- The name of a region's file.
abbrev pub mca : ℤ × ℤ → String
mca r = concat ("r." ∷ show_int r.0 ∷ "." ∷ show_int r.1 ∷ ".mca" ∷ [])

mca_lem : (rs : List (ℤ × ℤ)) → map mca rs ≡ map region_name rs
unfolding region_name
mca_lem [] = refl
mca_lem ((rx, rz) ∷ rs) = ap (λ (t : List String). mca (rx, rz) ∷ t) (mca_lem rs)

-- A snapshot that needed one turn.
abbrev pub at_once : List String → Snapshot
at_once names = record { stable = true; attempts = 1; region_names = names }

module _ (play : ℕ → Disk) (copyfile : String → ℕ → Result String × ℕ) (pause : ℕ) where
  module _ (disk : Disk) (still : (t : ℕ) → play t ≡ disk) where
    abbrev IsThere : String → Type 0
    IsThere path = (f : File) × (get path disk.files ≡ some f)

    file_at-still :
        (path : String) (t : ℕ) → file_at play copyfile pause path t ≡ get path disk.files
    unfolding file_at
    file_at-still path t = ap (λ d. get path d.files) (still t)

    still-IsStamped : IsStamped play copyfile pause
    still-IsStamped path a u c f g before after here there same =
        file_at-still path u ∙ sym (file_at-still path a) ∙ here

    stat_all-returns :
        (paths : List String)
        → All IsThere paths
        → (xs : List (ℕ × ℕ)) × ((s : Copying) → (stat_all play copyfile pause paths s).0 ≡ ok xs)
    unfolding stat_all stat
    stat_all-returns [] there = ([], λ s. refl)
    stat_all-returns (path ∷ paths) ((f, here), there) =
        let (xs, rest) = stat_all-returns paths there in
        (
          stat_of f ∷ xs,
          λ s. rw (file_at-still path s.tick, here, rest (record s { tick = suc s.tick })) refl,
        )

    module _ (copier : IsCopier play copyfile pause) where
      copy_all-returns :
          (paths : List String)
          → All IsThere paths
          → (s : Copying) → (copy_all play copyfile pause paths s).0 ≡ ok tt
      unfolding copy_all copy
      copy_all-returns [] there s = refl
      copy_all-returns (path ∷ paths) ((f, here), there) s =
          let exact : (copyfile path s.tick).0 ≡ ok f.contents =
            (copier path s.tick).1 f λ u from until. file_at-still path u ∙ here in
          rw exact (copy_all-returns paths there _)

      try_copy-returns :
          (paths : List String)
          → All IsThere paths
          → (s : Copying) → (try_copy play copyfile pause paths s).0 ≡ ok true
      unfolding try_copy
      try_copy-returns paths there s =
          let (xs, seen) = stat_all-returns paths there in
          rw (seen s, copy_all-returns paths there (stat_all play copyfile pause paths s).1, seen _)
            (ap ok (same_stats_refl xs))

      copy_until-returns :
          (left : ℕ) (paths : List String)
          → All IsThere paths
          → (s : Copying) → (copy_until play copyfile pause (suc left) 0 paths s).0 ≡ ok (true, 1)
      unfolding copy_until
      copy_until-returns left paths there s = rw (try_copy-returns paths there s) refl

      without :
          (rel w : String) (wanted names : List String) (name : String)
          → get (under rel w) disk.files ≡ none
          → has name names ≡ (has name wanted && is_present (get (under rel name) disk.files))
          → has name names
            ≡ ((w == name || has name wanted) && is_present (get (under rel name) disk.files))
      without rel w wanted names name gone exactly = elim (Bool-cases (w == name)) [
        | inl same ↦
            let eq : w ≡ name = (eq_iff w name).0 same in
            let absent : is_present (get (under rel name) disk.files) ≡ false =
              rw⁻¹ eq (rw gone refl) in
            ground (arith, absent, exactly)
        | inr other ↦ ground (arith, other, exactly)
      ]

      with_it :
          (rel w : String) (wanted names : List String) (name : String) (f : File)
          → get (under rel w) disk.files ≡ some f
          → has name names ≡ (has name wanted && is_present (get (under rel name) disk.files))
          → (w == name || has name names)
            ≡ ((w == name || has name wanted) && is_present (get (under rel name) disk.files))
      with_it rel w wanted names name f here exactly = elim (Bool-cases (w == name)) [
        | inl same ↦
            let eq : w ≡ name = (eq_iff w name).0 same in
            let there : is_present (get (under rel name) disk.files) ≡ true =
              rw⁻¹ eq (rw here refl) in
            ground (arith, there, same)
        | inr other ↦ ground (arith, other, exactly)
      ]

      -- The names of what is there, and no others.
      abbrev AreThere : String → List String → List String → Type 0
      AreThere rel wanted names =
          (name : String)
          → has name names ≡ (has name wanted && is_present (get (under rel name) disk.files))

      existing-returns :
          (rel : String) (wanted : List String) (s : Copying)
          → (names : List String) × ((existing play copyfile pause rel wanted s).0 ≡ ok names)
            × All (λ name. IsThere (under rel name)) names
            × AreThere rel wanted names
      unfolding existing is_file
      existing-returns rel [] s = ([], refl, tt, λ name. refl)
      existing-returns rel (w ∷ wanted) s =
          let (names, done, there, exactly) =
            existing-returns rel wanted (record s { tick = suc s.tick }) in
          elim (Option-cases (get (under rel w) disk.files)) [
            | inl gone ↦ (
              names,
              rw (file_at-still (under rel w) s.tick, gone, done) refl,
              there,
              λ name. without rel w wanted names name gone (exactly name),
            )
            | inr (f, here) ↦ (
              w ∷ names,
              rw (file_at-still (under rel w) s.tick, here, done) refl,
              ((f, here), there),
              λ name. with_it rel w wanted names name f here (exactly name),
            )
          ]

      All-under :
          (rel : String) (names : List String)
          → All (λ name. IsThere (under rel name)) names
          → All IsThere (map (under rel) names)
      All-under rel [] there = tt
      All-under rel (name ∷ names) (here, there) = (here, All-under rel names there)

      from_dir-returns :
          (area : Box) (left : ℕ) (rel : String) (s : Copying)
          → IsThere level_dat
          → (names : List String) × ((from_dir play copyfile pause area (suc left) rel s).0
              ≡ ok (at_once names))
            × AreThere rel (map region_name (regions area)) names
      from_dir-returns area left rel s level =
          let (names, done, there, exactly) =
            existing-returns rel (map region_name (regions area)) s in
          (
            sort_by str_le names,
            rw
                (
                  done,
                  copy_until-returns left
                      (sources_of play copyfile pause rel (sort_by str_le names))
                      (level, All-under rel _ (All-sort_by _ str_le names there))
                      (existing play copyfile pause rel (map region_name (regions area)) s).1,
                )
                refl,
            λ name. any-sort_by (λ y. y == name) str_le names ∙ exactly name,
          )

      region_dir-returns :
          (s : Copying)
          → (has modern_dir disk.dirs || has "region" disk.dirs) ≡ true
          → (region_dir play copyfile pause s).0 ≡ ok (folder disk)
      unfolding region_dir
      region_dir-returns s dirs = elim (Bool-cases (has modern_dir disk.dirs)) [
        | inl modern ↦ rw (still s.tick, modern) refl
        | inr old ↦
            let legacy : has "region" disk.dirs ≡ true = ground (arith, old, dirs) in
            rw (still s.tick, old, still (suc s.tick), legacy) refl
      ]

      -- The state once the (folder disk) is known.
      abbrev known : Copying → Copying
      known s = (region_dir play copyfile pause (record s { tick = suc s.tick })).1

      snapshot-from_dir :
          (area : Box) (attempts : ℕ) (s : Copying)
          → IsThere level_dat
          → (has modern_dir disk.dirs || has "region" disk.dirs) ≡ true
          → snapshot play copyfile pause area attempts s
            ≡ from_dir play copyfile pause area attempts (folder disk) (known s)
      unfolding snapshot is_file
      snapshot-from_dir area attempts s (f, level) dirs =
          rw
            (
              file_at-still level_dat s.tick,
              level,
              region_dir-returns (record s { tick = suc s.tick }) dirs,
            )
            refl

      -- A world that nobody writes, with a `level.dat` and a folder of regions of either layout,
      -- the newer one first, is copied in one turn, as stable; the regions it names are those of
      -- the box that have a file there, and `level.dat` and each of them is copied as it is, if a
      -- copy of a file that does not change meanwhile is exact.
      pub snapshot_at_rest :
          (area : Box) (left : ℕ) (s : Copying) (f : File)
          → get level_dat disk.files ≡ some f
          → (has modern_dir disk.dirs || has "region" disk.dirs) ≡ true
          → (names : List String) × ((snapshot play copyfile pause area (suc left) s).0
              ≡ ok (at_once names))
            × ((name : String)
                → has name names ≡ (
                    has name (map mca (regions area))
                    && is_present (get (under (folder disk) name) disk.files)))
            × IsPicture play copyfile pause
                (sources_of play copyfile pause (folder disk) names)
                (snapshot play copyfile pause area (suc left) s).1
      snapshot_at_rest area left s f level dirs =
          let (names, done, exactly) =
            from_dir-returns area left (folder disk) (known s) (f, level) in
          let (picture, _, _) =
            from_dir-IsTakenFrom play copyfile pause copier still-IsStamped area (suc left)
              (folder disk) (known s) (at_once names) done in
          (
            names,
            rw (snapshot-from_dir area (suc left) s (f, level) dirs) done,
            λ name.
                exactly name
                ∙ ap
                    (λ (t : List String).
                      has name t && is_present (get (under (folder disk) name) disk.files))
                    (sym (mca_lem (regions area))),
            carried
                (λ out.
                  IsPicture play copyfile pause (sources_of play copyfile pause (folder disk) names)
                    out.1)
                _ _ (snapshot-from_dir area (suc left) s (f, level) dirs) (picture refl),
          )
