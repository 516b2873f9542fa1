-- ===== src/Script/Picture.antt =====
-- A stable copy is a picture of one instant (`snapshot` of export/dsh_world_export.py).
use dsh_api.Prelude.{
  ℕ, zero, suc, ◌+◌, ◌≤◌, String, ◌≡◌, sym, ap, ◌∙◌, Bool, true, false, ◌&&◌, some, List, [], ◌∷◌,
  All, map, sort_by, any-sort_by, str_le, arith, ◌==◌, eq_refl,
}
use dsh_api.Prelude.Dict.{has, get}
use dsh_api.Action.{Result, ok, ◌>>=◌, ◌>>◌, pure}
use dsh_api.Script.Box.{Box, regions}
use dsh_api.Script.Snapshot.{
  File, Disk, Copying, Snapshot, stat_of, same_stat, same_stats, level_dat, under, region_name,
  file_at, stat_all, copy_all, try_copy, sleep_before, unless_stable, copy_until, if_present,
  sources_of, from_dir, existing, region_dir, require_level, is_file, snapshot,
}
use dsh_api.Script.Ends.{Ends, bind-Ends, then-Ends, pure-Ends}
use dsh_api.Script.Copied.{
  IsStamped, IsCopier, WasSeen, WereSeen, Stats, stat_all-Ends, WasCopied, Copies, copy_all-Ends,
}

both : (a b : Bool) → (a && b) ≡ true → (a ≡ true) × (b ≡ true)
both a b h = ground arith

same_stat_eq : (x y : ℕ × ℕ) → same_stat x y ≡ true → x ≡ y
same_stat_eq (a, b) (c, d) same =
    let first : a ≡ c = ground arith in
    let second : b ≡ d = ground arith in λ i. (first i, second i)

every :
    (P : String → Type 0) (names : List String)
    → ((name : String) → has name names ≡ true → P name)
    → All P names
every P [] k = tt
every P (n ∷ names) k =
    (k n (ground (arith, eq_refl n)), every P names λ name h. k name (ground (arith, h)))

module _ (play : ℕ → Disk) (copyfile : String → ℕ → Result String × ℕ) (pause : ℕ) where
  -- The instant at which all sources were as they were copied.
  abbrev pub IsPicture : List String → Copying → Type 0
  IsPicture paths t =
      (m : ℕ) × All
        (λ path.
          (f : File) × (file_at play copyfile pause path m ≡ some f)
          × (get path t.dest ≡ some f.contents))
        paths

  module _ (copier : IsCopier play copyfile pause) (stamped : IsStamped play copyfile pause) where
    one_source :
        (path : String) (lo m hi : ℕ) (before after : ℕ × ℕ) (t : Copying) (end : ℕ)
        → WasSeen play copyfile pause path lo m before
        → WasCopied play copyfile pause path m hi t
        → WasSeen play copyfile pause path hi end after
        → same_stat before after ≡ true
        → (f : File) × (file_at play copyfile pause path m ≡ some f)
          × (get path t.dest ≡ some f.contents)
    one_source path lo m hi before after t end (a, f, la, am, here, is)
          (b, content, mb, bh, read, got) (c, g, hc, ce, there, is') same =
        let unchanged : stat_of f ≡ stat_of g = is ∙ same_stat_eq before after same ∙ sym is' in
        let up : b ≤ (copyfile path b).1 = (copier path b).0 in
        let exact : (copyfile path b).0 ≡ ok f.contents =
          (copier path b).1 f λ u from until.
            stamped path a u c f g (omega arith) (omega arith) here there unchanged in
        let content_is : content ≡ f.contents = ground (arith, read, exact) in
        (f, stamped path a m c f g am (omega arith) here there unchanged, got ∙ ap some content_is)

    each_source :
        (paths : List String) (lo m hi end : ℕ) (before after : List (ℕ × ℕ)) (t : Copying)
        → WereSeen play copyfile pause paths lo m before
        → All (λ path. WasCopied play copyfile pause path m hi t) paths
        → WereSeen play copyfile pause paths hi end after
        → same_stats before after ≡ true
        → All
            (λ path.
              (f : File) × (file_at play copyfile pause path m ≡ some f)
              × (get path t.dest ≡ some f.contents))
            paths
    unfolding WereSeen same_stats
    each_source [] lo m hi end before after t first taken last same = tt
    each_source (path ∷ paths) lo m hi end (x ∷ xs) (y ∷ ys) t first taken last same =
        let (head, rest) = both (same_stat x y) (same_stats xs ys) same in
        (
          one_source path lo m hi x y t end first.0 taken.0 last.0 head,
          each_source paths lo m hi end xs ys t first.1 taken.1 last.1 rest,
        )
    each_source (path ∷ paths) lo m hi end [] after t first taken last same = absurd first
    each_source (path ∷ paths) lo m hi end (x ∷ xs) [] t first taken last same = absurd last

    abbrev Picture : List String → Bool → Copying → Type 0
    Picture paths stable t = stable ≡ true → IsPicture paths t

    same_dest :
        (paths : List String) (m : ℕ) (s t : Copying)
        → t.dest ≡ s.dest
        → All
            (λ path.
              (f : File) × (file_at play copyfile pause path m ≡ some f)
              × (get path s.dest ≡ some f.contents))
            paths
        → All
            (λ path.
              (f : File) × (file_at play copyfile pause path m ≡ some f)
              × (get path t.dest ≡ some f.contents))
            paths
    same_dest [] m s t same all = tt
    same_dest (path ∷ paths) m s t same ((f, here, got), rest) =
        ((f, here, ap (get path) same ∙ got), same_dest paths m s t same rest)

    try_copy-Ends :
        (paths : List String) (s : Copying)
        → Ends (Picture paths) (try_copy play copyfile pause paths) s
    unfolding try_copy
    try_copy-Ends paths s =
        bind-Ends (Stats play copyfile pause paths s.tick s) (Picture paths)
          (stat_all play copyfile pause paths) _ s
          (stat_all-Ends play copyfile pause paths s.tick s (omega arith))
          λ before t (first, up, kept).
            bind-Ends (λ _. Copies play copyfile pause paths t.tick t) (Picture paths)
              (copy_all play copyfile pause paths) _ t
              (copy_all-Ends play copyfile pause copier paths t.tick t (omega arith))
              λ _ t' (taken, up').
                bind-Ends (Stats play copyfile pause paths t'.tick t') (Picture paths)
                  (stat_all play copyfile pause paths) _ t'
                  (stat_all-Ends play copyfile pause paths t'.tick t' (omega arith))
                  λ after t'' (last, up'', kept').
                    pure-Ends (Picture paths) (same_stats before after) t'' λ same. (
                      t.tick,
                      same_dest paths t.tick t' t'' kept' (
                          each_source paths s.tick t.tick t'.tick t''.tick before after t' first
                            taken last same),
                    )

    -- With the number of turns.
    abbrev Outcome : List String → ℕ → Bool × ℕ → Copying → Type 0
    Outcome paths most out t = Picture paths out.0 t × (out.1 ≤ most)

    -- After a turn, from what the other turns come to.
    after_turn :
        (left tries : ℕ) (paths : List String)
        → ((t : Copying)
            → Ends
                (Outcome paths (suc tries + left))
                (copy_until play copyfile pause left (suc tries) paths)
                t)
        → (stable : Bool) (t : Copying) → Picture paths stable t
        → Ends
            (Outcome paths (tries + suc left))
            (unless_stable play copyfile pause
              (suc tries)
              (sleep_before play copyfile pause left
                >> copy_until play copyfile pause left (suc tries) paths)
              stable)
            t
    after_turn left tries paths again true t picture =
        pure-Ends (Outcome paths (tries + suc left)) (true, suc tries) t (picture, omega arith)
    after_turn left tries paths again false t picture =
        then-Ends (Outcome paths (tries + suc left)) (sleep_before play copyfile pause left) _ t
          λ _ t' out done. let (pictured, most) = again t' out done in (pictured, omega arith)

    copy_until-Ends :
        (left tries : ℕ) (paths : List String) (s : Copying)
        → Ends (Outcome paths (tries + left)) (copy_until play copyfile pause left tries paths) s
    unfolding copy_until
    copy_until-Ends zero tries paths s =
        pure-Ends (Outcome paths (tries + 0)) (false, tries) s
          (λ same. absurd (ground (arith, same)), omega arith)
    copy_until-Ends (suc left) tries paths s =
        bind-Ends (Picture paths) (Outcome paths (tries + suc left))
          (try_copy play copyfile pause paths) _ s (try_copy-Ends paths s)
          (after_turn left tries paths λ t. copy_until-Ends left (suc tries) paths t)

    -- The regions that were looked for, by name.
    abbrev IsAmong : List String → List String → Type 0
    IsAmong wanted names = (name : String) → has name names ≡ true → has name wanted ≡ true

    existing-IsAmong :
        (rel : String) (wanted : List String) (s : Copying)
        → Ends (λ names _. IsAmong wanted names) (existing play copyfile pause rel wanted) s
    unfolding existing
    existing-IsAmong rel [] s = pure-Ends (λ names _. IsAmong [] names) [] s (λ name h. h)
    existing-IsAmong rel (w ∷ wanted) s =
        then-Ends (λ names _. IsAmong (w ∷ wanted) names)
          (is_file play copyfile pause (under rel w))
          (λ present. existing play copyfile pause rel wanted >>= λ more.
            pure (if_present play copyfile pause w more present))
          s
          λ present t.
            bind-Ends (λ names _. IsAmong wanted names) (λ names _. IsAmong (w ∷ wanted) names)
              (existing play copyfile pause rel wanted)
              (λ more. pure (if_present play copyfile pause w more present)) t
              (existing-IsAmong rel wanted t)
              λ more t' among.
                pure-Ends (λ names _. IsAmong (w ∷ wanted) names)
                  (if_present play copyfile pause w more present) t' (widen present more among)
      where
        widen :
            (present : Bool) (more : List String)
            → IsAmong wanted more
            → IsAmong (w ∷ wanted) (if_present play copyfile pause w more present)
        widen true more among name h = ground (arith, h, among name)
        widen false more among name h = ground (arith, among name h)

    -- What a snapshot tells and has copied.
    abbrev IsTaken : Box → ℕ → Snapshot → Copying → Type 0
    IsTaken area attempts snap t =
        (snap.stable ≡ true
          → (rel : String) × IsPicture (sources_of play copyfile pause rel snap.region_names) t)
        × (snap.attempts ≤ attempts)
        × IsAmong (map region_name (regions area)) snap.region_names

    -- The same for the folder in which the regions stand.
    abbrev pub IsTakenFrom : String → Box → ℕ → Snapshot → Copying → Type 0
    IsTakenFrom rel area attempts snap t =
        (snap.stable ≡ true → IsPicture (sources_of play copyfile pause rel snap.region_names) t)
        × (snap.attempts ≤ attempts)
        × IsAmong (map region_name (regions area)) snap.region_names

    pub from_dir-IsTakenFrom :
        (area : Box) (attempts : ℕ) (rel : String) (s : Copying)
        → Ends (IsTakenFrom rel area attempts) (from_dir play copyfile pause area attempts rel) s
    from_dir-IsTakenFrom area attempts rel s =
        bind-Ends (λ names _. IsAmong (map region_name (regions area)) names)
          (IsTakenFrom rel area attempts)
          (existing play copyfile pause rel (map region_name (regions area))) _ s
          (existing-IsAmong rel (map region_name (regions area)) s)
          λ names t among.
            bind-Ends
              (Outcome (sources_of play copyfile pause rel (sort_by str_le names)) (0 + attempts))
              (IsTakenFrom rel area attempts)
              (copy_until play copyfile pause attempts 0
                (sources_of play copyfile pause rel (sort_by str_le names)))
              _ t
              (copy_until-Ends attempts 0
                (sources_of play copyfile pause rel (sort_by str_le names)) t)
              λ outcome t' (picture, most). pure-Ends (IsTakenFrom rel area attempts) _ t' (
                picture,
                (omega arith),
                λ name h. among name (sym (any-sort_by (λ y. y == name) str_le names) ∙ h),
              )

    from_dir-IsTaken :
        (area : Box) (attempts : ℕ) (rel : String) (s : Copying)
        → Ends (IsTaken area attempts) (from_dir play copyfile pause area attempts rel) s
    from_dir-IsTaken area attempts rel s snap done =
        let (picture, most, among) = from_dir-IsTakenFrom area attempts rel s snap done in
        ((λ stable. (rel, picture stable)), most, among)

    snapshot-IsTaken :
        (area : Box) (attempts : ℕ) (s : Copying)
        → Ends (IsTaken area attempts) (snapshot play copyfile pause area attempts) s
    unfolding snapshot
    snapshot-IsTaken area attempts s =
        then-Ends (IsTaken area attempts) (is_file play copyfile pause level_dat)
          (λ there. require_level play copyfile pause there >>= λ _.
            region_dir play copyfile pause >>= from_dir play copyfile pause area attempts)
          s
          λ there t.
            then-Ends (IsTaken area attempts) (require_level play copyfile pause there)
              (λ _. region_dir play copyfile pause >>= from_dir play copyfile pause area attempts) t
              λ _ t'.
                then-Ends (IsTaken area attempts) (region_dir play copyfile pause)
                  (from_dir play copyfile pause area attempts) t' (from_dir-IsTaken area attempts)

    -- A snapshot that says that it is stable, of a world that the game writes at any time, is a
    -- picture of one instant: `level.dat` and each region file that it names were copied as they
    -- all were then, each of them is a region of the box, and there were no more turns than asked
    -- for; if a copy of a file that does not change meanwhile is exact, and no file changes
    -- between two instants with the same size and mtime.
    pub snapshot-IsPicture :
        (area : Box) (attempts : ℕ) (s : Copying) (snap : Snapshot)
        → (snapshot play copyfile pause area attempts s).0 ≡ ok snap
        → snap.stable ≡ true
        → (rel : String) × IsPicture
            (sources_of play copyfile pause rel snap.region_names)
            (snapshot play copyfile pause area attempts s).1
          × (snap.attempts ≤ attempts)
          × All (λ name. has name (map region_name (regions area)) ≡ true) snap.region_names
    snapshot-IsPicture area attempts s snap done stable =
        let (picture, most, among) = snapshot-IsTaken area attempts s snap done in
        let (rel, pictured) = picture stable in
        (rel, pictured, most, every _ snap.region_names among)
