-- ===== src/Script/Copied.antt =====
-- What is read and copied of the world, and when (`snapshot` of export/dsh_world_export.py).
use dsh_api.Prelude.{
  ℕ, ◌≤◌, String, ◌≡◌, refl, sym, ◌∙◌, false, Option, none, some, List, [], ◌∷◌, All, arith,
  Bool-cases, inl, inr, ◌==◌, eq_iff, eq_refl,
}
use dsh_api.Prelude.Dict.{get, get-put}
use dsh_api.Action.{Result, ok, err}
use dsh_api.Script.Snapshot.{
  File, Disk, Copying, stat_of, file_at, stat, stat_all, found_stat, copied, copy, copy_all,
}
use dsh_api.Script.Ends.{Ends, bind-Ends, pure-Ends}

module _ (play : ℕ → Disk) (copyfile : String → ℕ → Result String × ℕ) (pause : ℕ) where
  -- A file whose size and mtime are the same at two instants did not change between them.
  abbrev pub IsStamped : Type 0
  IsStamped =
      (path : String) (a u c : ℕ) (f g : File)
      → a ≤ u
      → u ≤ c
      → file_at play copyfile pause path a ≡ some f
      → file_at play copyfile pause path c ≡ some g
      → stat_of f ≡ stat_of g
      → file_at play copyfile pause path u ≡ some f

  -- A copy takes its time, and of a file that does not change meanwhile it is exact.
  abbrev pub IsCopier : Type 0
  IsCopier =
      (path : String) (t : ℕ)
      → (t ≤ (copyfile path t).1)
        × ((f : File)
            → ((u : ℕ)
                → t ≤ u
                → u ≤ (copyfile path t).1
                → file_at play copyfile pause path u ≡ some f)
            → (copyfile path t).0 ≡ ok f.contents)

  -- What was read of a path between two instants.
  abbrev pub WasSeen : String → (lo hi : ℕ) → ℕ × ℕ → Type 0
  WasSeen path lo hi x =
      (a : ℕ) × (f : File) × (lo ≤ a)
      × (a ≤ hi)
      × (file_at play copyfile pause path a ≡ some f)
      × (stat_of f ≡ x)

  unfoldable pub WereSeen : List String → (lo hi : ℕ) → List (ℕ × ℕ) → Type 0
  WereSeen [] lo hi [] = Unit
  WereSeen (path ∷ paths) lo hi (x ∷ xs) = WasSeen path lo hi x × WereSeen paths lo hi xs
  WereSeen _ lo hi _ = ⊥

  abbrev pub Stats : List String → ℕ → Copying → List (ℕ × ℕ) → Copying → Type 0
  Stats paths lo s xs t = WereSeen paths lo t.tick xs × (s.tick ≤ t.tick) × (t.dest ≡ s.dest)

  abbrev Stat : String → ℕ → Copying → ℕ × ℕ → Copying → Type 0
  Stat path lo s x t = WasSeen path lo s.tick x × (s.tick ≤ t.tick) × (t.dest ≡ s.dest)

  stat-Ends :
      (path : String) (lo : ℕ) (s : Copying)
      → lo ≤ s.tick
      → Ends (Stat path lo s) (stat play copyfile pause path) s
  unfolding stat
  stat-Ends path lo s low x done =
      (go (file_at play copyfile pause path s.tick) refl done, omega arith, refl)
    where
      go :
          (found : Option File)
          → file_at play copyfile pause path s.tick ≡ found
          → found_stat play copyfile pause path found ≡ ok x
          → WasSeen path lo s.tick x
      go none here fine = absurd (ground (arith, fine))
      go (some f) here fine = (s.tick, f, low, omega arith, here, ground (arith, fine))

  later :
      (path : String) (lo hi hi' : ℕ) (x : ℕ × ℕ)
      → hi ≤ hi'
      → WasSeen path lo hi x
      → WasSeen path lo hi' x
  later path lo hi hi' x le (a, f, low, high, here, same) = (a, f, low, omega arith, here, same)

  pub stat_all-Ends :
      (paths : List String) (lo : ℕ) (s : Copying)
      → lo ≤ s.tick
      → Ends (Stats paths lo s) (stat_all play copyfile pause paths) s
  unfolding stat_all WereSeen
  stat_all-Ends [] lo s low = pure-Ends (Stats [] lo s) [] s (tt, omega arith, refl)
  stat_all-Ends (path ∷ paths) lo s low =
      bind-Ends (Stat path lo s) (Stats (path ∷ paths) lo s) (stat play copyfile pause path) _ s
        (stat-Ends path lo s low)
        λ x t (seen, up, kept).
          bind-Ends (Stats paths lo t) (Stats (path ∷ paths) lo s)
            (stat_all play copyfile pause paths) _ t (stat_all-Ends paths lo t (omega arith))
            λ xs t' (rest, up', kept').
              pure-Ends (Stats (path ∷ paths) lo s) (x ∷ xs) t' (
                (later path lo s.tick t'.tick x (omega arith) seen, rest),
                omega arith,
                kept' ∙ kept,
              )

  -- What was copied of a path, between two instants.
  abbrev pub WasCopied : String → (lo hi : ℕ) → Copying → Type 0
  WasCopied path lo hi t =
      (b : ℕ) × (content : String) × (lo ≤ b)
      × ((copyfile path b).1 ≤ hi)
      × ((copyfile path b).0 ≡ ok content)
      × (get path t.dest ≡ some content)

  abbrev pub Copies : List String → ℕ → Copying → Copying → Type 0
  Copies paths lo s t = All (λ path. WasCopied path lo t.tick t) paths × (s.tick ≤ t.tick)

  module _ (copier : IsCopier) where
    -- A copy that is taken, or one of another file that leaves it alone.
    copy-Copied :
        (path : String) (s : Copying) (lo : ℕ)
        → lo ≤ s.tick
        → Ends
            (λ _ t. WasCopied path lo t.tick t × (s.tick ≤ t.tick))
            (copy play copyfile pause path)
            s
    unfolding copy
    copy-Copied path s lo low a done = go (copyfile path s.tick).0 refl done
      where
        go :
            (r : Result String)
            → (copyfile path s.tick).0 ≡ r
            → (copied play copyfile pause path r (copyfile path s.tick).1 s).0 ≡ ok a
            → WasCopied path lo
                (copied play copyfile pause path r (copyfile path s.tick).1 s).1.tick
                (copied play copyfile pause path r (copyfile path s.tick).1 s).1
              × (s.tick ≤ (copied play copyfile pause path r (copyfile path s.tick).1 s).1.tick)
        go (err e) here fine = absurd (ground (arith, fine))
        go (ok content) here fine = (
          (
            s.tick,
            content,
            low,
            omega arith,
            here,
            rw (get-put path path content s.dest, eq_refl path) refl,
          ),
          (copier path s.tick).0,
        )

    copy-keeps :
        (other path : String) (s : Copying) (lo : ℕ)
        → lo ≤ s.tick
        → WasCopied path lo s.tick s
        → Ends
            (λ _ t. WasCopied path lo t.tick t × (s.tick ≤ t.tick))
            (copy play copyfile pause other)
            s
    unfolding copy
    copy-keeps other path s lo low (b, content, from, until, read, kept) a done =
        elim (Bool-cases (other == path)) [
          | inl here ↦
              let same : other ≡ path = (eq_iff other path).0 here in
              rw (sym same) (copy-Copied other s lo low a done)
          | inr apart ↦ go (copyfile other s.tick).0 (copier other s.tick).0 apart done
        ]
      where
        go :
            (r : Result String)
            → (s.tick ≤ (copyfile other s.tick).1)
            → (other == path) ≡ false
            → (copied play copyfile pause other r (copyfile other s.tick).1 s).0 ≡ ok a
            → WasCopied path lo
                (copied play copyfile pause other r (copyfile other s.tick).1 s).1.tick
                (copied play copyfile pause other r (copyfile other s.tick).1 s).1
              × (s.tick ≤ (copied play copyfile pause other r (copyfile other s.tick).1 s).1.tick)
        go (err e) up apart fine = absurd (ground (arith, fine))
        go (ok new) up apart fine = (
          (b, content, from, omega arith, read, rw (get-put path other new s.dest, apart) kept),
          up,
        )

    -- A copy that was made is there at the end.
    copy_all-keeps :
        (paths : List String) (path : String) (s : Copying) (lo : ℕ)
        → lo ≤ s.tick
        → WasCopied path lo s.tick s
        → Ends (λ _ t. WasCopied path lo t.tick t) (copy_all play copyfile pause paths) s
    unfolding copy_all
    copy_all-keeps [] path s lo low was = pure-Ends (λ _ t. WasCopied path lo t.tick t) tt s was
    copy_all-keeps (other ∷ paths) path s lo low was =
        bind-Ends (λ _ t. WasCopied path lo t.tick t × (s.tick ≤ t.tick))
          (λ _ t. WasCopied path lo t.tick t) (copy play copyfile pause other) _ s
          (copy-keeps other path s lo low was)
          λ _ t (was', up). copy_all-keeps paths path t lo (omega arith) was'

    pub copy_all-Ends :
        (paths : List String) (lo : ℕ) (s : Copying)
        → lo ≤ s.tick
        → Ends (λ _. Copies paths lo s) (copy_all play copyfile pause paths) s
    unfolding copy_all
    copy_all-Ends [] lo s low = pure-Ends (λ _. Copies [] lo s) tt s (tt, omega arith)
    copy_all-Ends (path ∷ paths) lo s low =
        bind-Ends (λ _ t. WasCopied path lo t.tick t × (s.tick ≤ t.tick))
          (λ _. Copies (path ∷ paths) lo s) (copy play copyfile pause path) _ s
          (copy-Copied path s lo low)
          λ _ t (was, up) a done.
            let (rest, up') = copy_all-Ends paths lo t (omega arith) a done in
            ((copy_all-keeps paths path t lo (omega arith) was a done, rest), omega arith)
