-- ===== src/Export/Sweeping.antt =====
-- What a sweep leaves, where the ids of the exports are a key (src/dsh_api/export_service.py).
use dsh_api.Prelude.{
  ℕ, ◌+◌, String, ◌≡◌, refl, Bool, true, false, ◌&&◌, ◌||◌, not, List, [], ◌∷◌, any, keep, count_by,
  eq_refl, eq_iff, arith,
}
use dsh_api.Action.{ok}
use dsh_api.Db.Rows.{ExportRow}
use dsh_api.Db.Exports.{has_id, all_exports}
use dsh_api.Export.Exporter.{Exporter, ExportDir, is_dir}
use dsh_api.Export.Sweep.{is_swept, names_dir, sweep}
use dsh_api.Export.Swept.{gone, gone_dir, known_of, sweep_rows-dropped}

-- The primary key of the table.
abbrev pub HasKey : List ExportRow → Type 0
HasKey [] = Unit
HasKey (e ∷ es) = (any (has_id e.id) es ≡ false) × HasKey es

module _ {ℓ} {A : Type ℓ} where
  keep-keep :
      (p q r : A → Bool) (xs : List A)
      → ((x : A) → (q x && p x) ≡ r x)
      → keep p (keep q xs) ≡ keep r xs
  keep-keep p q r [] h = refl
  keep-keep p q r (x ∷ xs) h = ground (arith, h x, keep-keep p q r xs h)

module _ (p : ExportRow → Bool) where
  gone-other :
      (e : ExportRow) (es : List ExportRow) → any (has_id e.id) es ≡ false → gone p es e ≡ false
  gone-other e [] h = refl
  gone-other e (x ∷ es) h = ground (arith, eq_iff x.id e.id, eq_iff e.id x.id, gone-other e es)

  keep-gone_cons :
      (e : ExportRow) (es xs : List ExportRow)
      → any (has_id e.id) xs ≡ false
      → keep (λ x. not (gone p (e ∷ es) x)) xs ≡ keep (λ x. not (gone p es x)) xs
  keep-gone_cons e es [] h = refl
  keep-gone_cons e es (x ∷ xs) h = ground (arith, keep-gone_cons e es xs)

  -- Among rows with a key, the rows that pass are the ones that go.
  keep-gone :
      (es : List ExportRow)
      → HasKey es
      → keep (λ e. not (gone p es e)) es ≡ keep (λ e. not (p e)) es
  keep-gone [] key = refl
  keep-gone (e ∷ es) key =
      ground (
        arith,
        eq_refl e.id,
        gone-other e es key.0,
        keep-gone_cons e es es key.0,
        keep-gone es key.1,
      )

  -- A row that stays has the directory.
  abbrev pub stays_dir : List ExportRow → ExportDir → Bool
  stays_dir rows d = any (λ r. not (p r) && is_dir r.server r.id d) rows

  known-stays :
      (d : ExportDir) (rows : List ExportRow) (known : List (String × String))
      → any (names_dir d) (known_of p rows known) ≡ (stays_dir rows d || any (names_dir d) known)
  known-stays d [] known = refl
  known-stays d (r ∷ rows) known =
      ground (arith, known-stays d rows known, known-stays d rows ((r.server, r.id) ∷ known))

  other_dir :
      (q : ExportRow → Bool) (d : ExportDir) (e : ExportRow) (es : List ExportRow)
      → any (has_id e.id) es ≡ false
      → is_dir e.server e.id d ≡ true
      → any (λ r. q r && is_dir r.server r.id d) es ≡ false
  other_dir q d e [] h here = refl
  other_dir q d e (x ∷ es) h here =
      ground (arith, eq_iff d.id e.id, eq_iff d.id x.id, eq_iff x.id e.id, other_dir q d e es)

  stays-gone_dir :
      (d : ExportDir) (es : List ExportRow)
      → HasKey es
      → (not (gone_dir p es d) && stays_dir es d) ≡ stays_dir es d
  stays-gone_dir d [] key = refl
  stays-gone_dir d (e ∷ es) key = ground (
    arith,
    other_dir p d e es key.0,
    other_dir (λ r. not (p r)) d e es key.0,
    stays-gone_dir d es key.1,
  )

  known_left :
      (es : List ExportRow)
      → HasKey es
      → (d : ExportDir)
      → (not (gone_dir p es d) && any (names_dir d) (known_of p es [])) ≡ stays_dir es d
  known_left es key d = ground (arith, known-stays d es [], stays-gone_dir d es key)

count-zero : (n : ℕ) → n + 0 ≡ n
count-zero n = omega arith

module _ {C : Type 0} where
  -- What a sweep makes of the state.
  abbrev pub swept : Exporter C → Exporter C
  swept s = record s {
    world = record s.world {
      db = record s.world.db {
        exports = keep (λ e. not (is_swept s.world.now s.world.db e)) s.world.db.exports;
      };
    };
    dirs = keep (stays_dir (is_swept s.world.now s.world.db) s.world.db.exports) s.dirs;
  }

  -- If the ids of the exports are a key, a sweep is exactly this: it drops the rows that are not
  -- active and have expired or lost their server to another tenant or to nobody, keeps the
  -- directories of the other rows only, answers with the number of the rows it dropped, and
  -- changes nothing else.
  pub sweep-swept :
      (s : Exporter C)
      → HasKey s.world.db.exports
      → sweep s ≡ (ok (count_by (is_swept s.world.now s.world.db) s.world.db.exports), swept s)
  unfolding sweep all_exports
  sweep-swept s key =
      let p : ExportRow → Bool = is_swept s.world.now s.world.db in
      rw
        (
          sweep_rows-dropped s.world.db.exports 0 [] s,
          keep-gone p s.world.db.exports key,
          keep-keep (λ d. any (names_dir d) (known_of p s.world.db.exports []))
              (λ d. not (gone_dir p s.world.db.exports d)) (stays_dir p s.world.db.exports) s.dirs
              (known_left p s.world.db.exports key),
          count-zero (count_by p s.world.db.exports),
        )
        refl
