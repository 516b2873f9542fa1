-- ===== src/Export/Swept.antt =====
-- What the loop of a sweep removes (src/dsh_api/export_service.py).
use dsh_api.Prelude.{
  ℕ, suc, ◌+◌, String, ◌≡◌, refl, ap, Bool, true, ◌&&◌, ◌||◌, not, List, [], ◌∷◌, any, keep,
  count_by, arith, if◌then◌else◌, inl, inr, Bool-cases,
}
use dsh_api.Action.{ok}
use dsh_api.Db.Rows.{ExportRow}
use dsh_api.Db.Servers.{get_server}
use dsh_api.Db.Exports.{has_id, delete_export}
use dsh_api.Export.Exporter.{Exporter, ExportDir, is_dir, remove}
use dsh_api.Export.Sweep.{is_swept, is_orphaned, sweep_rows}

module _ {ℓ} {A : Type ℓ} where
  keep-not-not :
      (p q : A → Bool) (xs : List A)
      → keep (λ x. not (p x)) (keep (λ x. not (q x)) xs) ≡ keep (λ x. not (q x || p x)) xs
  keep-not-not p q [] = refl
  keep-not-not p q (x ∷ xs) = ground (arith, keep-not-not p q xs)

  keep_all : (xs : List A) → keep (λ x. true) xs ≡ xs
  keep_all [] = refl
  keep_all (x ∷ xs) = ap (◌∷◌ x) (keep_all xs)

zero_left : (n : ℕ) → 0 + n ≡ n
zero_left n = omega arith

count_on : (m n : ℕ) → suc m + n ≡ m + suc n
count_on m n = omega arith

module _ (p : ExportRow → Bool) where
  -- A row of the list that passes has the id, and one that passes has the directory.
  abbrev pub gone : List ExportRow → ExportRow → Bool
  gone rows e = any (λ r. p r && has_id r.id e) rows

  abbrev pub gone_dir : List ExportRow → ExportDir → Bool
  gone_dir rows d = any (λ r. p r && is_dir r.server r.id d) rows

  abbrev pub known_of : List ExportRow → List (String × String) → List (String × String)
  known_of [] known = known
  known_of (r ∷ rows) known =
      let kept = known_of rows ((r.server, r.id) ∷ known) in
      let swept = known_of rows known in if p r then swept else kept

module _ {C : Type 0} where
  abbrev pub dropped : (p : ExportRow → Bool) → List ExportRow → Exporter C → Exporter C
  dropped p rows s = record s {
    world = record s.world {
      db = record s.world.db { exports = keep (λ e. not (gone p rows e)) s.world.db.exports };
    };
    dirs = keep (λ d. not (gone_dir p rows d)) s.dirs;
  }

  pub sweep_rows-dropped :
      (rows : List ExportRow) (removed : ℕ) (known : List (String × String)) (s : Exporter C)
      → let p = is_swept s.world.now s.world.db in
        sweep_rows rows removed known s
        ≡ (ok (count_by p rows + removed, known_of p rows known), dropped p rows s)
  unfolding sweep_rows remove delete_export is_orphaned get_server
  sweep_rows-dropped [] removed known s =
      rw (keep_all s.world.db.exports, keep_all s.dirs, zero_left removed) refl
  sweep_rows-dropped (r ∷ rows) removed known s =
      elim (Bool-cases (is_swept s.world.now s.world.db r)) [
        | inl swept ↦
            rw
              (
                swept,
                sweep_rows-dropped rows (suc removed) known (remove r.server r.id s).1,
                keep-not-not (gone (is_swept s.world.now s.world.db) rows) (has_id r.id)
                    s.world.db.exports,
                keep-not-not (gone_dir (is_swept s.world.now s.world.db) rows)
                    (is_dir r.server r.id) s.dirs,
                count_on (count_by (is_swept s.world.now s.world.db) rows) removed,
              )
              refl
        | inr kept ↦ rw (kept, sweep_rows-dropped rows removed ((r.server, r.id) ∷ known) s) refl
      ]
