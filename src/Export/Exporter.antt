-- ===== src/Export/Exporter.antt =====
-- The state of `ExportService` (src/dsh_api/export_service.py), and what its methods share.
use Prim.Native.Char.{Char}
use dsh_api.Prelude.{
  ℕ, ◌+◌, ◌*◌, String, Bool, true, false, ◌&&◌, ◌||◌, not, Option, none, some, List, [], ◌∷◌, keep,
  ℤ, leb, eqb, length, ◌==◌, if◌then◌else◌, concat, reverse,
}
use dsh_api.Prelude.Chars.{chars, text, is_char}
use dsh_api.Prelude.Dict.{Dict, pop}
use dsh_api.Action.{Act, ok, err, export_disabled, export_not_found, refuse_if, ◌>>=◌, ◌>>◌}
use dsh_api.Config.{Settings}
use dsh_api.Db.Rows.{Db, ExportRow, ExportStatus, micros, now_iso}
use dsh_api.Db.Exports.{
  get_export, update_export, ExportField, set_status, set_phase, set_error, set_finished_at,
  set_expires_at,
}
use dsh_api.Cluster.Backend.{ClusterBackend}
use dsh_api.Server.World.{World, write, log_event}
use dsh_api.Server.Reads.{owned}
use dsh_api.Export.Names.{is_hex, is_preview_file}

-- `<export_dir>/<server>/<id>` with its files, by their paths below it.
pub record ExportDir : Type 0 where
  pub server : String
  pub id : String
  pub files : Dict String

-- `staging` is `.staging`, by the id of the export; `runs` are the ids that were submitted to the
-- executor of the exports.
pub record Exporter (C : Type 0) : Type 0 where
  pub world : World C
  pub dirs : List ExportDir
  pub staging : Dict (Dict String)
  pub runs : List String
  pub last_sweep : Option ℕ

-- Times, in the clock's microseconds.
abbrev pub link_ttl : ℕ
link_ttl = 15 * 60 * micros

abbrev pub day : ℕ
day = 24 * 3600 * micros

abbrev pub sweep_every : ℕ
sweep_every = 10 * 60 * micros

pub record ExportView : Type 0 where
  pub id : String
  pub server : String
  pub status : ExportStatus
  pub phase : Option String
  -- The four sides, where the first is there.
  pub area : Option (Option ℤ × Option ℤ × Option ℤ × Option ℤ)
  pub custom_area : Bool
  pub snapshot : Option String
  pub created_at : ℕ
  pub finished_at : Option ℕ
  pub expires_at : Option ℕ
  pub error : Option String
  pub stats : Option String

abbrev area_of : ExportRow → Option ℤ → Option (Option ℤ × Option ℤ × Option ℤ × Option ℤ)
area_of row none = none
area_of row (some _) = some (row.x1, row.z1, row.x2, row.z2)

-- `_view`
abbrev pub view : ExportRow → ExportView
view row = record {
  id = row.id;
  server = row.server;
  status = row.status;
  phase = row.phase;
  area = area_of row row.x1;
  custom_area = row.custom_area;
  snapshot = row.snapshot;
  created_at = row.created_at;
  finished_at = row.finished_at;
  expires_at = row.expires_at;
  error = row.error;
  stats = row.stats;
}

abbrev past : ℕ → Option ℕ → Bool
past now none = false
past now (some at) = leb (at * micros) now

-- `_expired`
abbrev pub is_expired : ℕ → ExportRow → Bool
is_expired now row = past now row.expires_at

abbrev pub all_hex : List Char → Bool
all_hex [] = true
all_hex (c ∷ cs) = is_hex c && all_hex cs

-- `$` also matches before a newline at the end.
abbrev pub without_newline : List Char → List Char
without_newline [] = []
without_newline (c ∷ cs) = if is_char 10 c then cs else c ∷ cs

abbrev pub bare_line : String → List Char
bare_line s = reverse (without_newline (reverse (chars s)))

-- `EXPORT_ID_RE.match`
unfoldable pub is_export_id : String → Bool
unfolding chars
is_export_id s = all_hex (bare_line s) && eqb (length (bare_line s)) 12

-- `PREVIEW_FILE_RE.match`
unfoldable pub is_preview_name : (is_decimal : Char → Bool) → String → Bool
unfolding chars is_preview_file
is_preview_name is_decimal s =
    is_preview_file is_decimal (chars s) || is_preview_file is_decimal (bare_line s)

abbrev pub is_dir : (server id : String) → ExportDir → Bool
is_dir server id d = d.server == server && d.id == id

-- `shutil.rmtree(self._dir(server, export_id), ignore_errors=True)`
abbrev pub without_dir : (server id : String) → List ExportDir → List ExportDir
without_dir server id dirs = keep (λ d. not (is_dir server id d)) dirs

-- `reason[:300]`
abbrev take_chars : ℕ → List Char → List Char
take_chars (ℕ.suc n) (c ∷ cs) = c ∷ take_chars n cs
take_chars _ _ = []

unfoldable pub cut : ℕ → String → String
unfolding chars text
cut n s = text (take_chars n (chars s))

module _ {C : Type 0} where
  -- An operation on the database, the queue and the cluster.
  abbrev pub on_world : {A : Type 0} → Act (World C) A → Act (Exporter C) A
  on_world m s = let (r, w) = m s.world in (r, record s { world = w })

  -- A transaction that may raise.
  abbrev pub on_db : {A : Type 0} → Act Db A → Act (Exporter C) A
  on_db m s = let (r, db) = m s.world.db in (r, record s { world = record s.world { db = db } })

  -- A change of the disk.
  abbrev pub on_disk : (List ExportDir → List ExportDir) → Act (Exporter C) (Unit {0})
  on_disk f s = (ok tt, record s { dirs = f s.dirs })

  -- `shutil.rmtree(staging, ignore_errors=True)`
  unfoldable pub clear_staging : String → Act (Exporter C) (Unit {0})
  unfolding pop
  clear_staging id s = (ok tt, record s { staging = pop id s.staging })

  -- The row is looked up only for what looks like an id.
  abbrev pub find_export : String → Act (Exporter C) (Option ExportRow)
  find_export id s = (ok (if is_export_id id then get_export id s.world.db else none), s)

  -- `_remove`
  unfoldable pub remove : (server id : String) → Act (Exporter C) (Unit {0})
  remove server id = do
    on_disk (without_dir server id)
    on_world (write (λ _. dsh_api.Db.Exports.delete_export id))

  module _ (settings : Settings) (B : ClusterBackend C) where
    -- `_require_enabled`
    abbrev pub require_enabled : Act (Exporter C) (Unit {0})
    require_enabled = refuse_if (not settings.world_export) export_disabled

    abbrev pub owned_row : (tenant name id : String) → Option ExportRow → Act (Exporter C) ExportRow
    owned_row tenant name id none s = (err (export_not_found id), s)
    owned_row tenant name id (some row) s =
        if not (row.server == name) || not (row.tenant_id == tenant)
        then (err (export_not_found id), s)
        else if is_expired s.world.now row
        then (err (export_not_found id), s)
        else (ok row, s)

    -- `_owned_export`
    unfoldable pub owned_export : (tenant name id : String) → Act (Exporter C) ExportRow
    unfolding is_export_id get_export
    owned_export tenant name id = do
      on_world (owned settings B tenant name)
      row ← find_export id
      owned_row tenant name id row

    -- The fields of a row that failed at `now`.
    abbrev pub failed_fields : (reason : String) (now : ℕ) → List ExportField
    failed_fields reason now =
        set_status ExportStatus.failed
        ∷ set_phase none
        ∷ set_error (some reason)
        ∷ set_finished_at (some (now_iso now))
        ∷ set_expires_at (some (now_iso now + settings.export_retention_hours * 3600))
        ∷ []

    -- `_failed`
    unfoldable pub failed : ExportRow → String → Act (Exporter C) (Unit {0})
    unfolding cut
    failed row reason s =
        (do
          on_db (update_export row.id (failed_fields (cut 300 reason) s.world.now))
          on_world (
              log_event row.tenant_id row.server "export.failed"
                (concat (row.id ∷ ": " ∷ cut 300 reason ∷ []))))
          s
