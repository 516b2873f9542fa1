-- ===== src/Export/Run.antt =====
-- The job of an export: `ExportService._run` (src/dsh_api/export_service.py).
use dsh_api.Prelude.{String, Option, none, some, List, [], ◌∷◌, not, concat, present, if◌then◌else◌}
use dsh_api.Prelude.Dict.{Dict, put}
use dsh_api.Prelude.Dict as D
use dsh_api.Prelude.Json.{Json}
use dsh_api.Action.{
  Act, Error, Result, cluster_error, other, ok, err, pure, settle, refuse_if, attempted, ◌>>=◌,
  ◌>>◌,
}
use dsh_api.Action.Texts.{type_name}
use dsh_api.Config.{Settings}
use dsh_api.Db.Rows.{Db, ExportRow, ExportStatus, now_iso}
use dsh_api.Db.Servers.{get_server}
use dsh_api.Db.Exports.{get_export, update_export, set_status, set_phase}
use dsh_api.Cluster.Backend.{ClusterBackend}
use dsh_api.Server.World.{query, write, log_event}
use dsh_api.Server.Reads.{state_of}
use dsh_api.Export.Exporter.{
  Exporter, ExportDir, without_dir, on_world, on_db, clear_staging, failed,
}
use dsh_api.Export.Summary.{Columns, read_columns, ready_fields, export_args, is_queued}

-- `loads` is `json.loads`.
module _ {C : Type 0} (settings : Settings) (B : ClusterBackend C)
    (loads : String → Result Json) where
  abbrev pub require_server : String → Act (Exporter C) (Unit {0})
  require_server name = do
    server ← on_world (query (get_server name))
    refuse_if (not (present server)) (cluster_error "the server was deleted")

  -- The calls of `on_phase`.
  abbrev pub report_phases : String → List String → Act (Exporter C) (Unit {0})
  report_phases id [] = pure tt
  report_phases id (phase ∷ phases) = do
    on_db (update_export id (set_phase (some phase) ∷ []))
    report_phases id phases

  abbrev pub stage : String → Dict String → Act (Exporter C) (Unit {0})
  stage id files s = (ok tt, record s { staging = put id files s.staging })

  -- `self.cluster.run_world_export`, with `staging` for `dest`.
  abbrev pub run_pod : ExportRow → List String → Act (Exporter C) (Unit {0})
  run_pod row args s =
      let (run, outside) =
        B.run_world_export row.server row.id
          record {
            image = settings.export_image;
            args = args;
            timeout = settings.export_timeout_seconds;
          }
          s.world.outside in
      (do report_phases row.id run.phases; files ← settle run.unpacked; stage row.id files)
        record s { world = record s.world { outside = outside } }

  abbrev no_summary : Error
  no_summary = other "FileNotFoundError" "summary.json"

  abbrev pub summary_in : Option (Dict String) → Result Json
  summary_in none = err no_summary
  summary_in (some files) = elim (D.get "summary.json" files) [
    | none ↦ err no_summary
    | some text ↦ loads text
  ]

  abbrev pub read_summary : String → Act (Exporter C) Json
  read_summary id s = (summary_in (D.get id s.staging), s)

  -- Up to the files in the staging directory.
  unfoldable pub run_staged : ExportRow → Act (Exporter C) (Unit {0})
  unfolding get_server clear_staging put
  run_staged row = do
    require_server row.server
    state ← on_world (state_of settings B row.server)
    clear_staging row.id
    stage row.id []
    run_pod row (export_args settings state row)

  -- `meanwhile` is what other requests and jobs do to the database while the pod runs.
  unfoldable pub collect : (meanwhile : Db → Db) → ExportRow → Act (Exporter C) Json
  unfolding get_server D.get
  collect meanwhile row = do
    on_world (write (λ _. meanwhile))
    summary ← read_summary row.id
    require_server row.server
    pure summary

  abbrev pub prepare : (meanwhile : Db → Db) → ExportRow → Act (Exporter C) Json
  prepare meanwhile row = do run_staged row; collect meanwhile row

  abbrev pub moved : Option (Dict String) → ExportRow → List ExportDir → List ExportDir
  moved none row dirs = without_dir row.server row.id dirs
  moved (some files) row dirs =
      record { server = row.server; id = row.id; files = files }
      ∷ without_dir row.server row.id dirs

  -- `staging.rename(final)`
  abbrev pub move_staging : ExportRow → Act (Exporter C) (Unit {0})
  move_staging row s = (
    ok tt,
    record s { dirs = moved (D.get row.id s.staging) row s.dirs; staging = D.pop row.id s.staging },
  )

  abbrev pub store : ExportRow → Columns → Act (Exporter C) (Unit {0})
  store row columns s =
      on_db
        (update_export row.id
          (ready_fields settings.export_retention_hours (now_iso s.world.now) columns))
        s

  unfoldable pub publish : ExportRow → Json → Act (Exporter C) (Unit {0})
  unfolding D.get D.pop read_columns
  publish row summary = do
    move_staging row
    columns ← settle (read_columns summary)
    store row columns
    on_world (log_event row.tenant_id row.server "export.ready" row.id)

  -- The two `except` branches.
  abbrev pub reason_of : Error → String
  reason_of (cluster_error message) = message
  reason_of e = concat ("the export failed unexpectedly (" ∷ type_name e ∷ ")" ∷ [])

  -- The `except` branches and the `finally`.
  abbrev pub end_run : ExportRow → Result (Unit {0}) × Exporter C → Result (Unit {0}) × Exporter C
  end_run row (r, s) =
      let (r', s') = attempted r pure (λ e. failed settings B row (reason_of e)) s in
      (r', (clear_staging row.id s').1)

  -- The `try` with its branches.
  unfoldable pub run_queued : (meanwhile : Db → Db) → ExportRow → Act (Exporter C) (Unit {0})
  run_queued meanwhile row s =
      end_run row ((do summary ← prepare meanwhile row; publish row summary) s)

  abbrev pub run_row :
      (meanwhile : Db → Db) → String → Option ExportRow → Act (Exporter C) (Unit {0})
  run_row meanwhile id none = pure tt
  run_row meanwhile id (some row) =
      if is_queued row.status
      then (do
        on_db
            (update_export id (set_status ExportStatus.running ∷ set_phase (some "starting") ∷ []))
        run_queued meanwhile row)
      else pure tt

  -- `_run`
  unfoldable pub run : (meanwhile : Db → Db) → String → Act (Exporter C) (Unit {0})
  unfolding run_queued get_export
  run meanwhile id = do row ← on_world (query (get_export id)); run_row meanwhile id row
