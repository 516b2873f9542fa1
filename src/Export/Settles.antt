-- ===== src/Export/Settles.antt =====
-- How the job of an export ends (src/dsh_api/export_service.py).
use dsh_api.Prelude.{
  String, ◌≡◌, refl, ◌∙◌, Bool, true, false, ◌&&◌, not, present, none, some, List, [], ◌∷◌, any,
  update_where, eq_refl, arith, inl, inr, ◌⊎◌, Option-cases,
}
use dsh_api.Prelude.Dict as D
use dsh_api.Prelude.Dict.{Dict, get-pop}
use dsh_api.Prelude.Json.{Json}
use dsh_api.Action.{cluster_error, Result, Result-cases, ok, err, carry_on, pure, ◌>>◌}
use dsh_api.Action.Atomic.{refuse_if-Reads, Reads, reads_bind}
use dsh_api.Config.{Settings}
use dsh_api.Db.Rows.{Db, ExportRow, ExportStatus, now_iso}
use dsh_api.Db.Servers.{get_server}
use dsh_api.Db.Events.{record_event}
use dsh_api.Db.Exports.{
  set_status, set_phase, get_export, ExportField, has_id, set_fields, update_export,
}
use dsh_api.Cluster.Backend.{ClusterBackend}
use dsh_api.Export.Exporter.{
  on_db, Exporter, ExportDir, is_dir, clear_staging, failed, failed_fields, cut,
}
use dsh_api.Export.Summary.{is_queued, read_columns, ready_fields}
use dsh_api.Export.Requests.{is_done}
use dsh_api.Export.Run.{
  move_staging, run_staged, end_run, read_summary, require_server, collect, publish, run_queued,
  run, moved, reason_of,
}

abbrev pub is_failed : ExportStatus → Bool
is_failed ExportStatus.failed = true
is_failed _ = false

-- A row of the id that has another status.
abbrev pub lacks : (ExportStatus → Bool) → String → ExportRow → Bool
lacks status id e = has_id id e && not (status e.status)

-- Fields that leave the id and set a status.
abbrev SetStatus : (ExportStatus → Bool) → List ExportField → Type 0
SetStatus status fields =
    (e : ExportRow)
    → ((set_fields fields e).id ≡ e.id) × (status (set_fields fields e).status ≡ true)

lacks-update_where :
    (status : ExportStatus → Bool) (id : String) (fields : List ExportField) (es : List ExportRow)
    → SetStatus status fields
    → any (lacks status id) (update_where (has_id id) (set_fields fields) es) ≡ false
lacks-update_where status id fields [] sets = refl
lacks-update_where status id fields (e ∷ es) sets =
    ground (arith, sets e, lacks-update_where status id fields es sets)

module _ {C : Type 0} (settings : Settings) (B : ClusterBackend C)
    (loads : String → Result Json) where
  -- A job that ended: it raised nothing, its staging directory is gone, and the export is ready with
  -- its directory in place or it failed.
  abbrev pub IsEnded : ExportRow → Result (Unit {0}) × Exporter C → Type 0
  IsEnded row out =
      (out.0 ≡ ok tt)
      × (D.get row.id out.1.staging ≡ none)
      × (((any (lacks is_done row.id) out.1.world.db.exports ≡ false)
            × (any (is_dir row.server row.id) out.1.dirs ≡ true))
          ⊎ (any (lacks is_failed row.id) out.1.world.db.exports ≡ false))

  gone : (id : String) (staging : Dict (Dict String)) → D.get id (D.pop id staging) ≡ none
  gone id staging = rw (get-pop id id staging, eq_refl id) refl

  -- The `finally`.
  abbrev cleared : ExportRow → Result (Unit {0}) × Exporter C → Result (Unit {0}) × Exporter C
  cleared row (r, s) = (r, (clear_staging row.id s).1)

  failed-IsEnded :
      (row : ExportRow) (reason : String) (s : Exporter C)
      → IsEnded row (cleared row (failed settings B row reason s))
  unfolding failed clear_staging update_export record_event
  failed-IsEnded row reason s = (
    refl,
    gone row.id s.staging,
    inr (
        lacks-update_where is_failed row.id (failed_fields settings B (cut 300 reason) s.world.now)
          s.world.db.exports (λ e. (refl, refl))),
  )

  moved-is_dir :
      (row : ExportRow) (files : Dict String) (dirs : List ExportDir)
      → any (is_dir row.server row.id) (moved settings B loads (some files) row dirs) ≡ true
  moved-is_dir row files dirs = rw (eq_refl row.server, eq_refl row.id) refl

  publish-IsEnded :
      (row : ExportRow) (summary : Json) (files : Dict String) (s : Exporter C)
      → D.get row.id s.staging ≡ some files
      → IsEnded row (end_run settings B loads row (publish settings B loads row summary s))
  unfolding publish update_export record_event clear_staging
  publish-IsEnded row summary files s staged = elim (Result-cases (read_columns summary)) [
    | inr (e, bad) ↦
        rw bad (
          failed-IsEnded row (reason_of settings B loads e) (move_staging settings B loads row s).1)
    | inl (columns, good) ↦ rw good (
      refl,
      gone row.id (D.pop row.id s.staging),
      inl (
        lacks-update_where is_done row.id
            (ready_fields settings.export_retention_hours (now_iso s.world.now) columns)
            s.world.db.exports (λ e. (refl, refl)),
        rw staged (moved-is_dir row files s.dirs),
      ),
    )
  ]

  -- Reading the summary leaves the staging directory alone.
  collect-Reads :
      (meanwhile : Db → Db) (row : ExportRow)
      → Reads (λ (s : Exporter C). D.get row.id s.staging) (collect settings B loads meanwhile row)
  unfolding collect
  collect-Reads meanwhile row s =
      reads_bind (λ (t : Exporter C). D.get row.id t.staging) (read_summary settings B loads row.id)
        (λ summary. require_server settings B loads row.server >> pure summary) (λ t. refl)
        (λ summary.
          reads_bind (λ (t : Exporter C). D.get row.id t.staging)
            (require_server settings B loads row.server) (λ _. pure summary)
            (λ t.
              refuse_if-Reads (λ (u : Exporter C). D.get row.id u.staging)
                (not (present (get_server row.server t.world.db)))
                (cluster_error "the server was deleted") t)
            (λ _ t. refl))
        (record s { world = record s.world { db = meanwhile s.world.db } })

  collect-staged :
      (meanwhile : Db → Db) (row : ExportRow) (s : Exporter C) (summary : Json)
      → (collect settings B loads meanwhile row s).0 ≡ ok summary
      → (files : Dict String) × (D.get row.id s.staging ≡ some files)
  unfolding collect
  collect-staged meanwhile row s summary done = elim (Option-cases (D.get row.id s.staging)) [
    | inl none_there ↦ absurd (ground (arith, none_there, done))
    | inr there ↦ there
  ]

  from_collect :
      (row : ExportRow) (r : Result Json) (t : Exporter C)
      → ((summary : Json)
          → r ≡ ok summary
          → (files : Dict String) × (D.get row.id t.staging ≡ some files))
      → IsEnded row (end_run settings B loads row (carry_on r (publish settings B loads row) t))
  from_collect row (ok summary) t staged =
      let (files, there) = staged summary refl in publish-IsEnded row summary files t there
  from_collect row (err e) t staged = failed-IsEnded row (reason_of settings B loads e) t

  from_staged :
      (meanwhile : Db → Db) (row : ExportRow) (r : Result (Unit {0})) (t : Exporter C)
      → IsEnded row (
          end_run settings B loads row (
            let (r', t') = carry_on r (λ _. collect settings B loads meanwhile row) t in
            carry_on r' (publish settings B loads row) t'))
  from_staged meanwhile row (ok _) t =
      from_collect row (collect settings B loads meanwhile row t).0
        (collect settings B loads meanwhile row t).1
        (λ summary done.
          let (files, there) = collect-staged meanwhile row t summary done in
          (files, collect-Reads meanwhile row t ∙ there))
  from_staged meanwhile row (err e) t = failed-IsEnded row (reason_of settings B loads e) t

  -- The job ends, whatever the cluster and the pod do.
  run_queued-IsEnded :
      (meanwhile : Db → Db) (row : ExportRow) (s : Exporter C)
      → IsEnded row (run_queued settings B loads meanwhile row s)
  unfolding run_queued
  run_queued-IsEnded meanwhile row s =
      from_staged meanwhile row (run_staged settings B loads row s).0
        (run_staged settings B loads row s).1

  abbrev started : String → Exporter C → Exporter C
  started id s =
      (on_db (update_export id (set_status ExportStatus.running ∷ set_phase (some "starting") ∷ []))
        s).1

  run-queued :
      (meanwhile : Db → Db) (id : String) (row : ExportRow) (s : Exporter C)
      → get_export id s.world.db ≡ some row
      → is_queued row.status ≡ true
      → run settings B loads meanwhile id s
        ≡ run_queued settings B loads meanwhile row (started id s)
  unfolding run update_export
  run-queued meanwhile id row s found queued = rw (found, queued) refl

  -- The job of a queued export always ends, whatever the cluster, the pod and the other requests
  -- do: it raises nothing, leaves no staging directory, and every row of the export is `ready`
  -- with its directory in place or every one is `failed`.
  pub run_settles :
      (meanwhile : Db → Db) (id : String) (row : ExportRow) (s : Exporter C)
      → get_export id s.world.db ≡ some row
      → is_queued row.status ≡ true
      → IsEnded row (run settings B loads meanwhile id s)
  run_settles meanwhile id row s found queued =
      rw (run-queued meanwhile id row s found queued)
        (run_queued-IsEnded meanwhile row (started id s))
