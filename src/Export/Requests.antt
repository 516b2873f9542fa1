-- ===== src/Export/Requests.antt =====
-- The requests of `ExportService` (src/dsh_api/export_service.py).
use Prim.Native.Char.{Char}
use dsh_api.Prelude.{
  ℕ, ℤ, ◌+◌, ◌-◌, ◌*◌, ◌/◌, String, Bool, true, false, ◌||◌, not, Option, none, some, List, [], ◌∷◌,
  ◌++◌, any, find, keep, map, concat, leb, if◌then◌else◌,
}
use dsh_api.Prelude.Dict as D
use dsh_api.Action.{
  Act, Result, ok, err, export_conflict, export_limit, export_not_found, pure, raise, settle,
  refuse_if, ◌>>=◌, ◌>>◌,
}
use dsh_api.Config.{Settings}
use dsh_api.Db.Rows.{Db, ExportRow, ExportStatus, status_text, is_ready, is_active, micros}
use dsh_api.Db.Exports.{Area, list_exports, count_exports_since, reserve_export}
use dsh_api.Cluster.Status.{State, failed}
use dsh_api.Cluster.Backend.{ClusterBackend}
use dsh_api.Server.World.{write, call}
use dsh_api.Server.Reads.{owned, state_of}
use dsh_api.Export.Area.{validate_area}
use dsh_api.Export.Exporter.{
  Exporter, ExportDir, ExportView, view, is_dir, is_expired, is_preview_name, on_world, on_db,
  require_enabled, owned_export, remove, day,
}
use dsh_api.Export.Sweep.{sweep_if_due}

abbrev pub already_running : String
already_running = "an export of this server is already running"

abbrev pub is_done : ExportStatus → Bool
is_done ExportStatus.ready = true
is_done _ = false

abbrev pub is_failing : State → Bool
is_failing failed = true
is_failing _ = false

-- The seconds until the oldest start of the day no longer counts, 1 at least: `int` cuts towards 0.
abbrev pub retry_after : ℕ → Option ℕ → ℕ
retry_after now none = day / micros
retry_after now (some at) =
    let left = (at * micros + day - now) / micros in if leb 1 left then left else 1

module _ {C : Type 0} (settings : Settings) (B : ClusterBackend C) where
  -- `_refuse_export`
  unfoldable pub refuse_export : (tenant name : String) → Act (Exporter C) (Unit {0})
  unfolding list_exports count_exports_since
  refuse_export tenant name s =
      let (count, oldest) = count_exports_since tenant day s.world.now s.world.db in
      if any (λ (e : ExportRow). is_active e.status) (list_exports name tenant s.world.db)
      then (err (export_conflict already_running), s)
      else if leb settings.export_daily_limit count
      then (err (export_limit settings.export_daily_limit (retry_after s.world.now oldest)), s)
      else (ok tt, s)

  -- `list`
  unfoldable pub list : (tenant name : String) → Act (Exporter C) (List ExportView)
  unfolding sweep_if_due list_exports
  list tenant name = do
    require_enabled settings B
    on_world (owned settings B tenant name)
    sweep_if_due
    λ s. (
      ok (
          map view
            (keep (λ e. not (is_expired s.world.now e)) (list_exports name tenant s.world.db))),
      s,
    )

  -- `get`
  unfoldable pub get : (tenant name id : String) → Act (Exporter C) ExportView
  unfolding owned_export
  get tenant name id = do
    require_enabled settings B
    row ← owned_export settings B tenant name id
    pure (view row)

  -- The path is below the directory of the exports.
  abbrev pub path_in : (server id file : String) → String
  path_in server id file = concat (server ∷ "/" ∷ id ∷ "/" ∷ file ∷ [])

  -- `path.is_file()`
  abbrev pub has_file : (server id file : String) → List ExportDir → Bool
  has_file server id file dirs = elim (find (is_dir server id) dirs) [
    | none ↦ false
    | some d ↦ elim (D.get file d.files) [ none ↦ false | some _ ↦ true ]
  ]

  -- `preview_file`
  unfoldable pub preview_file :
      (is_decimal : Char → Bool) (tenant name id file : String) → Act (Exporter C) String
  unfolding owned_export is_preview_name D.get
  preview_file is_decimal tenant name id file = do
    require_enabled settings B
    row ← owned_export settings B tenant name id
    refuse_if (not (is_done row.status) || not (is_preview_name is_decimal file))
        (export_not_found id)
    λ s.
        if has_file name id (concat ("preview/" ∷ file ∷ [])) s.dirs
        then (ok (path_in name id (concat ("preview/" ∷ file ∷ []))), s)
        else (err (export_not_found id), s)

  -- `delete`
  unfoldable pub delete : (tenant name id : String) → Act (Exporter C) (Unit {0})
  unfolding owned_export remove
  delete tenant name id = do
    require_enabled settings B
    row ← owned_export settings B tenant name id
    refuse_if (is_active row.status) (export_conflict "the export is still running")
    remove row.server row.id

  abbrev checked_area : Option (ℤ × ℤ × ℤ × ℤ) → Result (Option Area)
  checked_area none = ok none
  checked_area (some (x1, z1, x2, z2)) = elim (validate_area settings.export_max_size x1 z1 x2 z2) [
    | err e ↦ err e
    | ok area ↦ ok (some area)
  ]

  abbrev submit_run : String → Act (Exporter C) (Unit {0})
  submit_run id s = (ok tt, record s { runs = s.runs ++ id ∷ [] })

  abbrev after_reserve : (tenant name : String) → Option ExportRow → Act (Exporter C) ExportView
  after_reserve tenant name none = do
    refuse_export tenant name
    raise (export_conflict already_running)
  after_reserve tenant name (some row) = do submit_run row.id; pure (view row)

  -- What is asked before the reservation.
  unfoldable pub create_checks :
      (tenant name : String) → Option (ℤ × ℤ × ℤ × ℤ) → Act (Exporter C) (Option Area)
  unfolding sweep_if_due validate_area refuse_export status_text
  create_checks tenant name corners = do
    require_enabled settings B
    row ← on_world (owned settings B tenant name)
    sweep_if_due
    area ← settle (checked_area corners)
    refuse_if (not (is_ready row.status)) (
        export_conflict
          (concat ("the server is " ∷ status_text row.status ∷ "; try again once it is up" ∷ [])))
    state ← on_world (state_of settings B name)
    refuse_if (is_failing state)
        (export_conflict "the server is failing; it cannot be exported until it is fixed")
    refuse_export tenant name
    pure area

  -- The reservation, and the job.
  unfoldable pub start_reserved :
      (tenant name id : String) → Option Area → Act (Exporter C) ExportView
  unfolding reserve_export refuse_export
  start_reserved tenant name id area s =
      (do
        row ← on_db (reserve_export id name tenant area settings.export_daily_limit day s.world.now)
        after_reserve tenant name row)
        s

  -- `token_hex` makes the id. `meanwhile` is what other requests and jobs do to the database before
  -- the reservation.
  unfoldable pub create :
      (token_hex : Act C String) (meanwhile : Db → Db) (tenant name : String)
      → Option (ℤ × ℤ × ℤ × ℤ)
      → Act (Exporter C) ExportView
  unfolding create_checks start_reserved
  create token_hex meanwhile tenant name corners = do
    area ← create_checks tenant name corners
    on_world (write (λ _. meanwhile))
    id ← on_world (call token_hex)
    start_reserved tenant name id area
