-- ===== src/Export/Sweep.antt =====
-- The housekeeping of `ExportService` (src/dsh_api/export_service.py).
use dsh_api.Prelude.{
  ℕ, suc, ◌-◌, String, Bool, true, ◌&&◌, ◌||◌, not, Option, none, some, List, [], ◌∷◌, any, keep,
  sort_by, str_le, leb, ◌==◌, if◌then◌else◌,
}
use dsh_api.Prelude.Dict.{add}
use dsh_api.Action.{Act, Error, cluster_error, ok, pure, raise, attempt, ◌>>=◌, ◌>>◌}
use dsh_api.Config.{Settings}
use dsh_api.Db.Rows.{Db, ServerRow, ExportRow, is_active}
use dsh_api.Db.Servers.{get_server}
use dsh_api.Db.Exports.{exports_with_status, all_exports, delete_exports_of}
use dsh_api.Cluster.Backend.{ClusterBackend}
use dsh_api.Server.World.{query, call}
use dsh_api.Export.Exporter.{
  Exporter, ExportDir, is_dir, is_expired, on_world, on_disk, failed, remove, sweep_every,
}

abbrev is_other : String → Option ServerRow → Bool
is_other tenant none = true
is_other tenant (some server) = not (server.tenant_id == tenant)

-- Its server is gone, or is another tenant's now.
unfoldable pub is_orphaned : Db → ExportRow → Bool
unfolding get_server
is_orphaned db row = is_other row.tenant_id (get_server row.server db)

-- What a sweep removes.
abbrev pub is_swept : ℕ → Db → ExportRow → Bool
is_swept now db row = not (is_active row.status) && (is_expired now row || is_orphaned db row)

abbrev pub names_dir : ExportDir → (String × String) → Bool
names_dir d (server, id) = is_dir server id d

abbrev pub is_due : ℕ → Option ℕ → Bool
is_due now none = true
is_due now (some last) = leb sweep_every (now - last)

module _ {C : Type 0} where
  -- The loop over the rows: how many were removed, and the directories that the others know.
  unfoldable pub sweep_rows :
      List ExportRow → ℕ → List (String × String) → Act (Exporter C) (ℕ × List (String × String))
  unfolding is_orphaned remove
  sweep_rows [] removed known s = (ok (removed, known), s)
  sweep_rows (row ∷ rows) removed known s =
      let swept = (do remove row.server row.id; sweep_rows rows (suc removed) known) s in
      let kept = sweep_rows rows removed ((row.server, row.id) ∷ known) s in
      if is_swept s.world.now s.world.db row then swept else kept

  -- `sweep`: what no row knows is removed with the directories of the servers that are left empty.
  unfoldable pub sweep : Act (Exporter C) ℕ
  unfolding sweep_rows all_exports
  sweep = do
    rows ← on_world (query all_exports)
    (removed, known) ← sweep_rows rows 0 []
    on_disk (keep (λ d. any (names_dir d) known))
    pure removed

  unfoldable pub sweep_if_due : Act (Exporter C) (Unit {0})
  unfolding sweep
  sweep_if_due s =
      let (r, s') = sweep (record s { last_sweep = some s.world.now }) in
      if is_due s.world.now s.last_sweep then (ok tt, s') else (ok tt, s)

  -- `forget_server`
  unfoldable pub forget_server : String → Act (Exporter C) (Unit {0})
  unfolding delete_exports_of
  forget_server name s =
      let (ids, db) = delete_exports_of name s.world.db in
      (
        ok tt,
        record s {
          world = record s.world { db = db };
          dirs = keep (λ (d : ExportDir). not (d.server == name)) s.dirs;
        },
      )

  module _ (settings : Settings) (B : ClusterBackend C) where
    -- The rows are marked failed; the servers that they are of, each once.
    unfoldable pub fail_active : List ExportRow → List String → Act (Exporter C) (List String)
    unfolding failed
    fail_active [] servers = pure servers
    fail_active (row ∷ rows) servers = do
      failed settings B row "interrupted; please start it again"
      fail_active rows (add row.server servers)

    -- Only a ClusterError is caught.
    abbrev pub pods_failed : Act (Exporter C) (Unit {0}) → Error → Act (Exporter C) (Unit {0})
    pods_failed others (cluster_error message) = others
    pods_failed others e = raise e

    unfoldable pub delete_pods : List String → Act (Exporter C) (Unit {0})
    delete_pods [] = pure tt
    delete_pods (name ∷ names) =
        attempt (on_world (call (B.delete_world_export_pods name))) (λ _. delete_pods names)
          (pods_failed (delete_pods names))

    -- `recover_interrupted`
    unfoldable pub recover_interrupted : Act (Exporter C) (Unit {0})
    unfolding fail_active delete_pods exports_with_status
    recover_interrupted = do
      rows ← on_world (query (exports_with_status is_active))
      servers ← fail_active rows []
      delete_pods (sort_by str_le servers)
      λ s. (ok tt, record s { staging = [] })
