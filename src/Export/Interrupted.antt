-- ===== src/Export/Interrupted.antt =====
-- The exports after a restart (src/dsh_api/export_service.py).
use dsh_api.Prelude.{
  String, ◌≡◌, refl, Bool, true, false, ◌&&◌, not, List, [], ◌∷◌, any, keep, update_where, sort_by,
  str_le, eq_refl, arith, inl, inr, Bool-cases,
}
use dsh_api.Prelude.Dict.{add}
use dsh_api.Action.{Act, Result, ok, err, cluster_error, attempted, ◌>>◌}
use dsh_api.Action.Atomic.{Reads, reads_bind, after_bind}
use dsh_api.Config.{Settings}
use dsh_api.Db.Rows.{ExportRow, is_active}
use dsh_api.Db.Events.{record_event}
use dsh_api.Db.Exports.{has_id, set_fields, update_export, exports_with_status}
use dsh_api.Cluster.Backend.{ClusterBackend}
use dsh_api.Export.Exporter.{Exporter, failed, failed_fields, cut}
use dsh_api.Export.Sweep.{fail_active, delete_pods, pods_failed, recover_interrupted}

-- Active, and none of the rows.
abbrev is_left : List ExportRow → ExportRow → Bool
is_left rows e = is_active e.status && not (any (λ r. has_id r.id e) rows)

module _ {C : Type 0} (settings : Settings) (B : ClusterBackend C) where
  left_after :
      (r : ExportRow) (rows es : List ExportRow) (s : Exporter C) (reason : String)
      → any (is_left (r ∷ rows)) es ≡ false
      → any
          (is_left rows)
          (update_where (has_id r.id) (set_fields (failed_fields settings B reason s.world.now)) es)
        ≡ false
  left_after r rows [] s reason h = refl
  left_after r rows (e ∷ es) s reason h = ground (arith, left_after r rows es s reason)

  fail_active-left :
      (rows : List ExportRow) (servers : List String) (s : Exporter C)
      → any (is_left rows) s.world.db.exports ≡ false
      → any (is_left []) (fail_active settings B rows servers s).1.world.db.exports ≡ false
  unfolding fail_active failed update_export record_event
  fail_active-left [] servers s h = h
  fail_active-left (r ∷ rows) servers s h =
      fail_active-left rows (add r.server servers) _
        (left_after r rows s.world.db.exports s (cut 300 "interrupted; please start it again") h)

  -- Removing the pods leaves the rows.
  delete_pods-exports :
      (names : List String) (s : Exporter C)
      → (delete_pods settings B names s).1.world.db.exports ≡ s.world.db.exports
  unfolding delete_pods
  delete_pods-exports [] s = refl
  delete_pods-exports (name ∷ names) s =
      go (B.delete_world_export_pods name s.world.outside).0 _ (delete_pods-exports names)
    where
      go :
          (r : Result (Unit {0})) (t : Exporter C)
          → ((u : Exporter C)
              → (delete_pods settings B names u).1.world.db.exports ≡ u.world.db.exports)
          → (attempted r
              (λ _. delete_pods settings B names)
              (pods_failed settings B (delete_pods settings B names))
              t).1.world.db.exports
            ≡ t.world.db.exports
      go (ok _) t again = again t
      go (err (cluster_error message)) t again = again t
      go (err e) t again = refl

abbrev active_rows : List ExportRow → List ExportRow
active_rows = keep (λ e. is_active e.status)

has_row : List ExportRow → ExportRow → Bool
has_row rows x = any (λ r. has_id r.id x) rows

more_rows :
    (e x : ExportRow) (es : List ExportRow)
    → has_row (active_rows es) x ≡ true
    → has_row (active_rows (e ∷ es)) x ≡ true
unfolding has_row
more_rows e x es h = ground arith

its_row :
    (e : ExportRow) (es : List ExportRow)
    → is_active e.status ≡ true
    → has_row (active_rows (e ∷ es)) e ≡ true
unfolding has_row
its_row e es active = ground (arith, eq_refl e.id)

all_listed :
    (es rows : List ExportRow)
    → ((x : ExportRow) → has_row (active_rows es) x ≡ true → has_row rows x ≡ true)
    → any (is_left rows) es ≡ false
unfolding has_row
all_listed [] rows listed = refl
all_listed (e ∷ es) rows listed =
    let others = all_listed es rows (λ x h. listed x (more_rows e x es h)) in
    elim (Bool-cases (is_active e.status)) [
      | inl active ↦ rw (active, listed e (its_row e es active)) others
      | inr idle ↦ rw idle others
    ]

nothing_left : (es : List ExportRow) → any (is_left []) es ≡ any (λ e. is_active e.status) es
nothing_left [] = refl
nothing_left (e ∷ es) = ground (arith, nothing_left es)

module _ {C : Type 0} (settings : Settings) (B : ClusterBackend C) where
  abbrev rows_after : Exporter C → List ExportRow
  rows_after s = s.world.db.exports

  abbrev clean_up : List String → Act (Exporter C) (Unit {0})
  clean_up servers =
      delete_pods settings B (sort_by str_le servers) >> λ s. (ok tt, record s { staging = [] })

  clean_up-Reads : (servers : List String) → Reads rows_after (clean_up servers)
  clean_up-Reads servers =
      reads_bind rows_after (delete_pods settings B (sort_by str_le servers))
        (λ _ s. (ok tt, record s { staging = [] }))
        (delete_pods-exports settings B (sort_by str_le servers)) (λ _ s. refl)

  -- After a restart no export is queued or running, whatever the cluster answers.
  pub recover_interrupted_ends :
      (s : Exporter C)
      → any (λ e. is_active e.status) (recover_interrupted settings B s).1.world.db.exports ≡ false
  unfolding recover_interrupted exports_with_status
  recover_interrupted_ends s =
      let rows : List ExportRow = active_rows s.world.db.exports in
      rw
        (
          after_bind rows_after (fail_active settings B rows []) clean_up clean_up-Reads s,
          ← nothing_left (fail_active settings B rows [] s).1.world.db.exports,
        )
        (fail_active-left settings B rows [] s (all_listed s.world.db.exports rows (λ x h. h)))
