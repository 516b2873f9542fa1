-- ===== src/Export/Owned.antt =====
-- An export is reached by the owner of its server only (src/dsh_api/export_service.py).
use Prim.Native.Char.{Char}
use dsh_api.Prelude.{
  String, ◌≡◌, refl, Bool, true, false, ◌||◌, not, Option, none, some, [], ◌∷◌, ◌⊎◌, inl, inr,
  concat, ◌==◌, eq_iff, arith, Bool-cases, if◌then◌else◌,
}
use dsh_api.Action.{
  Act, Error, ok, err, server_not_found, export_not_found, export_disabled, export_conflict,
}
use dsh_api.Config.{Settings}
use dsh_api.Db.Rows.{ServerRow, ExportRow, is_active}
use dsh_api.Db.Servers.{get_server}
use dsh_api.Db.Exports.{get_export, delete_export}
use dsh_api.Cluster.Backend.{ClusterBackend}
use dsh_api.Server.Reads.{owned, owned_by}
use dsh_api.Export.Exporter.{
  Exporter, is_expired, is_export_id, is_preview_name, owned_export, owned_row, remove, without_dir,
}
use dsh_api.Export.Requests.{delete, preview_file, is_done, has_file, path_in}

module _ {C : Type 0} where
  -- An export of the tenant's server that has not expired.
  pub record IsOwned (tenant name id : String) (s : Exporter C) (row : ExportRow) : Type 0 where
    pub in_table : get_export id s.world.db ≡ some row
    pub of_server : row.server ≡ name
    pub of_tenant : row.tenant_id ≡ tenant
    pub kept : is_expired s.world.now row ≡ false

from_lookup :
    (test : Bool) (found : Option ExportRow) (row : ExportRow)
    → (if test then found else none) ≡ some row
    → found ≡ some row
from_lookup test found row h = ground arith

module _ {C : Type 0} (settings : Settings) (B : ClusterBackend C) where
  abbrev Refused : {A : Type 0} → Act (Exporter C) A → Exporter C → Type 0
  Refused m s = (e : Error) × (m s ≡ (err e, s))

  owned_row-cases :
      (tenant name id : String) (found : Option ExportRow) (s : Exporter C)
      → ((row : ExportRow) → found ≡ some row → get_export id s.world.db ≡ some row)
      → Refused (owned_row settings B tenant name id found) s
        ⊎ ((row : ExportRow) × (owned_row settings B tenant name id found s ≡ (ok row, s))
            × IsOwned tenant name id s row)
  owned_row-cases tenant name id none s table = inl (_, refl)
  owned_row-cases tenant name id (some row) s table =
      elim (Bool-cases (not (row.server == name) || not (row.tenant_id == tenant))) [
        | inl foreign ↦ inl (export_not_found id, rw foreign refl)
        | inr own ↦ elim (Bool-cases (is_expired s.world.now row)) [
          | inl late ↦ inl (export_not_found id, rw (own, late) refl)
          | inr fresh ↦ inr (
            row,
            rw (own, fresh) refl,
            record {
              in_table = table row refl;
              of_server = ground (arith, eq_iff row.server name);
              of_tenant = ground (arith, eq_iff row.tenant_id tenant);
              kept = fresh;
            },
          )
        ]
      ]

  owned_by-cases :
      (tenant name : String) (server : Option ServerRow) (s : Exporter C)
      → ((row : ServerRow) × (owned_by settings B tenant name server s.world ≡ (ok row, s.world)))
        ⊎ (owned_by settings B tenant name server s.world ≡ (err (server_not_found name), s.world))
  owned_by-cases tenant name none s = inr refl
  owned_by-cases tenant name (some row) s = elim (Bool-cases (row.tenant_id == tenant)) [
    | inl own ↦ inl (row, rw own refl)
    | inr foreign ↦ inr (rw foreign refl)
  ]

  -- The lookup finds the tenant's own export, or raises; it changes nothing.
  owned_export-cases :
      (tenant name id : String) (s : Exporter C)
      → Refused (owned_export settings B tenant name id) s
        ⊎ ((row : ExportRow) × (owned_export settings B tenant name id s ≡ (ok row, s))
            × IsOwned tenant name id s row)
  unfolding owned_export owned
  owned_export-cases tenant name id s =
      elim (owned_by-cases tenant name (get_server name s.world.db) s) [
        | inr foreign ↦ inl (server_not_found name, rw foreign refl)
        | inl (server, own) ↦ rw own (
            owned_row-cases tenant name id
              (if is_export_id id then get_export id s.world.db else none) s
              (λ row found. from_lookup (is_export_id id) (get_export id s.world.db) row found))
      ]

  -- What a delete of the tenant's own export leaves.
  abbrev pub removed : ExportRow → Exporter C → Exporter C
  removed row s = record s {
    world = record s.world { db = delete_export row.id s.world.db };
    dirs = without_dir row.server row.id s.dirs;
  }

  -- A delete of an export raises and changes nothing, or it was of an export of the tenant's own
  -- server that has not expired and is not active, and drops its row and its directory and
  -- nothing else.
  pub delete_own :
      (tenant name id : String) (s : Exporter C)
      → ((e : Error) × (delete settings B tenant name id s ≡ (err e, s)))
        ⊎ ((row : ExportRow) × (delete settings B tenant name id s ≡ (ok tt, removed row s))
            × IsOwned tenant name id s row
            × (is_active row.status ≡ false))
  unfolding delete remove owned
  delete_own tenant name id s = elim (Bool-cases settings.world_export) [
    | inr off ↦ inl (export_disabled, rw off refl)
    | inl on ↦ elim (owned_export-cases tenant name id s) [
      | inl (e, refused) ↦ inl (e, rw (on, refused) refl)
      | inr (row, found, own) ↦ elim (Bool-cases (is_active row.status)) [
        | inl active ↦
            inl (export_conflict "the export is still running", rw (on, found, active) refl)
        | inr idle ↦ inr (row, rw (on, found, idle) refl, own, idle)
      ]
    ]
  ]

  -- A preview file is served of an export of the tenant's own server that is ready, has not
  -- expired and has the file, under a name that the pattern of preview files lets through; every
  -- other request raises, and none changes anything.
  pub preview_file_own :
      (is_decimal : Char → Bool) (tenant name id file : String) (s : Exporter C)
      → ((e : Error) × (preview_file settings B is_decimal tenant name id file s ≡ (err e, s)))
        ⊎ ((row : ExportRow) × (preview_file settings B is_decimal tenant name id file s
              ≡ (ok (path_in settings B name id (concat ("preview/" ∷ file ∷ []))), s))
            × IsOwned tenant name id s row
            × (is_done row.status ≡ true)
            × (is_preview_name is_decimal file ≡ true)
            × (has_file settings B name id (concat ("preview/" ∷ file ∷ [])) s.dirs ≡ true))
  unfolding preview_file owned
  preview_file_own is_decimal tenant name id file s = elim (Bool-cases settings.world_export) [
    | inr off ↦ inl (export_disabled, rw off refl)
    | inl on ↦ elim (owned_export-cases tenant name id s) [
      | inl (e, refused) ↦ inl (e, rw (on, refused) refl)
      | inr (row, found, own) ↦
          elim (Bool-cases (not (is_done row.status) || not (is_preview_name is_decimal file))) [
            | inl bad ↦ inl (export_not_found id, rw (on, found, bad) refl)
            | inr good ↦
                elim (Bool-cases
                  (has_file settings B name id (concat ("preview/" ∷ file ∷ [])) s.dirs)) [
                    | inr missing ↦ inl (export_not_found id, rw (on, found, good, missing) refl)
                    | inl there ↦ inr (
                      row,
                      rw (on, found, good, there) refl,
                      own,
                      ground arith,
                      ground arith,
                      there,
                    )
                  ]
          ]
    ]
  ]
