-- ===== src/Export/Starting.antt =====
-- Which exports start (src/dsh_api/export_service.py).
use dsh_api.Prelude.{
  ℕ, ℤ, ◌-◌, ◌/◌, ◌≤◌, ◌<◌, none, Bool, ◌&&◌, ◌==◌, ltb, count_by, present, arith, String, ◌≡◌,
  refl, true, false, Option, some, List, [], ◌∷◌, ◌++◌, ◌⊎◌, inl, inr, any, find, find-append,
  eq_refl, leb, Bool-cases,
}
use dsh_api.Action.{Error, ok, err, other, raise, export_conflict, export_limit, ◌>>◌}
use dsh_api.Config.{Settings}
use dsh_api.Db.Rows.{is_active, ExportRow, Event, queued, micros, now_iso}
use dsh_api.Db.Events.{record_event}
use dsh_api.Db.Exports.{
  Area, has_id, queued_export, can_export, get_export, reserve_export, list_exports,
  count_exports_since,
}
use dsh_api.Cluster.Backend.{ClusterBackend}
use dsh_api.Export.Exporter.{Exporter, ExportView, view, day}
use dsh_api.Export.Requests.{retry_after, refuse_export, start_reserved, already_running}

new_row :
    (row : ExportRow) (rows : List ExportRow)
    → any (has_id row.id) rows ≡ false
    → find (has_id row.id) (rows ++ row ∷ []) ≡ some row
new_row row rows fresh = rw (find-append, fresh, eq_refl row.id) refl

abbrev corner : (Area → ℤ) → Option Area → Option ℤ
corner f none = none
corner f (some area) = some (f area)

-- The row of an export that waits for its turn.
abbrev pub new_export : (id server tenant : String) → Option Area → ℕ → ExportRow
new_export id server tenant area at = record {
  id = id;
  server = server;
  tenant_id = tenant;
  status = queued;
  phase = none;
  x1 = corner (λ a. a.x1) area;
  z1 = corner (λ a. a.z1) area;
  x2 = corner (λ a. a.x2) area;
  z2 = corner (λ a. a.z2) area;
  custom_area = present area;
  snapshot = none;
  stats = none;
  error = none;
  created_at = at;
  finished_at = none;
  expires_at = none;
}

-- The event of the request, which counts for the day.
abbrev pub requested : (id server tenant : String) → ℕ → Event
requested id server tenant at = record {
  at = at;
  tenant_id = tenant;
  server_name = some server;
  kind = "export.requested";
  detail = id;
}

-- The server has an export that is queued or running.
abbrev pub has_active : (server tenant : String) → List ExportRow → Bool
has_active server tenant rows =
    any (λ (e : ExportRow). e.server == server && e.tenant_id == tenant && is_active e.status) rows

-- The requests of a tenant after an instant.
abbrev pub requests_after : (tenant : String) → ℕ → List Event → ℕ
requests_after tenant since log =
    count_by
      (λ (e : Event). e.tenant_id == tenant && e.kind == "export.requested" && ltb since e.at) log

module _ {C : Type 0} (settings : Settings) (B : ClusterBackend C) where
  -- What a start leaves.
  abbrev pub started : (tenant name id : String) → Option Area → Exporter C → Exporter C
  started tenant name id area s = record s {
    world = record s.world {
      db = record s.world.db {
        exports = s.world.db.exports ++ new_export id name tenant area (s.world.now / micros) ∷ [];
        events = s.world.db.events ++ requested id name tenant (s.world.now / micros) ∷ [];
      };
    };
    runs = s.runs ++ id ∷ [];
  }

  abbrev pub since : Exporter C → ℕ
  since s = (s.world.now - day) / micros

  -- Why an export does not start: one is active, the day is full, or its id is taken.
  abbrev pub IsBlocked : (tenant name id : String) → Exporter C → Type 0
  IsBlocked tenant name id s =
      (has_active name tenant s.world.db.exports ≡ true)
      ⊎ (settings.export_daily_limit ≤ requests_after tenant (since s) s.world.db.events)
      ⊎ (any (λ (e : ExportRow). e.id == id) s.world.db.exports ≡ true)

  abbrev pub IsFree : (tenant name id : String) → Exporter C → Type 0
  IsFree tenant name id s =
      (has_active name tenant s.world.db.exports ≡ false)
      × (requests_after tenant (since s) s.world.db.events < settings.export_daily_limit)
      × (any (λ (e : ExportRow). e.id == id) s.world.db.exports ≡ false)

  -- Where the reservation was lost there is a reason.
  explained :
      (tenant name : String) (s : Exporter C)
      → (e : Error) × ((refuse_export settings B tenant name
              >> raise {S = Exporter C} {A = ExportView} (export_conflict already_running))
            s
          ≡ (err e, s))
  unfolding refuse_export
  explained tenant name s =
      elim (Bool-cases
        (any (λ (e : ExportRow). is_active e.status) (list_exports name tenant s.world.db))) [
          | inl active ↦ (export_conflict already_running, rw active refl)
          | inr idle ↦
              elim (Bool-cases (
                leb settings.export_daily_limit
                  (count_exports_since tenant day s.world.now s.world.db).0)) [
                    | inl full ↦ (
                      export_limit settings.export_daily_limit (
                          retry_after s.world.now
                            (count_exports_since tenant day s.world.now s.world.db).1),
                      rw (idle, full) refl,
                    )
                    | inr room ↦ (export_conflict already_running, rw (idle, room) refl)
                  ]
        ]

  not_free :
      (tenant name id : String) (s : Exporter C)
      → can_export name tenant settings.export_daily_limit day s.world.now s.world.db ≡ false
      → IsBlocked tenant name id s
  unfolding can_export now_iso
  not_free tenant name id s full = elim (Bool-cases (has_active name tenant s.world.db.exports)) [
    | inl active ↦ inl active
    | inr idle ↦ inr (inl (ground (arith, idle, full)))
  ]

  free :
      (tenant name : String) (s : Exporter C)
      → can_export name tenant settings.export_daily_limit day s.world.now s.world.db ≡ true
      → (has_active name tenant s.world.db.exports ≡ false)
        × (requests_after tenant (since s) s.world.db.events < settings.export_daily_limit)
  unfolding can_export now_iso
  free tenant name s room = (ground (arith, room), ground (arith, room))

  -- The reservation of an export raises and changes nothing, and an export of the tenant's server
  -- is queued or running, or the tenant has `export_daily_limit` requests in the log of the day,
  -- or the id is taken; or none of these holds, and there is one new queued row with its area,
  -- one event of the request and one job, nothing else changes, and the answer shows the row.
  pub start_reserved-outcome :
      (tenant name id : String) (area : Option Area) (s : Exporter C)
      → (((e : Error) × (start_reserved settings B tenant name id area s ≡ (err e, s)))
          × IsBlocked tenant name id s)
        ⊎ (IsFree tenant name id s
            × (start_reserved settings B tenant name id area s ≡ (
              ok (view (new_export id name tenant area (s.world.now / micros))),
              started tenant name id area s,
            )))
  unfolding start_reserved reserve_export get_export record_event now_iso
  start_reserved-outcome tenant name id area s =
      elim (Bool-cases
        (can_export name tenant settings.export_daily_limit day s.world.now s.world.db)) [
          | inr full ↦ rw full (inl (explained tenant name s, not_free tenant name id s full))
          | inl room ↦ elim (Bool-cases (any (has_id id) s.world.db.exports)) [
            | inl taken ↦ inl (
              (
                other "IntegrityError" "UNIQUE constraint failed: world_exports.id",
                rw (room, taken) refl,
              ),
              inr (inr taken),
            )
            | inr fresh ↦ inr (
              ((free tenant name s room).0, (free tenant name s room).1, fresh),
              rw
                  (
                    room,
                    fresh,
                    new_row (queued_export id name tenant area (now_iso s.world.now))
                        s.world.db.exports fresh,
                  )
                  refl,
            )
          ]
        ]
