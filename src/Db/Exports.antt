-- ===== src/Db/Exports.antt =====
-- The world exports of `Database` (src/dsh_api/db.py).
use dsh_api.Prelude.{
  ℕ, ℤ, ◌-◌, String, Bool, ◌&&◌, not, Option, none, some, List, [], ◌∷◌, ◌++◌, reverse, any, find,
  keep, count_by, update_where, sort_by, ltb, leb, ◌==◌, present, if◌then◌else◌,
}
use dsh_api.Action.{Act, ok, err, other, value_error}
use dsh_api.Db.Rows.{Db, Event, ExportRow, ExportStatus, queued, is_active, now_iso}
use dsh_api.Db.Events.{record_event}

-- A box of blocks: `(x1, z1, x2, z2)`.
pub record Area : Type 0 where
  pub x1 : ℤ
  pub z1 : ℤ
  pub x2 : ℤ
  pub z2 : ℤ

abbrev side : (Area → ℤ) → Option Area → Option ℤ
side f none = none
side f (some area) = some (f area)

abbrev pub has_id : String → ExportRow → Bool
has_id id e = e.id == id

-- The row that is inserted.
abbrev pub queued_export : (id server tenant : String) → Option Area → ℕ → ExportRow
queued_export id server tenant area at = record {
  id = id;
  server = server;
  tenant_id = tenant;
  status = queued;
  phase = none;
  x1 = side (λ a. a.x1) area;
  z1 = side (λ a. a.z1) area;
  x2 = side (λ a. a.x2) area;
  z2 = side (λ a. a.z2) area;
  custom_area = present area;
  snapshot = none;
  stats = none;
  error = none;
  created_at = at;
  finished_at = none;
  expires_at = none;
}

unfoldable pub get_export : String → Db → Option ExportRow
get_export id db = find (has_id id) db.exports

-- `server = ? AND tenant_id = ? AND status IN ('queued', 'running')`
abbrev pub is_active_of : String → String → ExportRow → Bool
is_active_of server tenant e = e.server == server && e.tenant_id == tenant && is_active e.status

-- `tenant_id = ? AND kind = ? AND at > ?`
abbrev pub is_start : String → ℕ → Event → Bool
is_start tenant since e = e.tenant_id == tenant && e.kind == "export.requested" && ltb since e.at

abbrev pub starts_since : String → (window now : ℕ) → Db → ℕ
starts_since tenant window now db = count_by (is_start tenant (now_iso (now - window))) db.events

-- The two WHERE conditions.
unfoldable pub can_export : (server tenant : String) (daily_limit window now : ℕ) → Db → Bool
unfolding now_iso
can_export server tenant daily_limit window now db =
    not (any (is_active_of server tenant) db.exports)
    && ltb (starts_since tenant window now db) daily_limit

-- The row and the event that counts it.
abbrev pub export_queued : (id server tenant : String) → Option Area → ℕ → Db → Db
export_queued id server tenant area now db =
    record_event tenant (some server) "export.requested" id now
      record db { exports = db.exports ++ queued_export id server tenant area (now_iso now) ∷ [] }

-- A second row of the same id breaks the primary key, and the transaction with it.
unfoldable pub reserve_export :
    (id server tenant : String) (area : Option Area) (daily_limit window now : ℕ)
    → Act Db (Option ExportRow)
unfolding can_export get_export now_iso record_event
reserve_export id server tenant area daily_limit window now db =
    if not (can_export server tenant daily_limit window now db)
    then (ok none, db)
    else if any (has_id id) db.exports
    then (err (other "IntegrityError" "UNIQUE constraint failed: world_exports.id"), db)
    else (
      ok (get_export id (export_queued id server tenant area now db)),
      export_queued id server tenant area now db,
    )

-- The row that `insert_export` returns is the one that it inserted.
unfoldable pub insert_export :
    (id server tenant : String) (area : Option Area) (now : ℕ) → Act Db (Option ExportRow)
unfolding get_export now_iso
insert_export id server tenant area now db =
    let after = record db {
      exports = db.exports ++ queued_export id server tenant area (now_iso now) ∷ [];
    } in
    if any (has_id id) db.exports
    then (err (other "IntegrityError" "UNIQUE constraint failed: world_exports.id"), db)
    else (ok (get_export id after), after)

abbrev later_first : ExportRow → ExportRow → Bool
later_first a b = leb b.created_at a.created_at

-- Newest first.
unfoldable pub list_exports : (server tenant : String) → Db → List ExportRow
list_exports server tenant db =
    sort_by later_first
      (reverse (keep (λ (e : ExportRow). e.server == server && e.tenant_id == tenant) db.exports))

unfoldable pub exports_with_status : (ExportStatus → Bool) → Db → List ExportRow
exports_with_status among db = keep (λ (e : ExportRow). among e.status) db.exports

-- MIN(at), NULL where there is no row.
unfoldable pub oldest : List Event → Option ℕ
oldest [] = none
oldest (e ∷ es) = elim (oldest es) [
  | none ↦ some e.at
  | some at ↦ some (if leb e.at at then e.at else at)
]

unfoldable pub count_exports_since : String → (window now : ℕ) → Db → ℕ × Option ℕ
unfolding oldest now_iso
count_exports_since tenant window now db = (
  starts_since tenant window now db,
  oldest (keep (is_start tenant (now_iso (now - window))) db.events),
)

-- One field of `update_export`, one constructor for each name that it allows.
pub data ExportField : Type 0 where
  set_status : ExportStatus → ExportField
  set_phase set_snapshot set_stats set_error : Option String → ExportField
  set_x1 set_z1 set_x2 set_z2 : Option ℤ → ExportField
  set_finished_at set_expires_at : Option ℕ → ExportField

abbrev pub set_field : ExportField → ExportRow → ExportRow
set_field (set_status v) e = record e { status = v }
set_field (set_phase v) e = record e { phase = v }
set_field (set_snapshot v) e = record e { snapshot = v }
set_field (set_stats v) e = record e { stats = v }
set_field (set_error v) e = record e { error = v }
set_field (set_x1 v) e = record e { x1 = v }
set_field (set_z1 v) e = record e { z1 = v }
set_field (set_x2 v) e = record e { x2 = v }
set_field (set_z2 v) e = record e { z2 = v }
set_field (set_finished_at v) e = record e { finished_at = v }
set_field (set_expires_at v) e = record e { expires_at = v }

abbrev pub set_fields : List ExportField → ExportRow → ExportRow
set_fields [] e = e
set_fields (f ∷ fs) e = set_fields fs (set_field f e)

-- No field is a ValueError.
unfoldable pub update_export : String → List ExportField → Act Db (Unit {0})
update_export id [] db = (err (value_error "cannot update []"), db)
update_export id (f ∷ fs) db =
    (ok tt, record db { exports = update_where (has_id id) (set_fields (f ∷ fs)) db.exports })

unfoldable pub delete_export : String → Db → Db
delete_export id db = record db { exports = keep (λ e. not (has_id id e)) db.exports }

abbrev export_ids : List ExportRow → List String
export_ids [] = []
export_ids (e ∷ es) = e.id ∷ export_ids es

-- The ids of the rows that it deletes.
unfoldable pub delete_exports_of : String → Db → List String × Db
delete_exports_of server db = (
  export_ids (keep (λ (e : ExportRow). e.server == server) db.exports),
  record db { exports = keep (λ (e : ExportRow). not (e.server == server)) db.exports },
)

unfoldable pub all_exports : Db → List ExportRow
all_exports db = db.exports
