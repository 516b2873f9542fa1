-- ===== src/Export/Summary.antt =====
-- What `ExportService._run` (src/dsh_api/export_service.py) passes to the pod, and what it reads of
-- the summary that comes back.
use dsh_api.Prelude.{
  ℕ, ℤ, pos, ◌+◌, ◌*◌, String, Bool, true, false, Option, none, some, List, [], ◌∷◌, ◌++◌, concat,
  if◌then◌else◌,
}
use dsh_api.Prelude.Decimal.{decimal}
use dsh_api.Prelude.Json.{
  Json, null, boolean, integer, real, text, object, Fields, no_fields, field, lookup, truthy,
}
use dsh_api.Prelude.Printing.{dumps, show_int}
use dsh_api.Action.{Error, Result, other, ok, err}
use dsh_api.Config.{Settings}
use dsh_api.Db.Rows.{ExportRow, ExportStatus}
use dsh_api.Db.Exports.{
  ExportField, set_status, set_phase, set_snapshot, set_stats, set_x1, set_z1, set_x2, set_z2,
  set_finished_at, set_expires_at,
}
use dsh_api.Cluster.Status.{State, awake, waking, stopped}

abbrev no_get : String → Error
no_get kind = other "AttributeError" (concat ("'" ∷ kind ∷ "' object has no attribute 'get'" ∷ []))

-- `value.get(k)`
unfoldable pub get_in : String → Json → Result (Option Json)
unfolding lookup
get_in k (object fs) = ok (lookup k fs)
get_in k _ = err (no_get "value")

-- `value or {}`
unfoldable pub or_empty : Option Json → Json
unfolding truthy
or_empty none = object no_fields
or_empty (some j) = if truthy j then j else object no_fields

-- `dict(value)`, of an object; of a list of pairs, which no exporter writes, it is an error here.
abbrev as_dict : Json → Result Fields
as_dict (object fs) = ok fs
as_dict _ = err (other "TypeError" "cannot convert dictionary update sequence")

abbrev unsupported : Error
unsupported = other "ProgrammingError" "type is not supported"

-- What an INTEGER column takes. A text or a fraction in the place of a coordinate, which SQLite
-- stores as it is, is an error here.
unfoldable pub int_column : Option Json → Result (Option ℤ)
int_column none = ok none
int_column (some null) = ok none
int_column (some (integer n)) = ok (some n)
int_column (some (boolean true)) = ok (some (pos 1))
int_column (some (boolean false)) = ok (some (pos 0))
int_column (some _) = err unsupported

-- What a TEXT column takes.
unfoldable pub text_column : Option Json → Result (Option String)
unfolding show_int
text_column none = ok none
text_column (some null) = ok none
text_column (some (text s)) = ok (some s)
text_column (some (integer n)) = ok (some (show_int n))
text_column (some (boolean true)) = ok (some "1")
text_column (some (boolean false)) = ok (some "0")
text_column (some (real r _)) = ok (some r)
text_column (some _) = err unsupported

module _ {A B : Type 0} where
  infixl 5 ◌then◌
  abbrev ◌then◌ : Result A → (A → Result B) → Result B
  (ok a) then f = f a
  (err e) then f = err e

abbrev or_null : Option Json → Json
or_null none = null
or_null (some j) = j

-- `{k: stats.get(k) for k in …}`, as the column holds it.
unfoldable pub stats_text : Fields → String
unfolding dumps lookup
stats_text stats = dumps (
    object (
      field "blocks_scanned" (or_null (lookup "blocks_scanned" stats)) (
        field "instances" (or_null (lookup "instances" stats)) (
          field "zip_bytes" (or_null (lookup "zip_bytes" stats))
            (field "preview_bytes" (or_null (lookup "preview_bytes" stats)) no_fields)))))

-- What a row takes of `summary.json`.
pub record Columns : Type 0 where
  pub x1 : Option ℤ
  pub z1 : Option ℤ
  pub x2 : Option ℤ
  pub z2 : Option ℤ
  pub snapshot : Option String
  pub stats : String

unfoldable pub read_columns : Json → Result Columns
unfolding get_in or_empty int_column text_column stats_text
read_columns summary = (get_in "area" summary) then λ area. (get_in "stats" summary) then λ stats.
    (as_dict (or_empty stats)) then λ counts. (get_in "x1" (or_empty area)) then λ a.
    (get_in "z1" (or_empty area)) then λ b. (get_in "x2" (or_empty area)) then λ c.
    (get_in "z2" (or_empty area)) then λ d. (get_in "snapshot" summary) then λ kind.
    (int_column a) then λ x1. (int_column b) then λ z1. (int_column c) then λ x2.
    (int_column d) then λ z2. (text_column kind) then λ snapshot.
    ok record { x1 = x1; z1 = z1; x2 = x2; z2 = z2; snapshot = snapshot; stats = stats_text counts }

-- The fields of a row whose export is ready.
abbrev pub ready_fields : (retention finished : ℕ) → Columns → List ExportField
ready_fields retention finished columns =
    set_status ExportStatus.ready
    ∷ set_phase none
    ∷ set_x1 columns.x1
    ∷ set_z1 columns.z1
    ∷ set_x2 columns.x2
    ∷ set_z2 columns.z2
    ∷ set_snapshot columns.snapshot
    ∷ set_stats (some columns.stats)
    ∷ set_finished_at (some finished)
    ∷ set_expires_at (some (finished + retention * 3600))
    ∷ []

-- `state in ("awake", "waking", "stopped")`
abbrev has_pod : State → Bool
has_pod awake = true
has_pod waking = true
has_pod stopped = true
has_pod _ = false

-- `str` of a column.
abbrev side_text : Option ℤ → String
side_text none = "None"
side_text (some n) = show_int n

unfoldable pub export_args : Settings → State → ExportRow → List String
unfolding decimal show_int
export_args settings state row =
    ("--server-state"
      ∷ (if has_pod state then "awake" else "asleep")
      ∷ "--default-size"
      ∷ decimal settings.export_default_size
      ∷ "--max-size"
      ∷ decimal settings.export_max_size
      ∷ "--title"
      ∷ row.server
      ∷ [])
    ++ (if row.custom_area
        then "--area"
          ∷ side_text row.x1
          ∷ side_text row.z1
          ∷ side_text row.x2
          ∷ side_text row.z2
          ∷ []
        else [])

abbrev pub is_queued : ExportStatus → Bool
is_queued ExportStatus.queued = true
is_queued _ = false
