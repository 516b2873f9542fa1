-- ===== src/Cluster/Exports.antt =====
-- The world exports of `FakeClusterBackend` (src/dsh_api/cluster.py).
use dsh_api.Prelude.{
  ℕ, ℤ, pos, negsuc, String, Bool, not, Option, none, some, List, [], ◌∷◌, ◌++◌, concat, length,
  present, ◌==◌, if◌then◌else◌,
}
use dsh_api.Prelude.Chars.{chars}
use dsh_api.Prelude.Decimal.{parse_int}
use dsh_api.Prelude.Dict.{Dict, has, get, pop}
use dsh_api.Prelude.Int.{le_int}
use dsh_api.Prelude.Json.{
  Json, boolean, integer, text, object, Fields, no_fields, field, lookup, set_field, update_fields,
}
use dsh_api.Prelude.Printing.{dumps}
use dsh_api.Action.{
  Act, Error, Result, ok, err, cluster_error, value_error, reads, refuse_if, ◌>>=◌, ◌>>◌,
}
use dsh_api.Cluster.Status.{namespace_for}
use dsh_api.Cluster.Backend.{ExportCall, ExportRun}
use dsh_api.Cluster.Memory.{Fake, op}

-- `_require_binding`
unfoldable pub require_binding : String → Act Fake (Unit {0})
unfolding namespace_for
require_binding name = do
  bound ← reads (λ s. s.bound)
  refuse_if (not (has (namespace_for name) bound))
      (cluster_error (concat ("forbidden: no access to namespace " ∷ namespace_for name ∷ [])))

-- The value behind an option, if there is one.
unfoldable pub arg_after : String → List String → Option String
arg_after flag [] = none
arg_after flag (a ∷ []) = none
arg_after flag (a ∷ b ∷ rest) =
    let later = arg_after flag (b ∷ rest) in if a == flag then some b else later

-- What stands behind the option.
unfoldable pub args_after : String → List String → List String
args_after flag [] = []
args_after flag (a ∷ rest) = let later = args_after flag rest in if a == flag then rest else later

abbrev least : ℤ → ℤ → ℤ
least a b = if le_int a b then a else b

abbrev greatest : ℤ → ℤ → ℤ
greatest a b = if le_int a b then b else a

abbrev not_a_number : String → Error
not_a_number s = value_error (concat ("invalid literal for int() with base 10: '" ∷ s ∷ "'" ∷ []))

abbrev box : (x1 z1 x2 z2 : ℤ) → Json
box x1 z1 x2 z2 = object (
    field "x1" (integer x1)
      (field "z1" (integer z1) (field "x2" (integer x2) (field "z2" (integer z2) no_fields))))

-- `int` of the four texts.
abbrev area_of : List String → Result Json
area_of (a ∷ b ∷ c ∷ d ∷ _) = elim (parse_int a) [
  | none ↦ err (not_a_number a)
  | some x1 ↦ elim (parse_int b) [
    | none ↦ err (not_a_number b)
    | some z1 ↦ elim (parse_int c) [
      | none ↦ err (not_a_number c)
      | some x2 ↦ elim (parse_int d) [
        | none ↦ err (not_a_number d)
        | some z2 ↦ ok (box (least x1 x2) (least z1 z2) (greatest x1 x2) (greatest z1 z2))
      ]
    ]
  ]
]
area_of _ = err (value_error "not enough values to unpack (expected 4)")

-- `"--area" in args`
abbrev custom : List String → Bool
custom args = has "--area" args

abbrev area_or_default : List String → Result Json
area_or_default args =
    if custom args
    then area_of (args_after "--area" args)
    else ok (box (negsuc 127) (negsuc 127) (pos 127) (pos 127))

abbrev snapshot_of : List String → String
snapshot_of args = elim (arg_after "--server-state" args) [
  | none ↦ "live_stable"
  | some state ↦ if state == "asleep" then "at_rest" else "live_stable"
]

-- The default summary.
abbrev summary_of : Json → List String → Fields
summary_of area args = field "version" (integer (pos 1)) (
    field "area" area (
      field "custom_area" (boolean (custom args)) (
        field "spawn" (object (field "x" (integer (pos 0)) (field "z" (integer (pos 0)) no_fields)))
          (field "snapshot" (text (snapshot_of args)) (
            field "stats"
              (object (
                field "blocks_scanned" (integer (pos 1000)) (
                  field "instances" (integer (pos 100))
                    (field "zip_bytes" (integer (pos 0)) no_fields))))
              no_fields)))))

-- `summary["stats"]["zip_bytes"] = n`; the tests give no `stats` but an object.
abbrev with_zip_bytes : ℕ → Fields → Fields
with_zip_bytes n summary = elim (lookup "stats" summary) [
  | some (object stats) ↦
      set_field "stats" (object (set_field "zip_bytes" (integer (pos n)) stats)) summary
  | _ ↦ summary
]

abbrev merged : Option Fields → Fields → Fields
merged none summary = summary
merged (some more) summary = update_fields summary more

abbrev zip_of : String → String
zip_of name = concat ("PK fake zip of " ∷ name ∷ [])

abbrev files_of : String → Fields → Dict String
files_of name summary =
    ("world.zip", zip_of name)
    ∷ ("preview/index.json", "{\"format\": \"usd-web-index\"}")
    ∷ ("preview/t.0.0.0123456789ab.uwt", "fake tile")
    ∷ ("summary.json", dumps (object (with_zip_bytes (length (chars (zip_of name))) summary)))
    ∷ []

abbrev unpacked_of : String → List String → Option Fields → Result (Dict String)
unpacked_of name args more = elim (area_or_default args) [
  | err e ↦ err e
  | ok area ↦ ok (files_of name (merged more (summary_of area args)))
]

abbrev export_guards : (name export_id : String) → Act Fake (Unit {0})
export_guards name export_id = do
  op "run_world_export" name []
  require_binding name
  release ← reads (λ s. get name s.releases)
  refuse_if (not (present release)) (cluster_error "the server has no world yet")

abbrev after_phases : String → ExportCall → Fake → Option String → ExportRun × Fake
after_phases name call s none = (
  record {
    phases = "copying" ∷ "exporting" ∷ "preview" ∷ "packaging" ∷ [];
    unpacked = unpacked_of name call.args (get name s.export_summaries);
  },
  s,
)
after_phases name call s (some failure) = (
  record { phases = "copying" ∷ "exporting" ∷ []; unpacked = err (cluster_error failure) },
  record s { export_failures = pop name s.export_failures },
)

abbrev guarded :
    (name export_id : String) → ExportCall → Result (Unit {0}) → Fake → ExportRun × Fake
guarded name export_id call (err e) s = (record { phases = []; unpacked = err e }, s)
guarded name export_id call (ok _) s =
    after_phases name call
      (record s { exports_run = s.exports_run ++ (name, export_id, call.args) ∷ [] })
      (get name s.export_failures)

-- The record of the operation is kept without the id, which is in `exports_run`.
unfoldable pub run_world_export : (name export_id : String) → ExportCall → Fake → ExportRun × Fake
unfolding require_binding get pop arg_after args_after parse_int dumps chars lookup set_field
    update_fields
run_world_export name export_id call s =
    let (r, s') = export_guards name export_id s in guarded name export_id call r s'

unfoldable pub delete_world_export_pods : String → Act Fake (Unit {0})
delete_world_export_pods name = op "delete_world_export_pods" name []
