-- ===== src/Db/Rows.antt =====
-- The tables of src/dsh_api/db.py. A table is the list of its rows in the order of insertion.
-- A stamp is a number of whole seconds (`now_iso` writes seconds, and its texts compare as the
-- seconds do), and an instant of the clock a number of microseconds.
use dsh_api.Prelude.{
  ℕ, ℤ, ◌/◌, String, Bool, true, false, Option, none, some, List, ◌||◌, str_le, ltb, eqb, ◌==◌,
}
use dsh_api.Prelude.{◌&&◌}

abbrev pub micros : ℕ
micros = 1000000

-- `now_iso`
unfoldable pub now_iso : ℕ → ℕ
now_iso at = at / micros

-- ROW_STATUSES
pub data RowStatus : Type 0 where
  provisioning ready failed deleting : RowStatus

-- The text that the column holds.
unfoldable pub status_text : RowStatus → String
status_text provisioning = "provisioning"
status_text ready = "ready"
status_text failed = "failed"
status_text deleting = "deleting"

abbrev pub is_provisioning : RowStatus → Bool
is_provisioning provisioning = true
is_provisioning _ = false

abbrev pub is_ready : RowStatus → Bool
is_ready ready = true
is_ready _ = false

abbrev pub is_failed : RowStatus → Bool
is_failed failed = true
is_failed _ = false

abbrev pub is_deleting : RowStatus → Bool
is_deleting deleting = true
is_deleting _ = false

-- `status = ?`
abbrev pub same_status : RowStatus → RowStatus → Bool
same_status provisioning s = is_provisioning s
same_status ready s = is_ready s
same_status failed s = is_failed s
same_status deleting s = is_deleting s

pub record ServerRow : Type 0 where
  pub name : String
  pub tenant_id : String
  pub hostname : String
  pub motd : String
  pub operator_username : Option String
  pub created_at : ℕ
  pub last_woken_at : Option ℕ
  pub status : RowStatus

pub record SelectedPlugin : Type 0 where
  pub slug : String
  pub tag : String
  pub filename : String
  pub url : String
  pub requires : List String
  pub added_by : String
  pub added_at : Option ℕ

-- A row of `server_plugins`.
pub record PluginRow : Type 0 where
  pub server : String
  pub plugin : SelectedPlugin

pub record PluginState : Type 0 where
  pub server : String
  pub seeded_at : ℕ
  pub written_sha256 : Option String
  pub applied_sha256 : Option String

pub record Event : Type 0 where
  pub at : ℕ
  pub tenant_id : String
  pub server_name : Option String
  pub kind : String
  pub detail : String

pub record FeedbackRow : Type 0 where
  pub id : ℕ
  pub username : String
  pub message : String
  pub page : Option String
  pub created_at : ℕ
  pub status : String

pub record Tenant : Type 0 where
  pub id : String
  pub created_at : ℕ

-- The statuses of a world export.
pub data ExportStatus : Type 0 where
  queued running ready failed : ExportStatus

-- `queued` or `running`: ACTIVE of export_service.py.
abbrev pub is_active : ExportStatus → Bool
is_active queued = true
is_active running = true
is_active ready = false
is_active failed = false

-- `stats` is the JSON text of the column.
pub record ExportRow : Type 0 where
  pub id : String
  pub server : String
  pub tenant_id : String
  pub status : ExportStatus
  pub phase : Option String
  pub x1 : Option ℤ
  pub z1 : Option ℤ
  pub x2 : Option ℤ
  pub z2 : Option ℤ
  pub custom_area : Bool
  pub snapshot : Option String
  pub stats : Option String
  pub error : Option String
  pub created_at : ℕ
  pub finished_at : Option ℕ
  pub expires_at : Option ℕ

pub record Db : Type 0 where
  pub tenants : List Tenant
  pub servers : List ServerRow
  pub events : List Event
  pub feedback : List FeedbackRow
  pub feedback_seq : ℕ
  pub plugins : List PluginRow
  pub plugin_states : List PluginState
  pub exports : List ExportRow

-- `created_at, name` and `added_at, slug`: by the stamp, then by the text.
abbrev pub stamp_le : ℕ → String → ℕ → String → Bool
stamp_le a s b t = ltb a b || eqb a b && str_le s t

abbrev pub opt_is : String → Option String → Bool
opt_is s none = false
opt_is s (some t) = t == s

abbrev pub is_row : String → ServerRow → Bool
is_row name r = r.name == name

abbrev pub is_tenants : String → ServerRow → Bool
is_tenants tenant r = r.tenant_id == tenant
