-- ===== src/Db/Writes.antt =====
-- The transactions of `Database` (src/dsh_api/db.py), and every sequence of them.
use dsh_api.Prelude.{ℕ, String, ◌≡◌, false, Option, List}
use dsh_api.Db.Rows.{Db, RowStatus, SelectedPlugin, is_provisioning}
use dsh_api.Db.Servers.{
  ensure_tenant, reserve_server, set_status, begin_delete, mark_woken, delete_server,
}
use dsh_api.Db.Exports.{
  Area, ExportField, reserve_export, update_export, delete_export, delete_exports_of,
}
use dsh_api.Db.Events.{record_event}
use dsh_api.Db.Plugins.{seed_plugins, add_plugins, remove_plugin, set_plugin_hashes}
use dsh_api.Db.Feedback.{reserve_feedback, set_feedback_status}

-- One transaction of any thread. `set_status` is called with every status but `provisioning`.
pub data Write (max_servers : ℕ) : Db → Db → Type 0 where
  ensured : (id : String) (now : ℕ) (db : Db) → Write max_servers db (ensure_tenant id now db)
  reserved :
      (name tenant hostname motd : String) (operator : Option String) (now : ℕ) (db : Db)
      → Write max_servers db
          (reserve_server name tenant hostname motd operator max_servers now db).1
  moved :
      (name : String) (status : RowStatus) (db : Db)
      → is_provisioning status ≡ false
      → Write max_servers db (set_status name status db)
  began_delete :
      (name : String) (current : RowStatus) (db : Db)
      → Write max_servers db (begin_delete name current db).1
  woken : (name : String) (now : ℕ) (db : Db) → Write max_servers db (mark_woken name now db)
  deleted : (name : String) (db : Db) → Write max_servers db (delete_server name db)
  recorded :
      (tenant : String) (server : Option String) (kind detail : String) (now : ℕ) (db : Db)
      → Write max_servers db (record_event tenant server kind detail now db)
  seeded :
      (server : String) (rows : List SelectedPlugin) (now : ℕ) (db : Db)
      → Write max_servers db (seed_plugins server rows now db).1
  added :
      (server : String) (rows : List SelectedPlugin) (now : ℕ) (db : Db)
      → Write max_servers db (add_plugins server rows now db)
  removed : (server slug : String) (db : Db) → Write max_servers db (remove_plugin server slug db)
  hashed :
      (server : String) (written applied : Option String) (db : Db)
      → Write max_servers db (set_plugin_hashes server written applied db)
  left_feedback :
      (username message : String) (page : Option String) (limit window now : ℕ) (db : Db)
      → Write max_servers db (reserve_feedback username message page limit window now db).1
  triaged :
      (id : ℕ) (status : String) (db : Db)
      → Write max_servers db (set_feedback_status id status db).1
  export_reserved :
      (id server tenant : String) (area : Option Area) (daily_limit window now : ℕ) (db : Db)
      → Write max_servers db (reserve_export id server tenant area daily_limit window now db).1
  export_updated :
      (id : String) (fields : List ExportField) (db : Db)
      → Write max_servers db (update_export id fields db).1
  export_deleted : (id : String) (db : Db) → Write max_servers db (delete_export id db)
  exports_dropped :
      (server : String) (db : Db) → Write max_servers db (delete_exports_of server db).1

pub data Writes (max_servers : ℕ) (start : Db) : Db → Type 0 where
  here : Writes max_servers start start
  next :
      {a b : Db} → Writes max_servers start a → Write max_servers a b → Writes max_servers start b
