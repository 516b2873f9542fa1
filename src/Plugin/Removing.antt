-- ===== src/Plugin/Removing.antt =====
-- What a `remove` that succeeds leaves (src/dsh_api/plugin_service.py).
use dsh_api.Prelude.{String, ◌≡◌, List, arith}
use dsh_api.Config.{Settings}
use dsh_api.Db.Rows.{SelectedPlugin}
use dsh_api.Db.Plugins.{set_plugin_hashes, selected_plugins}
use dsh_api.Cluster.Backend.{ClusterBackend}
use dsh_api.Catalog.{PluginCatalog}
use dsh_api.Server.World.{World}
use dsh_api.Plugin.Reads.{rows_of}
use dsh_api.Plugin.Service.{write_selection}

module _ {C : Type 0} (settings : Settings) (B : ClusterBackend C) (P : PluginCatalog C)
    (sha256 : String → String) where
  -- The rows that the service reads.
  abbrev pub rows_in : String → World C → List SelectedPlugin
  rows_in name w = selected_plugins name (rows_of settings B P name w).1.db

  write_selection-table :
      (name : String) (rows : List SelectedPlugin) (w : World C)
      → (write_selection settings B P sha256 name rows w).1.db.plugins ≡ w.db.plugins
  unfolding write_selection set_plugin_hashes
  write_selection-table name rows w = ground arith
