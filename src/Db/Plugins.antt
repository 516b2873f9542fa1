-- ===== src/Db/Plugins.antt =====
-- The plugin selections of `Database` (src/dsh_api/db.py).
use dsh_api.Prelude.{
  ℕ, String, Bool, true, false, ◌&&◌, not, Option, none, some, List, [], ◌∷◌, ◌++◌, any, find, keep,
  update_where, sort_by, ◌==◌, if◌then◌else◌,
}
use dsh_api.Db.Rows.{Db, PluginRow, PluginState, SelectedPlugin, now_iso, stamp_le}

unfoldable pub plugin_state : String → Db → Option PluginState
plugin_state server db = find (λ s. s.server == server) db.plugin_states

-- `row.added_at or now_iso()`
abbrev pub stamp_or : Option ℕ → ℕ → ℕ
stamp_or none now = now
stamp_or (some at) now = at

abbrev pub is_plugin : String → String → PluginRow → Bool
is_plugin server slug p = p.server == server && p.plugin.slug == slug

-- INSERT OR IGNORE: `(server, slug)` is the primary key.
unfoldable pub insert_plugin : String → ℕ → List PluginRow → SelectedPlugin → List PluginRow
insert_plugin server now table row =
    if any (is_plugin server row.slug) table
    then table
    else table
      ++ record {
        server = server;
        plugin = record row { added_at = some (stamp_or row.added_at now) };
      }
        ∷ []

unfoldable pub insert_plugins : String → ℕ → List PluginRow → List SelectedPlugin → List PluginRow
unfolding insert_plugin
insert_plugins server now table [] = table
insert_plugins server now table (row ∷ rows) =
    insert_plugins server now (insert_plugin server now table row) rows

-- `true` when the server gets its first selection.
unfoldable pub seed_plugins : String → List SelectedPlugin → ℕ → Db → Bool × Db
unfolding insert_plugins now_iso
seed_plugins server rows now db =
    if any (λ s. s.server == server) db.plugin_states then (false, db) else (
      true,
      record db {
        plugin_states =
            db.plugin_states
            ++ record {
              server = server;
              seeded_at = now_iso now;
              written_sha256 = none;
              applied_sha256 = none;
            }
              ∷ [];
        plugins = insert_plugins server (now_iso now) db.plugins rows;
      },
    )

abbrev pub added_le : SelectedPlugin → SelectedPlugin → Bool
added_le a b = stamp_le (stamp_or a.added_at 0) a.slug (stamp_or b.added_at 0) b.slug

-- The plugins of one server, in the order of the table.
abbrev pub plugins_of : String → List PluginRow → List SelectedPlugin
plugins_of server [] = []
plugins_of server (p ∷ ps) =
    if p.server == server then p.plugin ∷ plugins_of server ps else plugins_of server ps

unfoldable pub selected_plugins : String → Db → List SelectedPlugin
selected_plugins server db = sort_by added_le (plugins_of server db.plugins)

unfoldable pub add_plugins : String → List SelectedPlugin → ℕ → Db → Db
unfolding insert_plugins now_iso
add_plugins server rows now db = record db {
  plugins = insert_plugins server (now_iso now) db.plugins rows;
}

unfoldable pub remove_plugin : String → String → Db → Db
remove_plugin server slug db = record db {
  plugins = keep (λ p. not (is_plugin server slug p)) db.plugins;
}

abbrev set_written : String → Option String → List PluginState → List PluginState
set_written server none states = states
set_written server (some hash) states =
    update_where (λ s. s.server == server) (λ s. record s { written_sha256 = some hash }) states

abbrev set_applied : String → Option String → List PluginState → List PluginState
set_applied server none states = states
set_applied server (some hash) states =
    update_where (λ s. s.server == server) (λ s. record s { applied_sha256 = some hash }) states

unfoldable pub set_plugin_hashes : String → Option String → Option String → Db → Db
set_plugin_hashes server written applied db = record db {
  plugin_states = set_applied server applied (set_written server written db.plugin_states);
}
