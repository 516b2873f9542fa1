-- ===== src/Plugin/Resolve.antt =====
-- The queue of `PluginService.add` (src/dsh_api/plugin_service.py): a plugin and whatever it
-- requires that is not selected yet.
use dsh_api.Prelude.{
  ℕ, zero, suc, ◌+◌, String, true, false, Option, none, some, List, [], ◌∷◌, ◌++◌, length,
  if◌then◌else◌,
}
use dsh_api.Prelude.Dict.{Dict, get, has}
use dsh_api.Action.{Result, ok, err, unknown_plugin}
use dsh_api.Db.Rows.{SelectedPlugin}
use dsh_api.Catalog.{CatalogPlugin}

-- `_selected_from`
unfoldable pub selected_from : CatalogPlugin → String → SelectedPlugin
selected_from entry added_by = record {
  slug = entry.slug;
  tag = entry.tag;
  filename = entry.filename;
  url = entry.url;
  requires = entry.requires;
  added_by = added_by;
  added_at = none;
}

-- `(dep, "dependency") for dep in entry.requires`
abbrev pub dependencies : List String → List (String × String)
dependencies [] = []
dependencies (dep ∷ deps) = (dep, "dependency") ∷ dependencies deps

-- The `while queue` loop; `none` means that the fuel ran out.
unfoldable pub resolve :
    (fuel : ℕ) (catalog : Dict CatalogPlugin) (queue : List (String × String))
    (selected : List String) (new : List SelectedPlugin)
    → Option (Result (List SelectedPlugin))
resolve zero catalog queue selected new = none
resolve (suc fuel) catalog [] selected new = some (ok new)
resolve (suc fuel) catalog ((current, added_by) ∷ queue) selected new =
    elim (has current selected) [
      | true ↦ resolve fuel catalog queue selected new
      | false ↦ elim (get current catalog) [
        | none ↦ some (err (unknown_plugin current))
        | some entry ↦
            resolve fuel catalog (queue ++ dependencies entry.requires) (current ∷ selected)
              (new ++ selected_from entry added_by ∷ [])
      ]
    ]

-- How many names the entries that are not selected may still put on the queue.
unfoldable pub pending_names : Dict CatalogPlugin → List String → ℕ
pending_names [] selected = 0
pending_names ((slug, entry) ∷ catalog) selected =
    (if has slug selected then 0 else length entry.requires) + pending_names catalog selected

-- The fuel for a queue of one name.
unfoldable pub enough : Dict CatalogPlugin → ℕ
unfolding pending_names
enough catalog = suc (suc (pending_names catalog []))
