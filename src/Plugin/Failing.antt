-- ===== src/Plugin/Failing.antt =====
-- What a failed change of a selection leaves (src/dsh_api/plugin_service.py).
use dsh_api.Prelude.{
  String, ◌≡◌, refl, ap, Bool, true, false, not, Option, none, some, List, [], ◌∷◌, ◌++◌, concat,
  arith,
}
use dsh_api.Prelude.Dict as D
use dsh_api.Prelude.Dict.{Dict, has}
use dsh_api.Action.{Act, pure, Result, Error, err, ◌>>=◌, ◌>>◌, refuse_if, plugin_not_selected}
use dsh_api.Action.Atomic.{Reads, IsAtomic, read_then, then_safe}
use dsh_api.Config.{Settings}
use dsh_api.Db.Rows.{Db, SelectedPlugin}
use dsh_api.Db.Plugins.{add_plugins, remove_plugin, selected_plugins}
use dsh_api.Cluster.Backend.{ClusterBackend}
use dsh_api.Catalog.{CatalogPlugin, PluginCatalog}
use dsh_api.Server.World.{World, call, write, log_event}
use dsh_api.Plugin.Closure.{slugs}
use dsh_api.Plugin.Reads.{rows_of, dependents}
use dsh_api.Plugin.Service.{
  write_selection, choose, resolved, save_new, join_comma, add_selected, remove_selected, others,
  refuse_required,
}

module _ {C : Type 0} (settings : Settings) (B : ClusterBackend C) (P : PluginCatalog C)
    (sha256 : String → String) where
  -- What `rows_of` leaves.
  abbrev pub seeded : String → World C → Db
  seeded name w = (rows_of settings B P name w).1.db

  resolved-frame :
      (r : Option (Result (List SelectedPlugin))) (w : World C)
      → (resolved settings B P sha256 r w).1 ≡ w
  resolved-frame none w = refl
  resolved-frame (some r) w = refl

  choose-frame :
      (catalog : Dict CatalogPlugin) (rows : List SelectedPlugin) (slug : String) (w : World C)
      → (choose settings B P sha256 catalog rows slug w).1 ≡ w
  unfolding choose
  choose-frame catalog rows slug w = go (D.get slug catalog) refl
    where
      go :
          (o : Option CatalogPlugin)
          → D.get slug catalog ≡ o
          → (choose settings B P sha256 catalog rows slug w).1 ≡ w
      go none same = rw (choose, same) refl
      go (some entry) same = rw (choose, same) (resolved-frame _ w)

  abbrev db_of : World C → Db
  db_of w = w.db

  write_selection-IsAtomic :
      (name : String) (rows : List SelectedPlugin)
      → IsAtomic db_of (write_selection settings B P sha256 name rows)
  unfolding write_selection
  write_selection-IsAtomic name rows w e failed = ground arith

  save_new-IsAtomic :
      (tenant name : String) (rows new : List SelectedPlugin)
      → IsAtomic db_of (save_new settings B P sha256 tenant name rows new)
  unfolding save_new
  save_new-IsAtomic tenant name rows [] = λ w e failed. refl
  save_new-IsAtomic tenant name rows (r ∷ rs) =
      let new = r ∷ rs in
      let written = write_selection settings B P sha256 name (rows ++ new) in
      let kept = λ (_ : Unit {0}).
        write {C = C} (add_plugins name new)
        >> log_event tenant name "plugins.add" (concat (join_comma (slugs new))) in
      then_safe db_of written kept (write_selection-IsAtomic name (rows ++ new)) (λ _ w. (tt, refl))

  -- What `add` does once it has the rows.
  abbrev save_chosen :
      (tenant name : String) (rows new : List SelectedPlugin) → Act (World C) (List SelectedPlugin)
  save_chosen tenant name rows new = save_new settings B P sha256 tenant name rows new >> pure new

  abbrev choose_rows :
      (tenant name slug : String) (rows : List SelectedPlugin)
      → Dict CatalogPlugin
      → Act (World C) (List SelectedPlugin)
  choose_rows tenant name slug rows catalog =
      choose settings B P sha256 catalog rows slug >>= save_chosen tenant name rows

  add_rows-IsAtomic :
      (tenant name slug : String) (rows : List SelectedPlugin)
      → IsAtomic db_of (call P.plugins >>= choose_rows tenant name slug rows)
  add_rows-IsAtomic tenant name slug rows =
      read_then db_of (call P.plugins) (choose_rows tenant name slug rows) (λ w. refl)
        (λ catalog.
          read_then db_of (choose settings B P sha256 catalog rows slug)
            (save_chosen tenant name rows) (λ w. ap db_of (choose-frame catalog rows slug w))
            (λ new.
              then_safe db_of (save_new settings B P sha256 tenant name rows new) (λ _. pure new)
                (save_new-IsAtomic tenant name rows new) (λ _ w. (new, refl))))

  -- An add that fails under the lock, at the catalog, at an unknown plugin or at the ConfigMap,
  -- leaves the database as reading the rows left it.
  pub failed_add_keeps :
      (tenant name slug : String) (w : World C) (e : Error)
      → (add_selected settings B P sha256 tenant name slug w).0 ≡ err e
      → (add_selected settings B P sha256 tenant name slug w).1.db ≡ seeded name w
  unfolding add_selected rows_of
  failed_add_keeps tenant name slug w e failed =
      add_rows-IsAtomic tenant name slug (selected_plugins name (seeded name w))
        (rows_of settings B P name w).1 e failed

  refuse_required-Reads :
      (slug : String) (ds : List String) → Reads db_of (refuse_required settings B P sha256 slug ds)
  refuse_required-Reads slug [] w = refl
  refuse_required-Reads slug (d ∷ ds) w = refl

  refuse_if-Reads : (b : Bool) (e : Error) → Reads db_of (refuse_if b e)
  refuse_if-Reads true e w = refl
  refuse_if-Reads false e w = refl

  -- What `remove` does once it has the rows, in three steps.
  abbrev drop_row :
      (tenant name slug : String) (rows : List SelectedPlugin) (_ : Unit {0})
      → Act (World C) (List SelectedPlugin)
  drop_row tenant name slug rows _ =
      write (λ _. remove_plugin name slug)
      >> (log_event tenant name "plugins.remove" slug
          >> pure (others settings B P sha256 slug rows))

  abbrev write_rest :
      (tenant name slug : String) (rows : List SelectedPlugin) (_ : Unit {0})
      → Act (World C) (List SelectedPlugin)
  write_rest tenant name slug rows _ =
      write_selection settings B P sha256 name (others settings B P sha256 slug rows)
      >>= drop_row tenant name slug rows

  abbrev check_required :
      (tenant name slug : String) (rows : List SelectedPlugin) (_ : Unit {0})
      → Act (World C) (List SelectedPlugin)
  check_required tenant name slug rows _ =
      refuse_required settings B P sha256 slug (dependents slug rows)
      >>= write_rest tenant name slug rows

  abbrev remove_row :
      (tenant name slug : String) (rows : List SelectedPlugin) → Act (World C) (List SelectedPlugin)
  remove_row tenant name slug rows =
      refuse_if (not (has slug (slugs rows))) (plugin_not_selected slug)
      >>= check_required tenant name slug rows

  remove_row-IsAtomic :
      (tenant name slug : String) (rows : List SelectedPlugin)
      → IsAtomic db_of (remove_row tenant name slug rows)
  remove_row-IsAtomic tenant name slug rows =
      let remaining = others settings B P sha256 slug rows in
      let absent = refuse_if (not (has slug (slugs rows))) (plugin_not_selected slug) in
      let required = refuse_required settings B P sha256 slug (dependents slug rows) in
      read_then db_of absent (check_required tenant name slug rows)
        (refuse_if-Reads (not (has slug (slugs rows))) (plugin_not_selected slug))
        (λ _.
          read_then db_of required (write_rest tenant name slug rows)
            (refuse_required-Reads slug (dependents slug rows))
            (λ _.
              then_safe db_of (write_selection settings B P sha256 name remaining)
                (drop_row tenant name slug rows) (write_selection-IsAtomic name remaining)
                (λ _ w. (remaining, refl))))

  -- A remove that fails under the lock, because the plugin is not selected, because another one
  -- requires it, or at the ConfigMap, leaves the database as reading the rows left it.
  pub failed_remove_keeps :
      (tenant name slug : String) (w : World C) (e : Error)
      → (remove_selected settings B P sha256 tenant name slug w).0 ≡ err e
      → (remove_selected settings B P sha256 tenant name slug w).1.db ≡ seeded name w
  unfolding remove_selected rows_of
  failed_remove_keeps tenant name slug w e failed =
      remove_row-IsAtomic tenant name slug (selected_plugins name (seeded name w))
        (rows_of settings B P name w).1 e failed
