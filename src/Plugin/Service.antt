-- ===== src/Plugin/Service.antt =====
-- The changes of `PluginService` (src/dsh_api/plugin_service.py).
use dsh_api.Prelude.{
  ℕ, String, Bool, true, ◌&&◌, ◌||◌, not, Option, none, some, List, [], ◌∷◌, ◌++◌, any, keep,
  sort_by, str_le, ltb, concat, ◌==◌, if◌then◌else◌,
}
use dsh_api.Prelude.Dict as D
use dsh_api.Prelude.Dict.{Dict, has}
use dsh_api.Prelude.Decimal.{decimal}
use dsh_api.Action.{
  Act, Result, pure, raise, settle, refuse_if, unknown_plugin, plugin_not_selected, plugin_required,
  server_busy, players_online, other, ◌>>=◌, ◌>>◌,
}
use dsh_api.Config.{Settings}
use dsh_api.Db.Rows as Rows
use dsh_api.Db.Rows.{Db, RowStatus, SelectedPlugin, status_text}
use dsh_api.Db.Plugins.{add_plugins, remove_plugin, set_plugin_hashes}
use dsh_api.Cluster.Status.{State, is_awake, is_stopped, is_asleep, state_text}
use dsh_api.Cluster.Backend.{ClusterBackend}
use dsh_api.Selection.{selection_json}
use dsh_api.Catalog.{CatalogPlugin, PluginCatalog}
use dsh_api.Server.World.{World, write, call, log_event}
use dsh_api.Server.Reads.{owned, get}
use dsh_api.Plugin.Resolve.{resolve, enough}
use dsh_api.Plugin.Closure.{slugs}
use dsh_api.Plugin.Reads.{PluginsView, dependents, require_enabled, rows_of, view}

-- `",".join(names)`
abbrev pub join_comma : List String → List String
join_comma [] = []
join_comma (n ∷ []) = n ∷ []
join_comma (n ∷ m ∷ ns) = n ∷ "," ∷ join_comma (m ∷ ns)

-- `{"provisioning": "being created"}.get(row.status, row.status)`
abbrev busy_word : RowStatus → String
busy_word Rows.provisioning = "being created"
busy_word status = status_text status

abbrev pub ready_as : {C : Type 0} → RowStatus → Act (World C) (Unit {0})
ready_as Rows.ready = pure tt
ready_as status = raise (server_busy (busy_word status))

-- The slugs that only a removed plugin needed.
abbrev slugs_unused : List SelectedPlugin → List SelectedPlugin → List String
slugs_unused rows [] = []
slugs_unused rows (r ∷ rs) =
    if r.added_by == "dependency" && not (any (λ o. has r.slug o.requires) rows)
    then r.slug ∷ slugs_unused rows rs
    else slugs_unused rows rs

unfoldable pub unused : List SelectedPlugin → List String
unused rows = sort_by str_le (slugs_unused rows rows)

pub data Applies : Type 0 where
  next_start restarting : Applies

-- `sha256` is the hash of hashlib, as text.
module _ {C : Type 0} (settings : Settings) (B : ClusterBackend C) (P : PluginCatalog C)
    (sha256 : String → String) where
  -- `_ready`
  unfoldable pub ready : String → String → Act (World C) (Unit {0})
  ready tenant name = do row ← owned settings B tenant name; ready_as row.status

  -- `_changing`: `acquired` says whether the lock came before the wait was over, and `meanwhile`
  -- is what others do to the database during the wait.
  unfoldable pub changing :
      {A : Type 0}
      → (acquired : Bool) (meanwhile : Db → Db) (tenant name : String) → Act (World C) A
      → Act (World C) A
  changing acquired meanwhile tenant name body = do
    ready tenant name
    write (λ _. meanwhile)
    refuse_if (not acquired) (server_busy "changing its plugins")
    ready tenant name
    body

  -- `_write`
  unfoldable pub write_selection : String → List SelectedPlugin → Act (World C) (Unit {0})
  write_selection name rows = do
    call (B.write_plugin_selection name (selection_json rows))
    write (λ _. set_plugin_hashes name (some (sha256 (selection_json rows))) none)

  -- The loop's result; the fuel is always enough.
  abbrev pub resolved : Option (Result (List SelectedPlugin)) → Act (World C) (List SelectedPlugin)
  resolved none = raise (other "RuntimeError" "the queue does not end")
  resolved (some r) = settle r

  -- The loop of `add`.
  unfoldable pub choose :
      Dict CatalogPlugin → List SelectedPlugin → String → Act (World C) (List SelectedPlugin)
  choose catalog rows slug = elim (D.get slug catalog) [
    | none ↦ raise (unknown_plugin slug)
    | some _ ↦ resolved (resolve (enough catalog) catalog ((slug, "tenant") ∷ []) (slugs rows) [])
  ]

  -- `if new:`
  unfoldable pub save_new :
      (tenant name : String) (rows new : List SelectedPlugin) → Act (World C) (Unit {0})
  save_new tenant name rows [] = pure tt
  save_new tenant name rows (r ∷ rs) = do
    write_selection name (rows ++ r ∷ rs)
    write (add_plugins name (r ∷ rs))
    log_event tenant name "plugins.add" (concat (join_comma (slugs (r ∷ rs))))

  -- What `add` does under the lock.
  unfoldable pub add_selected : (tenant name slug : String) → Act (World C) (List SelectedPlugin)
  add_selected tenant name slug = do
    rows ← rows_of settings B P name
    catalog ← call P.plugins
    new ← choose catalog rows slug
    save_new tenant name rows new
    pure new

  -- `add`: the new slugs and the view.
  unfoldable pub add :
      (acquired : Bool) (meanwhile : Db → Db) (tenant name slug : String)
      → Act (World C) (List String × PluginsView)
  add acquired meanwhile tenant name slug = do
    require_enabled settings B P
    new ← changing acquired meanwhile tenant name (add_selected tenant name slug)
    seen ← view settings B P tenant name
    pure (slugs new, seen)

  abbrev pub refuse_required : String → List String → Act (World C) (Unit {0})
  refuse_required slug [] = pure tt
  refuse_required slug (d ∷ ds) = raise (plugin_required slug (d ∷ ds))

  abbrev pub others : String → List SelectedPlugin → List SelectedPlugin
  others slug rows = keep (λ r. not (r.slug == slug)) rows

  -- What `remove` does under the lock: the rows that remain.
  unfoldable pub remove_selected : (tenant name slug : String) → Act (World C) (List SelectedPlugin)
  remove_selected tenant name slug = do
    rows ← rows_of settings B P name
    refuse_if (not (has slug (slugs rows))) (plugin_not_selected slug)
    refuse_required slug (dependents slug rows)
    write_selection name (others slug rows)
    write (λ _. remove_plugin name slug)
    log_event tenant name "plugins.remove" slug
    pure (others slug rows)

  -- `remove`: the unused dependencies and the view.
  unfoldable pub remove :
      (acquired : Bool) (meanwhile : Db → Db) (tenant name slug : String)
      → Act (World C) (List String × PluginsView)
  remove acquired meanwhile tenant name slug = do
    require_enabled settings B P
    remaining ← changing acquired meanwhile tenant name (remove_selected tenant name slug)
    seen ← view settings B P tenant name
    pure (unused remaining, seen)

  abbrev pub count_or_zero : Option ℕ → ℕ
  count_or_zero none = 0
  count_or_zero (some n) = n

  -- `(self.cluster.players_online(name) or 0) if state == "awake" else 0`
  abbrev pub online_in : State → String → Act (World C) ℕ
  online_in state name =
      if is_awake state
      then (do online ← call (B.players_online name); pure (count_or_zero online))
      else pure 0

  abbrev restart_warning : String
  restart_warning = "say This server is restarting in a moment to change its plugins."

  abbrev pub warn_players : String → ℕ → Act (World C) Bool
  warn_players name online =
      if ltb 0 online then call (B.send_command name restart_warning) else pure true

  -- From the state of the server on.
  unfoldable pub restart_for :
      (tenant name : String) (confirm_players : Bool) (state : State) → Act (World C) Applies
  restart_for tenant name confirm_players state = do
    online ← online_in state name
    refuse_if (ltb 0 online && not confirm_players) (players_online online)
    warn_players name online
    call (B.restart_wrapper_pod name)
    log_event tenant name "plugins.apply" (concat ("players=" ∷ decimal online ∷ []))
    pure restarting

  -- `apply`
  unfoldable pub apply : (tenant name : String) (confirm_players : Bool) → Act (World C) Applies
  apply tenant name confirm_players = do
    require_enabled settings B P
    ready tenant name
    server ← get settings B tenant name
    if is_asleep server.state
        then pure next_start
        else if is_awake server.state || is_stopped server.state
        then restart_for tenant name confirm_players server.state
        else raise (server_busy (state_text server.state))
