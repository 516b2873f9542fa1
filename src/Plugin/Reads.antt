-- ===== src/Plugin/Reads.antt =====
-- The reads of `PluginService` (src/dsh_api/plugin_service.py).
use dsh_api.Prelude.{
  ℕ, String, Bool, true, false, ◌&&◌, ◌||◌, not, Option, none, some, List, [], ◌∷◌, sort_by, str_le,
  is_empty, is_prefix, codes, present, ◌==◌, if◌then◌else◌,
}
use dsh_api.Prelude.Dict as D
use dsh_api.Prelude.Dict.{Dict, has}
use dsh_api.Action.{
  Act, Result, ok, err, pure, refuse_if, plugin_selection_disabled, catalog_unavailable, ◌>>=◌,
  ◌>>◌,
}
use dsh_api.Config.{Settings}
use dsh_api.Db.Rows.{SelectedPlugin, PluginState}
use dsh_api.Db.Plugins.{seed_plugins, selected_plugins, plugin_state, set_plugin_hashes}
use dsh_api.Cluster.Status.{State, is_awake, is_stopped}
use dsh_api.Cluster.Backend.{ClusterBackend, Applied}
use dsh_api.Selection.{default_selection}
use dsh_api.Catalog.{CatalogPlugin, PluginCatalog}
use dsh_api.Server.World.{World, query, write, transact, call}
use dsh_api.Server.Reads.{get}

pub record PluginEntry : Type 0 where
  pub slug : String
  pub title : String
  pub version : String
  pub added_by : String
  pub requires : List String
  pub required_by : List String
  pub status : String

pub record PluginsView : Type 0 where
  pub server : String
  pub state : State
  pub players_online : Option ℕ
  pub pending : Bool
  pub plugins : List PluginEntry

-- `sorted(r.slug for r in rows if slug in r.requires and r.slug != slug)`
abbrev pub slugs_requiring : String → List SelectedPlugin → List String
slugs_requiring slug [] = []
slugs_requiring slug (r ∷ rs) =
    if has slug r.requires && not (r.slug == slug)
    then r.slug ∷ slugs_requiring slug rs
    else slugs_requiring slug rs

unfoldable pub dependents : String → List SelectedPlugin → List String
dependents slug rows = sort_by str_le (slugs_requiring slug rows)

-- A text or `none`: a missing hash equals a missing hash only.
abbrev same_hash : Option String → Option String → Bool
same_hash none none = true
same_hash (some a) (some b) = a == b
same_hash _ _ = false

abbrev written_of : Option PluginState → Option String
written_of none = none
written_of (some s) = s.written_sha256

abbrev applied_of : Option PluginState → Option String
applied_of none = none
applied_of (some s) = s.applied_sha256

-- `str(report.get("selection_sha256") or "") or applied_hash`
abbrev reported_hash : Applied → Option String → Option String
reported_hash report applied =
    if is_empty report.selection_sha256 then applied else some report.selection_sha256

-- `written is not None and written != applied_hash`
unfoldable pub is_pending : Option String → Option String → Bool
is_pending written applied = present written && not (same_hash written applied)

abbrev on_disk : String → Bool
on_disk outcome = has outcome ("installed" ∷ "present" ∷ "adopted" ∷ [])

abbrev status_or : Bool → String
status_or installed = if installed then "installed" else "pending"

-- The status of one plugin, from the outcome of the last boot.
unfoldable pub plugin_status : Option String → Bool → Option String → String
unfolding codes is_prefix
plugin_status written pending none = status_or (not (present written) || not pending)
plugin_status written pending (some outcome) =
    if is_prefix (codes "failed") (codes outcome) && not pending
    then outcome
    else status_or (on_disk outcome || not (present written))

abbrev title_of : Dict CatalogPlugin → String → String
title_of catalog slug = elim (D.get slug catalog) [ none ↦ slug | some p ↦ p.title ]

abbrev entry_of :
    List SelectedPlugin
    → Dict CatalogPlugin
    → Option String
    → Bool
    → Dict String
    → SelectedPlugin
    → PluginEntry
entry_of rows catalog written pending outcomes r = record {
  slug = r.slug;
  title = title_of catalog r.slug;
  version = r.tag;
  added_by = r.added_by;
  requires = r.requires;
  required_by = dependents r.slug rows;
  status = plugin_status written pending (D.get r.slug outcomes);
}

abbrev entries :
    List SelectedPlugin
    → Dict CatalogPlugin
    → Option String
    → Bool
    → Dict String
    → List SelectedPlugin
    → List PluginEntry
entries rows catalog written pending outcomes [] = []
entries rows catalog written pending outcomes (r ∷ rs) =
    entry_of rows catalog written pending outcomes r
    ∷ entries rows catalog written pending outcomes rs

module _ {C : Type 0} (settings : Settings) (B : ClusterBackend C) (P : PluginCatalog C) where
  -- `_require_enabled`
  abbrev pub require_enabled : Act (World C) (Unit {0})
  require_enabled = refuse_if (not settings.plugin_selection) plugin_selection_disabled

  -- `_rows`
  unfoldable pub rows_of : String → Act (World C) (List SelectedPlugin)
  rows_of name = do
    transact (seed_plugins name (default_selection settings.default_plugins))
    query (selected_plugins name)

  -- `except CatalogUnavailable: return {}`
  abbrev or_no_titles : Result (Dict CatalogPlugin) → Result (Dict CatalogPlugin)
  or_no_titles (err (catalog_unavailable _)) = ok []
  or_no_titles r = r

  -- `_titles`, as the catalog that it reads.
  unfoldable pub titles : Act (World C) (Dict CatalogPlugin)
  titles w = let (r, w') = call P.plugins w in (or_no_titles r, w')

  -- What the wrapper reports is kept, where it reports a hash.
  abbrev keep_report : String → Option String → Act (World C) (Unit {0})
  keep_report name applied = write (λ _. set_plugin_hashes name none applied)

  abbrev with_report :
      String → Option String → Option Applied → Act (World C) (Option String × Dict String)
  with_report name applied none = pure (applied, [])
  with_report name applied (some report) = do
    keep_report name (reported_hash report applied)
    pure (reported_hash report applied, report.plugins)

  unfoldable pub last_boot :
      String → State → Option String → Act (World C) (Option String × Dict String)
  last_boot name state applied =
      if is_awake state || is_stopped state
      then (do report ← call (B.plugins_applied name); with_report name applied report)
      else pure (applied, [])

  -- `view`
  unfoldable pub view : String → String → Act (World C) PluginsView
  view tenant name = do
    require_enabled
    server ← get settings B tenant name
    rows ← rows_of name
    state ← query (plugin_state name)
    boot ← last_boot name server.state (applied_of state)
    catalog ← titles
    pure record {
      server = name;
      state = server.state;
      players_online = server.players_online;
      pending = is_pending (written_of state) boot.0;
      plugins =
          entries rows catalog (written_of state) (is_pending (written_of state) boot.0) boot.1
            rows;
    }
