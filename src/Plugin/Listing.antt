-- ===== src/Plugin/Listing.antt =====
-- The catalog as the portal lists it: `list_catalog` of src/dsh_api/plugin_service.py and `to_json`
-- of src/dsh_api/catalog.py.
use dsh_api.Prelude.{String, Bool, Option, List, map, sort_by, str_le}
use dsh_api.Prelude.Chars.{lower_text}
use dsh_api.Action.{Act, pure, ◌>>=◌, ◌>>◌}
use dsh_api.Config.{Settings}
use dsh_api.Catalog.{CatalogPlugin, PluginCatalog}
use dsh_api.Cluster.Backend.{ClusterBackend}
use dsh_api.Server.World.{World, call}
use dsh_api.Plugin.Reads.{require_enabled}

-- The keys of `to_json`.
pub record Listing : Type 0 where
  pub slug : String
  pub title : String
  pub description : String
  pub tags : List String
  pub requires : List String
  pub version : String
  pub icon_url : Option String
  pub project_url : Option String

abbrev pub to_json : CatalogPlugin → Listing
to_json p = record {
  slug = p.slug;
  title = p.title;
  description = p.description;
  tags = p.tags;
  requires = p.requires;
  version = p.tag;
  icon_url = p.icon_url;
  project_url = p.project_url;
}

-- `_title_key`, as the order that it gives.
unfoldable pub title_le : CatalogPlugin → CatalogPlugin → Bool
unfolding lower_text
title_le a b = str_le (lower_text a.title) (lower_text b.title)

abbrev entry_of : String × CatalogPlugin → CatalogPlugin
entry_of (slug, p) = p

-- `list_catalog`
module _ {C : Type 0} (settings : Settings) (B : ClusterBackend C) (P : PluginCatalog C) where
  unfoldable pub list_catalog : Act (World C) (List Listing)
  unfolding sort_by title_le
  list_catalog = do
    require_enabled settings B P
    catalog ← call P.plugins
    pure (map to_json (sort_by title_le (map entry_of catalog)))
