-- ===== src/Catalog.antt =====
-- src/dsh_api/catalog.py: the plugins that a tenant can install. `Dpc` reads the answers of the
-- catalog's API, `Cache` keeps them, and `Keyed` proves that the cache is a catalog as its clients
-- expect one.
pub mod Dpc
pub mod Cache
pub mod Keyed
use dsh_api.Prelude.{String, ◌≡◌, Option, some, List}
use dsh_api.Prelude.Dict.{Dict, get}
use dsh_api.Action.{Act}

pub record CatalogPlugin : Type 0 where
  pub slug : String
  pub title : String
  pub description : String
  pub tags : List String
  pub requires : List String
  pub tag : String
  pub filename : String
  pub url : String
  pub icon_url : Option String
  pub project_url : Option String

-- Every entry stands under its own slug, as `parse_dpc` and `extras_from_defaults` build it.
abbrev pub IsKeyed : Dict CatalogPlugin → Type 0
IsKeyed catalog = (k : String) (e : CatalogPlugin) → get k catalog ≡ some e → e.slug ≡ k

-- What a client of `PluginCatalog` calls.
pub record PluginCatalog (C : Type 0) : Type 0 where
  pub plugins : Act C (Dict CatalogPlugin)
