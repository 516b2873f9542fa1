-- ===== src/Catalog/Cache.antt =====
-- The classes `DpcCatalog` and `FakeCatalog` (src/dsh_api/catalog.py).
use dsh_api.Prelude.{
  ℕ, ◌-◌, String, Bool, true, false, ◌||◌, Option, none, some, List, [], ◌∷◌, concat, ltb, ◌==◌,
  if◌then◌else◌,
}
use dsh_api.Prelude.Dict.{Dict, put}
use dsh_api.Prelude.Json.{Json}
use dsh_api.Action.{
  Act, Error, catalog_unavailable, ok, err, value_error, other, pure, raise, settle, attempted,
  ◌>>=◌,
}
use dsh_api.Action.Texts.{text_of}
use dsh_api.Catalog.{CatalogPlugin, PluginCatalog}
use dsh_api.Catalog.Dpc.{parse_dpc}

-- The cache over `C`, the state of what answers; `fetched_at` is on the clock that the cache reads.
pub record Cache (C : Type 0) : Type 0 where
  pub cached : Option (Dict CatalogPlugin)
  pub fetched_at : ℕ
  pub source : C

-- The arguments of `DpcCatalog`: the clock may go on between two looks at it.
pub record CatalogSource (C : Type 0) : Type 0 where
  pub extras : Dict CatalogPlugin
  pub api : String
  pub ttl : ℕ
  pub fetch : String → Act C Json
  pub clock : C → ℕ × C
  -- `str` of the values that are no texts.
  pub show : Json → String

-- The exceptions that the `except` names: URLError and TimeoutError are an OSError.
abbrev pub is_caught : Error → Bool
is_caught (value_error _) = true
is_caught (other name _) =
    name == "URLError" || name == "TimeoutError" || name == "OSError" || name == "HTTPException"
is_caught _ = false

abbrev pub put_all : Dict CatalogPlugin → Dict CatalogPlugin → Dict CatalogPlugin
put_all catalog [] = catalog
put_all catalog ((k, e) ∷ more) = put_all (put k e catalog) more

module _ {C : Type 0} (D : CatalogSource C) where
  abbrev from_source : {A : Type 0} → Act C A → Act (Cache C) A
  from_source m s = let (r, c) = m s.source in (r, record s { source = c })

  abbrev read_clock : Act (Cache C) ℕ
  read_clock s = let (now, c) = D.clock s.source in (ok now, record s { source = c })

  abbrev pub fetch_path : String → Act (Cache C) Json
  fetch_path path = from_source (D.fetch (concat (D.api ∷ path ∷ [])))

  abbrev pub parse_both : Json → Json → Act (Cache C) (Dict CatalogPlugin)
  parse_both plugins latest = settle (parse_dpc D.show plugins latest D.api)

  abbrev pub fetch_latest : Json → Act (Cache C) (Dict CatalogPlugin)
  fetch_latest plugins = do
    latest ← fetch_path "/api/v1/plugins/versions/latest"
    parse_both plugins latest

  -- The body of the `try`.
  unfoldable pub refresh : Act (Cache C) (Dict CatalogPlugin)
  unfolding parse_dpc
  refresh = do plugins ← fetch_path "/api/v1/plugins"; fetch_latest plugins

  abbrev pub unavailable : Error → Error
  unavailable e =
      catalog_unavailable (concat ("the plugin catalog could not be read (" ∷ text_of e ∷ ")" ∷ []))

  -- The last good copy, or the error.
  abbrev pub stale : Error → Option (Dict CatalogPlugin) → Act (Cache C) (Dict CatalogPlugin)
  stale e none = raise (unavailable e)
  stale e (some catalog) = pure catalog

  abbrev pub not_refreshed : Error → Act (Cache C) (Dict CatalogPlugin)
  not_refreshed e s = if is_caught e then stale e s.cached s else (err e, s)

  abbrev pub refreshed : Dict CatalogPlugin → Act (Cache C) (Dict CatalogPlugin)
  refreshed dpc s =
      let catalog = put_all dpc D.extras in
      let (now, c) = D.clock s.source in
      (ok catalog, record { cached = some catalog; fetched_at = now; source = c })

  abbrev pub fetch_again : Act (Cache C) (Dict CatalogPlugin)
  fetch_again s = let (r, t) = refresh s in attempted r refreshed not_refreshed t

  -- The clock is read only where there is a copy.
  abbrev pub from_cache : Option (Dict CatalogPlugin) → Act (Cache C) (Dict CatalogPlugin)
  from_cache none s = fetch_again s
  from_cache (some catalog) s =
      let (now, c) = D.clock s.source in
      if ltb (now - s.fetched_at) D.ttl
      then (ok catalog, record s { source = c })
      else fetch_again (record s { source = c })

  -- `plugins`
  unfoldable pub plugins : Act (Cache C) (Dict CatalogPlugin)
  unfolding refresh put text_of
  plugins s = from_cache s.cached s

  -- What the plugin service is given.
  abbrev pub dpc_catalog : PluginCatalog (Cache C)
  dpc_catalog = record { plugins = plugins }

-- `FakeCatalog`
abbrev pub by_slug : List CatalogPlugin → Dict CatalogPlugin → Dict CatalogPlugin
by_slug [] catalog = catalog
by_slug (e ∷ es) catalog = by_slug es (put e.slug e catalog)

unfoldable pub fake_plugins :
    {C : Type 0} → (available : Bool) → List CatalogPlugin → Act C (Dict CatalogPlugin)
unfolding put
fake_plugins true entries s = (ok (by_slug entries []), s)
fake_plugins false entries s =
    (err (catalog_unavailable "the plugin catalog could not be read (simulated)"), s)
