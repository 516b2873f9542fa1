-- ===== src/Catalog/Keyed.antt =====
-- The cached catalog is one as its clients expect it (src/dsh_api/catalog.py).
use dsh_api.Prelude.{
  String, ◌≡◌, refl, sym, ltb, ◌-◌, ◌∙◌, Bool, true, false, ◌&&◌, Option, none, some, List, [], ◌∷◌,
  All, ◌==◌, eq_iff, arith, Bool-cases, inl, inr, ◌⊎◌, if◌then◌else◌,
}
use dsh_api.Prelude.Dict.{Dict, get, put}
use dsh_api.Prelude.Json.{Json, Fields, lookup}
use dsh_api.Action.{Error, Result, ok, err, attempted}
use dsh_api.Action.Atomic.{reads_bind, Reads, Yields, bind-Yields}
use dsh_api.Plugins.{jar_name_and_version, extra_slugs}
use dsh_api.Catalog.{CatalogPlugin, IsKeyed}
use dsh_api.Catalog.Dpc.{
  extras_from, extras_from_defaults, extra_entry, add_extra, dpc_entry, joined, well_formed,
  put_entry, join_all, parsed, parse_dpc, is_filled, strings, slugged, releases_of, list_of,
}
use dsh_api.Catalog.Cache.{
  Cache, CatalogSource, is_caught, unavailable, fetch_path, parse_both, fetch_latest, put_all,
  refresh, stale, not_refreshed, refreshed, fetch_again, from_cache, plugins,
}

-- Every entry of the list, also one that another hides, stands under its slug.
abbrev pub AllKeyed : Dict CatalogPlugin → Type 0
AllKeyed = All (λ entry. entry.1.slug ≡ entry.0)

pub AllKeyed→IsKeyed : (catalog : Dict CatalogPlugin) → AllKeyed catalog → IsKeyed catalog
unfolding get
AllKeyed→IsKeyed [] keyed k e found = absurd (ground arith)
AllKeyed→IsKeyed ((j, x) ∷ catalog) keyed k e found =
    ground (arith, eq_iff j k, keyed.0, AllKeyed→IsKeyed catalog keyed.1 k e)

put-AllKeyed :
    (k : String) (e : CatalogPlugin) (catalog : Dict CatalogPlugin)
    → e.slug ≡ k
    → AllKeyed catalog
    → AllKeyed (put k e catalog)
unfolding put
put-AllKeyed k e [] same keyed = (same, tt)
put-AllKeyed k e ((j, x) ∷ catalog) same keyed = elim (Bool-cases (j == k)) [
  | inl here ↦ rw here (same, keyed.1)
  | inr other ↦ rw other (keyed.0, put-AllKeyed k e catalog same keyed.1)
]

add_extra-AllKeyed :
    (slug : Option String) (url : String) (extras : Dict CatalogPlugin)
    → AllKeyed extras
    → AllKeyed (add_extra slug url extras)
add_extra-AllKeyed none url extras keyed = keyed
add_extra-AllKeyed (some slug) url extras keyed =
    put-AllKeyed slug (extra_entry slug url) extras refl keyed

extras_from-AllKeyed :
    (urls : List String) (extras : Dict CatalogPlugin)
    → AllKeyed extras
    → AllKeyed (extras_from urls extras)
unfolding extras_from
extras_from-AllKeyed [] extras keyed = keyed
extras_from-AllKeyed (url ∷ urls) extras keyed =
    extras_from-AllKeyed urls _
      (add_extra-AllKeyed (get (jar_name_and_version url).0 extra_slugs) url extras keyed)

put_all-AllKeyed :
    (more catalog : Dict CatalogPlugin)
    → AllKeyed catalog
    → AllKeyed more
    → AllKeyed (put_all catalog more)
put_all-AllKeyed [] catalog keyed all = keyed
put_all-AllKeyed ((k, e) ∷ more) catalog keyed all =
    put_all-AllKeyed more (put k e catalog) (put-AllKeyed k e catalog all.0 keyed) all.1

module _ (show : Json → String) where
  abbrev Fits : String → Option CatalogPlugin → Type 0
  Fits slug none = Unit
  Fits slug (some e) = e.slug ≡ slug

  if-Fits :
      (test : Bool) (slug : String) (e : CatalogPlugin)
      → e.slug ≡ slug
      → Fits slug (if test then some e else none)
  if-Fits true slug e same = same
  if-Fits false slug e same = tt

  or_none-Fits :
      (test : Bool) (slug : String) (o : Option CatalogPlugin)
      → Fits slug o
      → Fits slug (if test then o else none)
  or_none-Fits true slug o fits = fits
  or_none-Fits false slug o fits = tt

  well_formed-Fits :
      (api slug : String) (p release : Fields) (tags requires : Option (List String))
      → Fits slug (well_formed show api slug p release tags requires)
  well_formed-Fits api slug p release none requires = tt
  well_formed-Fits api slug p release (some tags) none = tt
  well_formed-Fits api slug p release (some tags) (some requires) =
      if-Fits _ slug (dpc_entry show api slug p release tags requires) refl

  joined-Fits :
      (api slug : String) (p : Fields) (release : Option Fields)
      → Fits slug (joined show api slug p release)
  joined-Fits api slug p none = tt
  joined-Fits api slug p (some release) =
      or_none-Fits
        (is_filled (lookup "downloadPath" release) && is_filled (lookup "downloadUrl" release)) slug
        (well_formed show api slug p release (strings show (lookup "tags" p))
          (strings show (lookup "requires" p)))
        (well_formed-Fits api slug p release (strings show (lookup "tags" p))
          (strings show (lookup "requires" p)))

  put_entry-AllKeyed :
      (slug : String) (entry : Option CatalogPlugin) (catalog : Dict CatalogPlugin)
      → Fits slug entry
      → AllKeyed catalog
      → AllKeyed (put_entry show slug entry catalog)
  put_entry-AllKeyed slug none catalog fits keyed = keyed
  put_entry-AllKeyed slug (some e) catalog fits keyed = put-AllKeyed slug e catalog fits keyed

  join_all-AllKeyed :
      (api : String) (rest : List (String × Fields)) (releases : Dict Fields)
      (catalog : Dict CatalogPlugin)
      → AllKeyed catalog
      → AllKeyed (join_all show api rest releases catalog)
  unfolding join_all
  join_all-AllKeyed api [] releases catalog keyed = keyed
  join_all-AllKeyed api ((slug, p) ∷ rest) releases catalog keyed =
      join_all-AllKeyed api rest releases _ (
        put_entry-AllKeyed slug (joined show api slug p (get slug releases)) catalog
          (joined-Fits api slug p (get slug releases)) keyed)

  parsed-AllKeyed :
      (api : String) (plugins latest : Option (List Json)) (catalog : Dict CatalogPlugin)
      → parsed show api plugins latest ≡ ok catalog
      → AllKeyed catalog
  parsed-AllKeyed api none latest catalog done = absurd (ground (arith, done))
  parsed-AllKeyed api (some plugins) none catalog done = absurd (ground (arith, done))
  parsed-AllKeyed api (some plugins) (some latest) catalog done =
      let all : Dict CatalogPlugin =
        join_all show api (slugged plugins) (releases_of (slugged latest) []) [] in
      let same : all ≡ catalog = ground (arith, done) in
      rw⁻¹ same (join_all-AllKeyed api (slugged plugins) (releases_of (slugged latest) []) [] tt)

-- What the cache holds.
abbrev pub IsKept : Option (Dict CatalogPlugin) → Type 0
IsKept none = Unit
IsKept (some catalog) = AllKeyed catalog

-- An answer with its cache, or an error that leaves the cache alone.
abbrev pub IsAnswer : {C : Type 0} → Cache C → Result (Dict CatalogPlugin) × Cache C → Type 0
IsAnswer s out =
    ((catalog : Dict CatalogPlugin) × (out.0 ≡ ok catalog) × IsKeyed catalog × IsKept out.1.cached)
    ⊎ ((e : Error) × (out.0 ≡ err e) × (out.1.cached ≡ s.cached))

module _ {C : Type 0} (urls : List String) (D : CatalogSource C) where
  -- The catalog of these default plugins.
  abbrev pub with_extras : CatalogSource C
  with_extras = record D { extras = extras_from_defaults urls }

  abbrev copy : Cache C → Option (Dict CatalogPlugin)
  copy s = s.cached

  refresh-Reads : Reads copy (refresh with_extras)
  unfolding refresh
  refresh-Reads =
      reads_bind copy (fetch_path with_extras "/api/v1/plugins") (fetch_latest with_extras)
        (λ s. refl)
        (λ plugins.
          reads_bind copy (fetch_path with_extras "/api/v1/plugins/versions/latest")
            (parse_both with_extras plugins) (λ s. refl) (λ latest s. refl))

  refresh-Yields : Yields AllKeyed (refresh with_extras)
  unfolding refresh parse_dpc
  refresh-Yields =
      bind-Yields AllKeyed (fetch_path with_extras "/api/v1/plugins") (fetch_latest with_extras)
        λ plugins.
          bind-Yields AllKeyed (fetch_path with_extras "/api/v1/plugins/versions/latest")
            (parse_both with_extras plugins)
            λ latest s catalog done.
              parsed-AllKeyed D.show D.api (list_of plugins) (list_of latest) catalog done

  refreshed-IsAnswer :
      (dpc : Dict CatalogPlugin) (s t : Cache C)
      → AllKeyed dpc
      → IsAnswer s (refreshed with_extras dpc t)
  refreshed-IsAnswer dpc s t keyed =
      let all : AllKeyed (put_all dpc (extras_from_defaults urls)) =
        put_all-AllKeyed (extras_from_defaults urls) dpc keyed (extras_from-AllKeyed urls [] tt) in
      inl (_, refl, AllKeyed→IsKeyed (put_all dpc (extras_from_defaults urls)) all, all)

  stale-IsAnswer :
      (e : Error) (found : Option (Dict CatalogPlugin)) (s t : Cache C)
      → IsKept found
      → t.cached ≡ s.cached
      → t.cached ≡ found
      → IsAnswer s (stale with_extras e found t)
  stale-IsAnswer e none s t kept same here = inr (unavailable with_extras e, refl, same)
  stale-IsAnswer e (some catalog) s t kept same here =
      inl (catalog, refl, AllKeyed→IsKeyed catalog kept, rw here kept)

  not_refreshed-IsAnswer :
      (e : Error) (s t : Cache C)
      → IsKept s.cached
      → t.cached ≡ s.cached
      → IsAnswer s (not_refreshed with_extras e t)
  not_refreshed-IsAnswer e s t kept same = elim (Bool-cases (is_caught e)) [
    | inr other ↦ rw other (inr (e, refl, same))
    | inl caught ↦ rw caught (stale-IsAnswer e t.cached s t (rw same kept) same refl)
  ]

  -- An answer of `fetch_again`, from what `refresh` comes to.
  after_refresh :
      (r : Result (Dict CatalogPlugin)) (s t : Cache C)
      → IsKept s.cached
      → t.cached ≡ s.cached
      → ((dpc : Dict CatalogPlugin) → r ≡ ok dpc → AllKeyed dpc)
      → IsAnswer s (attempted r (refreshed with_extras) (not_refreshed with_extras) t)
  after_refresh (ok dpc) s t kept same keyed = refreshed-IsAnswer dpc s t (keyed dpc refl)
  after_refresh (err e) s t kept same keyed = not_refreshed-IsAnswer e s t kept same

  fetch_again-IsAnswer :
      (s t : Cache C)
      → IsKept s.cached
      → t.cached ≡ s.cached
      → IsAnswer s (fetch_again with_extras t)
  fetch_again-IsAnswer s t kept same =
      after_refresh (refresh with_extras t).0 s (refresh with_extras t).1 kept
        (refresh-Reads t ∙ same) (refresh-Yields t)

  from_cache-IsAnswer :
      (found : Option (Dict CatalogPlugin)) (s : Cache C)
      → found ≡ s.cached
      → IsKept found
      → IsAnswer s (from_cache with_extras found s)
  from_cache-IsAnswer none s same kept = fetch_again-IsAnswer s s (rw (sym same) kept) refl
  from_cache-IsAnswer (some catalog) s same kept =
      elim (Bool-cases (ltb ((D.clock s.source).0 - s.fetched_at) D.ttl)) [
        | inl fresh ↦
            rw fresh (inl (catalog, refl, AllKeyed→IsKeyed catalog kept, rw (sym same) kept))
        | inr old ↦ rw old (
            fetch_again-IsAnswer s (record s { source = (D.clock s.source).1 }) (rw (sym same) kept)
              refl)
      ]

  -- The cached catalog, whatever DPC answers, answers with a catalog whose entries stand under
  -- their own slugs, as the plugin service needs it, and again holds such a copy; or it raises
  -- and keeps the copy that it had, if what it holds at the start is such a copy.
  pub plugins-IsAnswer : (s : Cache C) → IsKept s.cached → IsAnswer s (plugins with_extras s)
  unfolding plugins
  plugins-IsAnswer s kept = from_cache-IsAnswer s.cached s refl kept
