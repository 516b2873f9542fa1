-- ===== src/Plugin/Choosing.antt =====
-- What `PluginService.add` chooses (src/dsh_api/plugin_service.py).
use dsh_api.Prelude.{
  ℕ, zero, suc, ◌≤◌, String, ◌≡◌, refl, true, ◌||◌, Option, none, some, List, [], ◌∷◌, ◌++◌, arith,
  eq_refl, Bool-cases, Option-cases, inl, inr,
}
use dsh_api.Prelude.Dict as D
use dsh_api.Prelude.Dict.{Dict, has}
use dsh_api.Action.{Result, Error, ok, err, unknown_plugin}
use dsh_api.Config.{Settings}
use dsh_api.Db.Rows.{SelectedPlugin}
use dsh_api.Cluster.Backend.{ClusterBackend}
use dsh_api.Catalog.{CatalogPlugin, PluginCatalog, IsKeyed}
use dsh_api.Server.World.{World}
use dsh_api.Plugin.Resolve.{selected_from, dependencies, resolve, pending_names, enough}
use dsh_api.Plugin.Closure.{slugs, resolve_total}
use dsh_api.Plugin.Covering.{RequiresAll, resolve_covers, resolve_closes}
use dsh_api.Plugin.Service.{choose, resolved}

pending_names-most :
    (catalog : Dict CatalogPlugin) (selected : List String)
    → pending_names catalog selected ≤ pending_names catalog []
unfolding pending_names
pending_names-most [] selected = omega arith
pending_names-most ((slug, entry) ∷ catalog) selected =
    ground (arith, pending_names-most catalog selected)

-- The only error of the loop names a plugin that the catalog does not have.
resolve_fails :
    (fuel : ℕ) (catalog : Dict CatalogPlugin) (queue : List (String × String))
    (selected : List String) (new : List SelectedPlugin) (e : Error)
    → resolve fuel catalog queue selected new ≡ some (err e)
    → (x : String) × (e ≡ unknown_plugin x) × (D.get x catalog ≡ none)
unfolding resolve
resolve_fails zero catalog queue selected new e failed = absurd (ground arith)
resolve_fails (suc fuel) catalog [] selected new e failed = absurd (ground arith)
resolve_fails (suc fuel) catalog ((current, added_by) ∷ queue) selected new e failed =
    elim (Bool-cases (has current selected)) [
      | inl old ↦ resolve_fails fuel catalog queue selected new e (ground arith)
      | inr new_name ↦ elim (Option-cases (D.get current catalog)) [
        | inl missing ↦ (current, ground arith, missing)
        | inr (entry, found) ↦
            resolve_fails fuel catalog (queue ++ dependencies entry.requires) (current ∷ selected)
              (new ++ selected_from entry added_by ∷ []) e (ground arith)
      ]
    ]

-- What comes out of the choice, in an unchanged world.
pub data IsChosen {C : Type 0} (catalog : Dict CatalogPlugin) (rows : List SelectedPlugin)
    (slug : String) (w : World C) : Result (List SelectedPlugin) × World C → Type 0 where
  unknown :
      (x : String)
      → D.get x catalog ≡ none
      → IsChosen catalog rows slug w (err (unknown_plugin x), w)
  chosen :
      (new : List SelectedPlugin)
      → (has slug (slugs rows) || has slug (slugs new)) ≡ true
      → RequiresAll (λ x. has x (slugs rows) || has x (slugs new)) new
      → IsChosen catalog rows slug w (ok new, w)

module _ {C : Type 0} (settings : Settings) (B : ClusterBackend C) (P : PluginCatalog C)
    (sha256 : String → String) where
  resolved-IsChosen :
      (catalog : Dict CatalogPlugin) (rows : List SelectedPlugin) (slug : String) (w : World C)
      (r : Option (Result (List SelectedPlugin)))
      → IsKeyed catalog
      → resolve (enough catalog) catalog ((slug, "tenant") ∷ []) (slugs rows) [] ≡ r
      → IsChosen catalog rows slug w (resolved settings B P sha256 r w)
  unfolding enough
  resolved-IsChosen catalog rows slug w none keyed same = absurd (
      ground (
        arith,
        same,
        pending_names-most catalog (slugs rows),
        resolve_total (enough catalog) catalog ((slug, "tenant") ∷ []) (slugs rows) [],
      ))
  resolved-IsChosen catalog rows slug w (some (err e)) keyed same =
      let (x, is_x, missing) =
        resolve_fails (enough catalog) catalog ((slug, "tenant") ∷ []) (slugs rows) [] e same in
      rw is_x (unknown x missing)
  resolved-IsChosen catalog rows slug w (some (ok new)) keyed same =
      chosen new
        (resolve_covers (enough catalog) catalog ((slug, "tenant") ∷ []) (slugs rows) (slugs rows)
          [] new keyed (λ x. ground arith) same slug (ground (arith, eq_refl slug)))
        (resolve_closes (enough catalog) catalog ((slug, "tenant") ∷ []) (slugs rows) (slugs rows)
          [] new keyed (λ x. ground arith) tt same)

  -- For a catalog whose entries stand under their own slugs, the queue of an add always ends and
  -- changes nothing: with the error for a plugin that the catalog does not have, or with new rows
  -- such that the chosen slug, and all that the new rows require, is selected before or new.
  pub choose-IsChosen :
      (catalog : Dict CatalogPlugin) (rows : List SelectedPlugin) (slug : String) (w : World C)
      → IsKeyed catalog
      → IsChosen catalog rows slug w (choose settings B P sha256 catalog rows slug w)
  unfolding choose
  choose-IsChosen catalog rows slug w keyed = go (D.get slug catalog) refl
    where
      go :
          (e : Option CatalogPlugin)
          → D.get slug catalog ≡ e
          → IsChosen catalog rows slug w (choose settings B P sha256 catalog rows slug w)
      go none missing = rw (choose, missing) (unknown slug missing)
      go (some e) found =
          rw (choose, found)
            (resolved-IsChosen catalog rows slug w
              (resolve (enough catalog) catalog ((slug, "tenant") ∷ []) (slugs rows) []) keyed refl)
