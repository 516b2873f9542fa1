-- ===== src/Plugin/Closure.antt =====
-- The queue of `PluginService.add` ends (src/dsh_api/plugin_service.py).
use dsh_api.Prelude.{
  ℕ, zero, suc, ◌+◌, ◌≤◌, ◌<◌, String, ◌≡◌, refl, true, false, some, List, [], ◌∷◌, ◌++◌, length,
  arith, eq_iff, length-append, Bool-cases, present, Option-cases, inl, inr,
}
use dsh_api.Prelude.Dict.{Dict, get, has}
use dsh_api.Db.Rows.{SelectedPlugin}
use dsh_api.Catalog.{CatalogPlugin}
use dsh_api.Plugin.Resolve.{selected_from, dependencies, resolve, pending_names}

abbrev pub slugs : List SelectedPlugin → List String
slugs [] = []
slugs (r ∷ rs) = r.slug ∷ slugs rs

abbrev pub names : List (String × String) → List String
names [] = []
names ((n, by) ∷ q) = n ∷ names q

pub names-append : (p q : List (String × String)) → names (p ++ q) ≡ names p ++ names q
names-append [] q = refl
names-append ((n, by) ∷ p) q = ground (arith, names-append p q)

pub names-dependencies : (deps : List String) → names (dependencies deps) ≡ deps
names-dependencies [] = refl
names-dependencies (d ∷ deps) = ground (arith, names-dependencies deps)

length-dependencies : (deps : List String) → length (dependencies deps) ≡ length deps
length-dependencies [] = refl
length-dependencies (d ∷ deps) = ground (arith, length-dependencies deps)

pub slugs-append : (p q : List SelectedPlugin) → slugs (p ++ q) ≡ slugs p ++ slugs q
slugs-append [] q = refl
slugs-append (r ∷ p) q = ground (arith, slugs-append p q)

-- One more selected name takes what its entry requires off the count.
pending_names_mono :
    (catalog : Dict CatalogPlugin) (selected : List String) (current : String)
    → pending_names catalog (current ∷ selected) ≤ pending_names catalog selected
unfolding pending_names
pending_names_mono [] selected current = omega arith
pending_names_mono ((slug, entry) ∷ catalog) selected current =
    ground (arith, pending_names_mono catalog selected current)

pending_names-drop :
    (catalog : Dict CatalogPlugin) (selected : List String) (current : String)
    (entry : CatalogPlugin)
    → has current selected ≡ false
    → get current catalog ≡ some entry
    → length entry.requires + pending_names catalog (current ∷ selected)
      ≤ pending_names catalog selected
unfolding pending_names get
pending_names-drop [] selected current entry new found = cc
pending_names-drop ((slug, e) ∷ catalog) selected current entry new found = ground (
  arith,
  eq_iff slug current,
  eq_iff current slug,
  pending_names_mono catalog selected current,
  pending_names-drop catalog selected current entry,
)

-- With more fuel than names that may come, the loop ends by itself.
pub resolve_total :
    (fuel : ℕ) (catalog : Dict CatalogPlugin) (queue : List (String × String))
    (selected : List String) (new : List SelectedPlugin)
    → length queue + pending_names catalog selected < fuel
    → present (resolve fuel catalog queue selected new) ≡ true
unfolding resolve
resolve_total zero catalog queue selected new h = absurd (omega arith)
resolve_total (suc fuel) catalog [] selected new h = refl
resolve_total (suc fuel) catalog ((current, added_by) ∷ queue) selected new h =
    elim (Bool-cases (has current selected)) [
      | inl old ↦ ground (arith, resolve_total fuel catalog queue selected new)
      | inr new_name ↦ elim (Option-cases (get current catalog)) [
        | inl missing ↦ ground arith
        | inr (entry, found) ↦ ground (
          arith,
          pending_names-drop catalog selected current entry new_name found,
          length-dependencies entry.requires,
          length-append queue (dependencies entry.requires),
          resolve_total fuel catalog (queue ++ dependencies entry.requires) (current ∷ selected)
              (new ++ selected_from entry added_by ∷ []),
        )
      ]
    ]
