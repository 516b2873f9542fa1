-- ===== src/Plugin/Covering.antt =====
-- What the queue of `PluginService.add` selects (src/dsh_api/plugin_service.py).
use dsh_api.Prelude.{
  ℕ, zero, suc, String, ◌≡◌, ap, Bool, true, ◌||◌, some, List, [], ◌∷◌, ◌++◌, All, arith, ◌==◌,
  eq_iff, eq_refl, any-append, All-append, Bool-cases, Option-cases, inl, inr,
}
use dsh_api.Prelude.Dict.{Dict, get, has}
use dsh_api.Action.{ok}
use dsh_api.Db.Rows.{SelectedPlugin}
use dsh_api.Catalog.{CatalogPlugin, IsKeyed}
use dsh_api.Plugin.Resolve.{selected_from, dependencies, resolve}
use dsh_api.Plugin.Closure.{slugs, names, names-append, names-dependencies, slugs-append}

-- What is selected is what was selected before and what is new.
abbrev IsTracked : List String → List String → List SelectedPlugin → Type 0
IsTracked base selected new = (x : String) → has x selected ≡ (has x base || has x (slugs new))

-- A name that is selected already adds nothing at the head of the queue.
has-head :
    (current x : String) (selected rest : List String)
    → has current selected ≡ true
    → (has x selected || has x (current ∷ rest)) ≡ true
    → (has x selected || has x rest) ≡ true
has-head current x selected rest old h = elim (Bool-cases (current == x)) [
  | inl same ↦ ground (arith, ap (λ k. has k selected) ((eq_iff current x).0 same))
  | inr other ↦ ground (arith)
]

-- A new name and what it requires keep what was selected or waiting so.
step_keeps :
    (current x : String) (selected : List String) (queue : List (String × String))
    (deps : List String)
    → (has x selected || has x (current ∷ names queue)) ≡ true
    → (has x (current ∷ selected) || has x (names (queue ++ dependencies deps))) ≡ true
step_keeps current x selected queue deps h = ground (
  arith,
  names-append queue (dependencies deps),
  names-dependencies deps,
  any-append (λ y. y == x) (names queue) deps,
)

-- What a new name requires waits.
step_queues :
    (current x : String) (selected : List String) (queue : List (String × String))
    (deps : List String)
    → has x deps ≡ true
    → (has x (current ∷ selected) || has x (names (queue ++ dependencies deps))) ≡ true
step_queues current x selected queue deps h = ground (
  arith,
  names-append queue (dependencies deps),
  names-dependencies deps,
  any-append (λ y. y == x) (names queue) deps,
)

IsTracked-step :
    (base selected : List String) (new : List SelectedPlugin) (entry : CatalogPlugin)
    (added_by current : String)
    → entry.slug ≡ current
    → IsTracked base selected new
    → IsTracked base (current ∷ selected) (new ++ selected_from entry added_by ∷ [])
unfolding selected_from
IsTracked-step base selected new entry added_by current same tracked x = ground (
  arith,
  tracked x,
  slugs-append new (selected_from entry added_by ∷ []),
  any-append (λ y. y == x) (slugs new) (entry.slug ∷ []),
)

-- What is selected when the loop starts is selected when it ends, and so is what waits.
pub resolve_covers :
    (fuel : ℕ) (catalog : Dict CatalogPlugin) (queue : List (String × String))
    (base selected : List String) (new out : List SelectedPlugin)
    → IsKeyed catalog
    → IsTracked base selected new
    → resolve fuel catalog queue selected new ≡ some (ok out)
    → (x : String) → (has x selected || has x (names queue)) ≡ true
    → (has x base || has x (slugs out)) ≡ true
unfolding resolve selected_from
resolve_covers zero catalog queue base selected new out keyed tracked done x h = cc
resolve_covers (suc fuel) catalog [] base selected new out keyed tracked done x h =
    ground (arith, tracked x)
resolve_covers (suc fuel) catalog ((current, added_by) ∷ queue) base selected new out keyed tracked
      done x h =
    elim (Bool-cases (has current selected)) [
      | inl old ↦
          resolve_covers fuel catalog queue base selected new out keyed tracked (ground arith) x
            (has-head current x selected (names queue) old h)
      | inr new_name ↦ elim (Option-cases (get current catalog)) [
        | inl missing ↦ absurd (ground arith)
        | inr (entry, found) ↦
            resolve_covers fuel catalog (queue ++ dependencies entry.requires) base
              (current ∷ selected) (new ++ selected_from entry added_by ∷ []) out keyed
              (IsTracked-step base selected new entry added_by current (keyed current entry found)
                tracked)
              (ground arith) x (step_keeps current x selected queue entry.requires h)
      ]
    ]

-- What each row requires passes a test.
abbrev pub RequiresAll : (String → Bool) → List SelectedPlugin → Type 0
RequiresAll p rows = All (λ r. All (λ x. p x ≡ true) r.requires) rows

names_pass :
    (p q : String → Bool) (xs : List String)
    → ((x : String) → p x ≡ true → q x ≡ true)
    → All (λ x. p x ≡ true) xs
    → All (λ x. q x ≡ true) xs
names_pass p q [] f h = h
names_pass p q (x ∷ xs) f h = (f x h.0, names_pass p q xs f h.1)

requires_pass :
    (p q : String → Bool) (rows : List SelectedPlugin)
    → ((x : String) → p x ≡ true → q x ≡ true)
    → RequiresAll p rows
    → RequiresAll q rows
requires_pass p q [] f h = h
requires_pass p q (r ∷ rows) f h = (names_pass p q r.requires f h.0, requires_pass p q rows f h.1)

-- All of a list is in it.
names_in_list :
    (p : String → Bool) (xs : List String)
    → ((x : String) → has x xs ≡ true → p x ≡ true)
    → All (λ x. p x ≡ true) xs
names_in_list p [] f = tt
names_in_list p (x ∷ xs) f =
    (f x (ground (arith, eq_refl x)), names_in_list p xs (λ y h. f y (ground (arith, h))))

closes_at_end : (new out : List SelectedPlugin) → some (ok new) ≡ some (ok out) → new ≡ out
closes_at_end new out done = cc

-- The loop ends with a selection that its new rows cannot leave by what they require.
pub resolve_closes :
    (fuel : ℕ) (catalog : Dict CatalogPlugin) (queue : List (String × String))
    (base selected : List String) (new out : List SelectedPlugin)
    → IsKeyed catalog
    → IsTracked base selected new
    → RequiresAll (λ x. has x selected || has x (names queue)) new
    → resolve fuel catalog queue selected new ≡ some (ok out)
    → RequiresAll (λ x. has x base || has x (slugs out)) out
unfolding resolve selected_from
resolve_closes zero catalog queue base selected new out keyed tracked waiting done =
    absurd (ground arith)
resolve_closes (suc fuel) catalog [] base selected new out keyed tracked waiting done =
    rw (← closes_at_end new out done) (
      requires_pass (λ x. has x selected || has x []) (λ x. has x base || has x (slugs new)) new
        (λ x h. ground (arith, tracked x)) waiting)
resolve_closes (suc fuel) catalog ((current, added_by) ∷ queue) base selected new out keyed tracked
      waiting done =
    elim (Bool-cases (has current selected)) [
      | inl old ↦
          resolve_closes fuel catalog queue base selected new out keyed tracked
            (requires_pass (λ x. has x selected || has x (current ∷ names queue))
              (λ x. has x selected || has x (names queue)) new
              (λ x. has-head current x selected (names queue) old) waiting)
            (ground arith)
      | inr new_name ↦ elim (Option-cases (get current catalog)) [
        | inl missing ↦ absurd (ground arith)
        | inr (entry, found) ↦
            resolve_closes fuel catalog (queue ++ dependencies entry.requires) base
              (current ∷ selected) (new ++ selected_from entry added_by ∷ []) out keyed
              (IsTracked-step base selected new entry added_by current (keyed current entry found)
                tracked)
              (All-append
                (λ r.
                  All
                    (λ x.
                      (has x (current ∷ selected)
                        || has x (names (queue ++ dependencies entry.requires)))
                      ≡ true)
                    r.requires)
                new (selected_from entry added_by ∷ [])
                (requires_pass (λ x. has x selected || has x (current ∷ names queue))
                  (λ x.
                    has x (current ∷ selected)
                    || has x (names (queue ++ dependencies entry.requires)))
                  new (λ x. step_keeps current x selected queue entry.requires) waiting)
                (
                  names_in_list
                      (λ x.
                        has x (current ∷ selected)
                        || has x (names (queue ++ dependencies entry.requires)))
                      entry.requires (λ x. step_queues current x selected queue entry.requires),
                  tt,
                ))
              (ground arith)
      ]
    ]
