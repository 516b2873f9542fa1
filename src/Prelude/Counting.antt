-- ===== src/Prelude/Counting.antt =====
-- How many elements of a list pass a test, after the operations that the tables make.
use Prim.Native.Nat.{◌≤◌}
use mathlib.Core.Path.{◌≡◌, refl}
use mathlib.Core.Bool.{Bool, true, false, ◌||◌, ◌&&◌}
use mathlib.Core.Option.{none}
use mathlib.Core.List.{List, [], ◌∷◌, reverse, reverse-cons}
use native.Mathlib.Omega.{arith}
use dsh_api.Prelude.Lists.{
  keep, any, any-append, find, head?, present, count_by, update_where, insert_by, sort_by,
}

module _ {ℓ} {A : Type ℓ} where
  pub count_by-keep-le : (p q : A → Bool) (xs : List A) → count_by p (keep q xs) ≤ count_by p xs
  count_by-keep-le p q [] = omega arith
  count_by-keep-le p q (x ∷ xs) = ground (arith, count_by-keep-le p q xs)

  -- A rewriting that makes no new element pass does not raise the count.
  pub count_by-update_where-le :
      (p q : A → Bool) (f : A → A) (xs : List A)
      → ((x : A) → p (f x) ≡ true → p x ≡ true)
      → count_by p (update_where q f xs) ≤ count_by p xs
  count_by-update_where-le p q f [] h = omega arith
  count_by-update_where-le p q f (x ∷ xs) h =
      ground (arith, h x, count_by-update_where-le p q f xs h)

  pub count_by-le-count_by :
      (p q : A → Bool) (xs : List A)
      → ((x : A) → p x ≡ true → q x ≡ true)
      → count_by p xs ≤ count_by q xs
  count_by-le-count_by p q [] h = omega arith
  count_by-le-count_by p q (x ∷ xs) h = ground (arith, h x, count_by-le-count_by p q xs h)

  pub count_by_of_any : (p : A → Bool) (xs : List A) → any p xs ≡ false → count_by p xs ≡ 0
  count_by_of_any p [] h = refl
  count_by_of_any p (x ∷ xs) h = ground (arith, count_by_of_any p xs)

  pub find_of_any : (p : A → Bool) (xs : List A) → any p xs ≡ false → find p xs ≡ none
  find_of_any p [] h = refl
  find_of_any p (x ∷ xs) h = ground (arith, find_of_any p xs)

  pub present-find : (p : A → Bool) (xs : List A) → present (find p xs) ≡ any p xs
  present-find p [] = refl
  present-find p (x ∷ xs) = ground (arith, present-find p xs)

  pub any-keep : (p : A → Bool) (xs : List A) → any (λ _. true) (keep p xs) ≡ any p xs
  any-keep p [] = refl
  any-keep p (x ∷ xs) = ground (arith, any-keep p xs)

  pub present-head? : (xs : List A) → present (head? xs) ≡ any (λ _. true) xs
  present-head? [] = refl
  present-head? (x ∷ xs) = refl

  pub any-insert_by :
      (p : A → Bool) (le : A → A → Bool) (x : A) (xs : List A)
      → any p (insert_by le x xs) ≡ (p x || any p xs)
  unfolding insert_by
  any-insert_by p le x [] = refl
  any-insert_by p le x (y ∷ ys) = ground (arith, any-insert_by p le x ys)

  -- Sorting keeps what is in the list.
  pub any-sort_by :
      (p : A → Bool) (le : A → A → Bool) (xs : List A) → any p (sort_by le xs) ≡ any p xs
  unfolding sort_by
  any-sort_by p le [] = refl
  any-sort_by p le (x ∷ xs) =
      ground (arith, any-insert_by p le x (sort_by le xs), any-sort_by p le xs)

  pub count_by-insert_by :
      (p : A → Bool) (le : A → A → Bool) (x : A) (xs : List A)
      → count_by p (insert_by le x xs) ≡ count_by p (x ∷ xs)
  unfolding insert_by
  count_by-insert_by p le x [] = refl
  count_by-insert_by p le x (y ∷ ys) = ground (arith, count_by-insert_by p le x ys)

  pub count_by-sort_by :
      (p : A → Bool) (le : A → A → Bool) (xs : List A) → count_by p (sort_by le xs) ≡ count_by p xs
  unfolding sort_by
  count_by-sort_by p le [] = refl
  count_by-sort_by p le (x ∷ xs) =
      ground (arith, count_by-insert_by p le x (sort_by le xs), count_by-sort_by p le xs)

  -- A rewriting of the elements that pass `q`: what passes `p` afterwards passed `p'` before.
  pub count_by-update_where-imp :
      (p p' q : A → Bool) (f : A → A) (xs : List A)
      → ((x : A) → q x ≡ true → p (f x) ≡ true → p' x ≡ true)
      → ((x : A) → q x ≡ false → p x ≡ true → p' x ≡ true)
      → count_by p (update_where q f xs) ≤ count_by p' xs
  count_by-update_where-imp p p' q f [] on off = omega arith
  count_by-update_where-imp p p' q f (x ∷ xs) on off =
      ground (arith, on x, off x, count_by-update_where-imp p p' q f xs on off)

  pub any-keep-and : (p q : A → Bool) (xs : List A) → any p (keep q xs) ≡ any (λ x. q x && p x) xs
  any-keep-and p q [] = refl
  any-keep-and p q (x ∷ xs) = ground (arith, any-keep-and p q xs)

  pub any-reverse : (p : A → Bool) (xs : List A) → any p (reverse xs) ≡ any p xs
  any-reverse p [] = refl
  any-reverse p (x ∷ xs) =
      rw (reverse-cons x xs, any-append p (reverse xs) (x ∷ []), any-reverse p xs)
        (swapped (p x) (any p xs))
    where
      swapped : (a b : Bool) → (b || (a || false)) ≡ (a || b)
      swapped a b = ground arith
