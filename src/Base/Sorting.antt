-- ===== src/Base/Sorting.antt =====
-- Selections and stable sorts of lists: `WHERE` and `ORDER BY` of a query, `sorted` of Python.
use mathlib.Core.Path.{◌≡◌, refl}
use mathlib.Core.Bool.{Bool, true, false}
use mathlib.Core.List.{List, [], ◌∷◌, ◌++◌}
use native.Mathlib.Omega.{arith}
use mathlib.Core.Logic.{inl, inr}
use deepiri_zepgpu.Base.Tests.{if◌then◌else◌, Bool-cases}
use deepiri_zepgpu.Base.Lists.{All}

module _ {ℓ} {A : Type ℓ} where
  -- `[x for x in xs if keep(x)]`
  abbrev pub filter : (A → Bool) → List A → List A
  filter keep [] = []
  filter keep (x ∷ xs) = if keep x then x ∷ filter keep xs else filter keep xs

  -- `le x y` where x may stand ahead of y.
  abbrev pub insert_by : (A → A → Bool) → A → List A → List A
  insert_by le x [] = x ∷ []
  insert_by le x (y ∷ ys) = if le x y then x ∷ y ∷ ys else y ∷ insert_by le x ys

  abbrev pub sort_by : (A → A → Bool) → List A → List A
  sort_by le [] = []
  sort_by le (x ∷ xs) = insert_by le x (sort_by le xs)

  -- Each entry may stand ahead of all that follow.
  abbrev pub SortedBy : (A → A → Bool) → List A → Type ℓ
  SortedBy le [] = Unit
  SortedBy le (x ∷ xs) = All (λ y. le x y ≡ true) xs × SortedBy le xs

  insert_by-head :
      (le : A → A → Bool) (x : A) (xs : List A)
      → All (λ y. le x y ≡ true) xs
      → insert_by le x xs ≡ x ∷ xs
  insert_by-head le x [] h = refl
  insert_by-head le x (y ∷ ys) h = rw (h.0) refl

  -- A sorted list stays as it is.
  pub sort_by-SortedBy : (le : A → A → Bool) (xs : List A) → SortedBy le xs → sort_by le xs ≡ xs
  sort_by-SortedBy le [] h = refl
  sort_by-SortedBy le (x ∷ xs) h = rw (sort_by-SortedBy le xs h.1) (insert_by-head le x xs h.0)

  pub filter-append :
      (keep : A → Bool) (xs ys : List A) → filter keep (xs ++ ys) ≡ filter keep xs ++ filter keep ys
  filter-append keep [] ys = refl
  filter-append keep (x ∷ xs) ys = ground (arith, filter-append keep xs ys)

  -- The order can be decided either way, and is transitive.
  abbrev pub IsOrder : (A → A → Bool) → Type ℓ
  IsOrder le =
      ((x y : A) → le x y ≡ false → le y x ≡ true)
      × ((x y z : A) → le x y ≡ true → le y z ≡ true → le x z ≡ true)

  All-insert_by :
      (le : A → A → Bool) (w x : A) (xs : List A)
      → le w x ≡ true
      → All (λ y. le w y ≡ true) xs
      → All (λ y. le w y ≡ true) (insert_by le x xs)
  All-insert_by le w x [] h all = (h, tt)
  All-insert_by le w x (y ∷ ys) h all = elim (Bool-cases (le x y)) [
    | inl first ↦ rw first (h, all)
    | inr later ↦ rw later (all.0, All-insert_by le w x ys h all.1)
  ]

  All-above :
      (le : A → A → Bool) (x y : A) (ys : List A)
      → IsOrder le
      → le x y ≡ true
      → All (λ z. le y z ≡ true) ys
      → All (λ z. le x z ≡ true) ys
  All-above le x y [] order h all = tt
  All-above le x y (z ∷ zs) order h all = (order.1 x y z h all.0, All-above le x y zs order h all.1)

  insert_by-SortedBy :
      (le : A → A → Bool) (x : A) (xs : List A)
      → IsOrder le
      → SortedBy le xs
      → SortedBy le (insert_by le x xs)
  insert_by-SortedBy le x [] order sorted = (tt, tt)
  insert_by-SortedBy le x (y ∷ ys) order sorted = elim (Bool-cases (le x y)) [
    | inl first ↦ rw first ((first, All-above le x y ys order first sorted.0), sorted)
    | inr later ↦ rw later (
      All-insert_by le y x ys (order.0 x y later) sorted.0,
      insert_by-SortedBy le x ys order sorted.1,
    )
  ]

  -- A sort by an order sorts.
  pub sort_by_sorts : (le : A → A → Bool) (xs : List A) → IsOrder le → SortedBy le (sort_by le xs)
  sort_by_sorts le [] order = tt
  sort_by_sorts le (x ∷ xs) order =
      insert_by-SortedBy le x (sort_by le xs) order (sort_by_sorts le xs order)

  SortedBy-weaken :
      (le weak : A → A → Bool) (xs : List A)
      → ((x y : A) → le x y ≡ true → weak x y ≡ true)
      → SortedBy le xs
      → SortedBy weak xs
  SortedBy-weaken le weak [] imp sorted = tt
  SortedBy-weaken le weak (x ∷ xs) imp sorted =
      (each xs sorted.0, SortedBy-weaken le weak xs imp sorted.1)
    where
      each : (ys : List A) → All (λ y. le x y ≡ true) ys → All (λ y. weak x y ≡ true) ys
      each [] h = tt
      each (y ∷ ys) h = (imp x y h.0, each ys h.1)

  -- A second sort, by a weaker test, changes nothing.
  pub sort_by-sort_by :
      (le weak : A → A → Bool) (xs : List A)
      → IsOrder le
      → ((x y : A) → le x y ≡ true → weak x y ≡ true)
      → sort_by weak (sort_by le xs) ≡ sort_by le xs
  sort_by-sort_by le weak xs order imp =
      sort_by-SortedBy weak (sort_by le xs)
        (SortedBy-weaken le weak (sort_by le xs) imp (sort_by_sorts le xs order))
