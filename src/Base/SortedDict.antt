-- ===== src/Base/SortedDict.antt =====
-- A dict whose entries are put in order has the same lookups.
use mathlib.Core.Path.{◌≡◌, refl, sym, ap, subst, ◌∙◌}
use mathlib.Core.Logic.{inl, inr}
use mathlib.Core.Bool.{Bool}
use mathlib.Core.Option.{none, some}
use mathlib.Core.List.{List, [], ◌∷◌}
use native.Mathlib.Omega.{arith}
use deepiri_zepgpu.Base.Tests.{Key, ◌==◌, if◌then◌else◌, Bool-cases, eq_of_beq}
use deepiri_zepgpu.Base.Lists.{All}
use deepiri_zepgpu.Base.Dict.{Dict, lookup, insert, NodupKeys}
use deepiri_zepgpu.Base.Sorting.{insert_by, sort_by}

module _ {ℓ κ} {A : Type ℓ} (P : A → Type κ) (le : A → A → Bool) where
  All-insert_by : (x : A) (xs : List A) → P x → All P xs → All P (insert_by le x xs)
  All-insert_by x [] here each = (here, tt)
  All-insert_by x (y ∷ ys) here each = elim (Bool-cases (le x y)) [
    | inl first ↦ rw first (here, each)
    | inr later ↦ rw later (each.0, All-insert_by x ys here each.1)
  ]

  pub All-sort_by : (xs : List A) → All P xs → All P (sort_by le xs)
  All-sort_by [] each = tt
  All-sort_by (x ∷ xs) each = All-insert_by x (sort_by le xs) each.0 (All-sort_by xs each.1)

module _ {ℓ κ} {K : Type ℓ} {V : Type κ} ⦃e : Key K⦄ where
  pub All-insert {μ} :
      (P : K × V → Type μ) (k : K) (v : V) (d : Dict K V)
      → P (k, v)
      → All P d
      → All P (insert k v d)
  All-insert P k v [] here each = (here, tt)
  All-insert P k v ((j, w) ∷ d) here each = elim (Bool-cases (j == k)) [
    | inl same ↦ rw same (subst (λ i. P (i, v)) (sym (eq_of_beq j k same)) here, each.1)
    | inr other ↦ rw other (each.0, All-insert P k v d here each.1)
  ]

  lookup-insert_by :
      (le : K × V → K × V → Bool) (i k : K) (v : V) (d : Dict K V)
      → lookup k d ≡ none
      → lookup i (insert_by le (k, v) d) ≡ (if k == i then some v else lookup i d)
  lookup-insert_by le i k v [] fresh = refl
  lookup-insert_by le i k v ((j, w) ∷ d) fresh =
      ground (arith, e.same_iff j k, e.same_iff j i, e.same_iff k i, lookup-insert_by le i k v d)

  insert_by-NodupKeys :
      (le : K × V → K × V → Bool) (k : K) (v : V) (d : Dict K V)
      → lookup k d ≡ none
      → NodupKeys d
      → NodupKeys (insert_by le (k, v) d)
  insert_by-NodupKeys le k v [] fresh nodup = (refl, tt)
  insert_by-NodupKeys le k v ((j, w) ∷ d) fresh nodup = ground (
    arith,
    e.same_iff j k,
    e.same_iff k j,
    lookup-insert_by le j k v d,
    insert_by-NodupKeys le k v d,
  )

  pub lookup-sort_by :
      (le : K × V → K × V → Bool) (d : Dict K V)
      → NodupKeys d
      → NodupKeys (sort_by le d) × ((i : K) → lookup i (sort_by le d) ≡ lookup i d)
  lookup-sort_by le [] nodup = (tt, λ i. refl)
  lookup-sort_by le ((k, v) ∷ d) (fresh, nodup) =
      let (sorted, same) = lookup-sort_by le d nodup in
      let fresh' = same k ∙ fresh in
      (
        insert_by-NodupKeys le k v (sort_by le d) fresh' sorted,
        λ i.
            lookup-insert_by le i k v (sort_by le d) fresh'
            ∙ ap (λ o. if k == i then some v else o) (same i),
      )
