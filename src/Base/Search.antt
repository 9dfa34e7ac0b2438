-- ===== src/Base/Search.antt =====
-- Whether a list has an entry of a kind, through a selection, a sort and a dict.
use mathlib.Core.Path.{◌≡◌, refl}
use mathlib.Core.Bool.{Bool, true, ◌&&◌, ◌||◌}
use mathlib.Core.Option.{some}
use mathlib.Core.List.{List, [], ◌∷◌}
use Prim.Native.Nat.{suc}
use native.Mathlib.Omega.{arith}
use deepiri_zepgpu.Base.Tests.{Key}
use deepiri_zepgpu.Base.Lists.{length, any}
use deepiri_zepgpu.Base.Dict.{Dict, lookup, values}
use deepiri_zepgpu.Base.Sorting.{filter, insert_by, sort_by}

module _ {ℓ} {A : Type ℓ} where
  pub any-filter :
      (found keep : A → Bool) (xs : List A)
      → any (λ x. keep x && found x) xs ≡ true
      → any found (filter keep xs) ≡ true
  any-filter found keep [] h = h
  any-filter found keep (x ∷ xs) h = ground (arith, any-filter found keep xs)

  any-insert_by :
      (found : A → Bool) (le : A → A → Bool) (x : A) (xs : List A)
      → any found (insert_by le x xs) ≡ (found x || any found xs)
  any-insert_by found le x [] = refl
  any-insert_by found le x (y ∷ ys) = ground (arith, any-insert_by found le x ys)

  pub any-sort_by :
      (found : A → Bool) (le : A → A → Bool) (xs : List A)
      → any found (sort_by le xs) ≡ any found xs
  any-sort_by found le [] = refl
  any-sort_by found le (x ∷ xs) =
      ground (arith, any-insert_by found le x (sort_by le xs), any-sort_by found le xs)

  length-insert_by :
      (le : A → A → Bool) (x : A) (xs : List A) → length (insert_by le x xs) ≡ suc (length xs)
  length-insert_by le x [] = refl
  length-insert_by le x (y ∷ ys) = ground (arith, length-insert_by le x ys)

  pub length-sort_by : (le : A → A → Bool) (xs : List A) → length (sort_by le xs) ≡ length xs
  length-sort_by le [] = refl
  length-sort_by le (x ∷ xs) =
      ground (arith, length-insert_by le x (sort_by le xs), length-sort_by le xs)

module _ {ℓ κ} {K : Type ℓ} {V : Type κ} ⦃e : Key K⦄ where
  pub any-values :
      (found : V → Bool) (k : K) (v : V) (d : Dict K V)
      → lookup k d ≡ some v
      → found v ≡ true
      → any found (values d) ≡ true
  any-values found k v [] h is = ground arith
  any-values found k v ((j, w) ∷ d) h is = ground (arith, any-values found k v d)
