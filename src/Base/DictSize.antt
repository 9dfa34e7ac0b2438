-- ===== src/Base/DictSize.antt =====
-- The number of entries of a dict, and which keys an assignment or a deletion leaves.
use mathlib.Core.Path.{◌≡◌, refl, subst}
use mathlib.Core.Logic.{inl, inr}
use mathlib.Core.Option.{none, some}
use mathlib.Core.Bool.{true, false, ◌||◌}
use mathlib.Core.List.{[], ◌∷◌}
use Prim.Native.Nat.{suc, ◌≤◌, ◌<◌}
use native.Mathlib.Omega.{arith}
use deepiri_zepgpu.Base.Tests.{Key, ◌==◌, Bool-cases, eq_of_beq}
use deepiri_zepgpu.Base.Lists.{length}
use deepiri_zepgpu.Base.Dict.{Dict, lookup, insert, erase, contains, lookup-insert}

module _ {ℓ κ} {K : Type ℓ} {V : Type κ} ⦃e : Key K⦄ where
  pub length-insert_new :
      (k : K) (v : V) (d : Dict K V) → lookup k d ≡ none → length (insert k v d) ≡ suc (length d)
  length-insert_new k v [] h = refl
  length-insert_new k v ((i, w) ∷ d) h = ground (arith, length-insert_new k v d)

  pub length-insert_old :
      (k : K) (v w : V) (d : Dict K V) → lookup k d ≡ some w → length (insert k v d) ≡ length d
  length-insert_old k v w [] h = absurd cc
  length-insert_old k v w ((i, x) ∷ d) h = ground (arith, length-insert_old k v w d)

  pub length-erase :
      (k : K) (w : V) (d : Dict K V) → lookup k d ≡ some w → suc (length (erase k d)) ≡ length d
  length-erase k w [] h = absurd cc
  length-erase k w ((i, x) ∷ d) h = ground (arith, length-erase k w d)

  pub contains-insert :
      (j k : K) (v : V) (d : Dict K V) → contains j (insert k v d) ≡ ((k == j) || contains j d)
  contains-insert j k v d = ground (arith, lookup-insert j k v d)

  pub contains-insert_old :
      (j k : K) (v w : V) (d : Dict K V)
      → lookup k d ≡ some w
      → contains j (insert k v d) ≡ contains j d
  contains-insert_old j k v w d there = elim (Bool-cases (k == j)) [
    | inl same_key ↦
        let at_j : lookup j d ≡ some w =
          subst (λ i. lookup i d ≡ some w) (eq_of_beq k j same_key) there in
        rw (lookup-insert j k v d, same_key, at_j) refl
    | inr other ↦ rw (lookup-insert j k v d, other) refl
  ]

  pub contains-erase :
      (j k : K) (d : Dict K V) → contains j (erase k d) ≡ true → contains j d ≡ true
  contains-erase j k [] h = h
  contains-erase j k ((i, x) ∷ d) h = ground (arith, contains-erase j k d)

  pub lookup-contains : (k : K) (d : Dict K V) → contains k d ≡ false → lookup k d ≡ none
  lookup-contains k d h = ground arith

  pub length-insert_le : (k : K) (v : V) (d : Dict K V) → length (insert k v d) ≤ suc (length d)
  length-insert_le k v [] = omega arith
  length-insert_le k v ((i, x) ∷ d) = ground (arith, length-insert_le k v d)

  pub length-insert_pos : (k : K) (v : V) (d : Dict K V) → 0 < length (insert k v d)
  length-insert_pos k v [] = omega arith
  length-insert_pos k v ((i, x) ∷ d) = ground arith
