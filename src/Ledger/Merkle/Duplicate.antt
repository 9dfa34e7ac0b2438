-- ===== src/Ledger/Merkle/Duplicate.antt =====
-- deepiri_zepgpu/compute_ledger/merkle.py: what the duplication of odd nodes identifies.
use deepiri_zepgpu.Base.{
  length, ℕ, zero, suc, ◌%◌, ◌≤◌, ◌<◌, String, ◌≡◌, refl, subst, List, [], ◌∷◌, arith,
}
use deepiri_zepgpu.Ledger.Merkle.{
  cons_cons-pos, next_level-bound, next_level-pos, merkle_root, root_loop,
}
use deepiri_zepgpu.Ledger.Merkle.Levels.{append_last, pad, next_level, length-append_last}

module _ (sha256_hex : String → String) where
  -- The root does not depend on the bound, once it is large enough.
  root_loop-bound :
      (b c : ℕ) (level : List String) (p q : 0 < length level) (h : length level ≤ b)
      (k : length level ≤ c)
      → root_loop sha256_hex b level p h ≡ root_loop sha256_hex c level q k
  unfolding root_loop
  root_loop-bound b c [] p q h k = absurd (omega arith)
  root_loop-bound b c (x ∷ []) p q h k = refl
  root_loop-bound zero c (x ∷ y ∷ rest) p q h k = absurd (omega arith)
  root_loop-bound (suc b) zero (x ∷ y ∷ rest) p q h k = absurd (omega arith)
  root_loop-bound (suc b) (suc c) (x ∷ y ∷ rest) p q h k =
      root_loop-bound b c (next_level sha256_hex (x ∷ y ∷ rest))
        (next_level-pos sha256_hex (x ∷ y ∷ rest) p) (next_level-pos sha256_hex (x ∷ y ∷ rest) q)
        (next_level-bound sha256_hex b (x ∷ y ∷ rest) (cons_cons-pos x y rest) h)
        (next_level-bound sha256_hex c (x ∷ y ∷ rest) (cons_cons-pos x y rest) k)

  root_loop-eq :
      (b c : ℕ) (level other : List String) (p : 0 < length level) (q : 0 < length other)
      (h : length level ≤ b) (k : length other ≤ c)
      → level ≡ other
      → root_loop sha256_hex b level p h ≡ root_loop sha256_hex c other q k
  root_loop-eq b c level other p q h k e =
      subst
        (λ (l : List String).
          (r : 0 < length l) (j : length l ≤ c)
          → root_loop sha256_hex b level p h ≡ root_loop sha256_hex c l r j)
        e (λ r j. root_loop-bound b c level p r h j) q k

  pad-append_last :
      (level : List String) → length level % 2 ≡ 1 → pad (append_last level) ≡ pad level
  unfolding pad
  pad-append_last [] odd = absurd (omega arith)
  pad-append_last (x ∷ rest) odd = ground (arith, length-append_last x rest)

  next_level-append_last :
      (level : List String)
      → length level % 2 ≡ 1
      → next_level sha256_hex (append_last level) ≡ next_level sha256_hex level
  unfolding next_level
  next_level-append_last level odd = rw (pad-append_last level odd)

  -- Two lists of leaves with one root: an odd number of leaves, three or more, and the same leaves
  -- with the last one once more.
  pub merkle_root-append_last :
      (leaves : List String)
      → length leaves % 2 ≡ 1
      → 1 < length leaves
      → merkle_root sha256_hex (append_last leaves) ≡ merkle_root sha256_hex leaves
  unfolding merkle_root root_loop append_last
  merkle_root-append_last [] odd more = absurd (omega arith)
  merkle_root-append_last (x ∷ []) odd more = absurd (omega arith)
  merkle_root-append_last (x ∷ y ∷ []) odd more = absurd (omega arith)
  merkle_root-append_last (x ∷ y ∷ z ∷ rest) odd more =
      root_loop-eq _ _ _ _ _ _ _ _ (next_level-append_last (x ∷ y ∷ z ∷ rest) odd)
