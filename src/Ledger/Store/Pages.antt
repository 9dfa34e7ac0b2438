-- ===== src/Ledger/Store/Pages.antt =====
-- deepiri_zepgpu/database/repositories/ledger_repository.py: the pages of `list_blocks`.
use deepiri_zepgpu.Base.{
  Bool-cases, length, ℕ, zero, suc, ◌+◌, ◌*◌, ◌≤◌, ◌≡◌, refl, ap, inl, inr, Bool, List, [], ◌∷◌,
  ◌++◌, arith,
}
use mathlib.Core.List.{Perm}
use mathlib.Core.List.Perm
use deepiri_zepgpu.Base.Sorting.{sort_by_sorts, SortedBy, IsOrder, sort_by, insert_by}
use deepiri_zepgpu.Ledger.Store.{higher_first, BlockRow, Store}
use deepiri_zepgpu.Ledger.Store.Listings.{limit, offset, list_blocks}

-- What a reader has after `count` pages of `size`, from `past` on.
abbrev pub read_pages : ℕ → ℕ → ℕ → Store → List BlockRow
read_pages size zero past s = []
read_pages size (suc count) past s =
    list_blocks size past s ++ read_pages size count (past + size) s

module _ {A : Type 0} where
  limit-nil : (n : ℕ) → limit {A = A} n [] ≡ []
  limit-nil zero = refl
  limit-nil (suc n) = refl

  offset-nil : (n : ℕ) → offset {A = A} n [] ≡ []
  offset-nil zero = refl
  offset-nil (suc n) = refl

  limit-offset : (m n : ℕ) (xs : List A) → limit m xs ++ limit n (offset m xs) ≡ limit (m + n) xs
  limit-offset zero n xs = let same : n ≡ 0 + n = omega arith in ap (λ k. limit k xs) same
  limit-offset (suc m) n [] =
      let same : suc m + n ≡ suc (m + n) = omega arith in rw same (limit-nil n)
  limit-offset (suc m) n (x ∷ xs) =
      let same : suc m + n ≡ suc (m + n) = omega arith in
      rw same (ap (λ ys. x ∷ ys) (limit-offset m n xs))

  offset-offset : (m n : ℕ) (xs : List A) → offset n (offset m xs) ≡ offset (m + n) xs
  offset-offset zero n xs = let same : n ≡ 0 + n = omega arith in ap (λ k. offset k xs) same
  offset-offset (suc m) n [] =
      let same : suc m + n ≡ suc (m + n) = omega arith in rw same (offset-nil n)
  offset-offset (suc m) n (x ∷ xs) =
      let same : suc m + n ≡ suc (m + n) = omega arith in rw same (offset-offset m n xs)

  limit-all : (n : ℕ) (xs : List A) → length xs ≤ n → limit n xs ≡ xs
  limit-all zero [] h = refl
  limit-all zero (x ∷ xs) h = absurd (omega (arith, h))
  limit-all (suc n) [] h = refl
  limit-all (suc n) (x ∷ xs) h = ap (λ ys. x ∷ ys) (limit-all n xs (omega (arith, h)))

  insert_by-Perm : (le : A → A → Bool) (x : A) (xs : List A) → Perm (insert_by le x xs) (x ∷ xs)
  insert_by-Perm le x [] = Perm.refl _
  insert_by-Perm le x (y ∷ ys) = elim (Bool-cases (le x y)) [
    | inl first ↦ rw first (Perm.refl _)
    | inr later ↦ rw later (Perm.trans (Perm.cons y (insert_by-Perm le x ys)) (Perm.swap x y ys))
  ]

  sort_by-Perm : (le : A → A → Bool) (xs : List A) → Perm (sort_by le xs) xs
  sort_by-Perm le [] = Perm.refl _
  sort_by-Perm le (x ∷ xs) =
      Perm.trans (insert_by-Perm le x (sort_by le xs)) (Perm.cons x (sort_by-Perm le xs))

  length-insert_by :
      (le : A → A → Bool) (x : A) (xs : List A) → length (insert_by le x xs) ≡ suc (length xs)
  length-insert_by le x [] = refl
  length-insert_by le x (y ∷ ys) = elim (Bool-cases (le x y)) [
    | inl first ↦ rw first refl
    | inr later ↦ rw (later, length-insert_by le x ys) refl
  ]

  length-sort_by : (le : A → A → Bool) (xs : List A) → length (sort_by le xs) ≡ length xs
  length-sort_by le [] = refl
  length-sort_by le (x ∷ xs) = rw (length-insert_by le x (sort_by le xs), length-sort_by le xs) refl

read_pages-limit :
    (size count past : ℕ) (s : Store)
    → read_pages size count past s
      ≡ limit (count * size) (offset past (sort_by higher_first s.blocks))
unfolding list_blocks
read_pages-limit size zero past s =
    let nothing : 0 ≡ 0 * size = omega arith in
    ap (λ k. limit k (offset past (sort_by higher_first s.blocks))) nothing
read_pages-limit size (suc count) past s =
    let rest = read_pages-limit size count (past + size) s in
    let sorted = sort_by higher_first s.blocks in
    let after = offset-offset past size sorted in
    let joined = limit-offset size (count * size) (offset past sorted) in
    let most : suc count * size ≡ size + count * size = omega arith in
    rw (most, rest, ← after) joined

higher_first-IsOrder : IsOrder higher_first
higher_first-IsOrder = (λ x y h. ground arith, λ x y z h k. ground arith)

-- Where `count` pages of `size` cover the blocks of the chain, reading them one after the other gives
-- each block once, and in descending order of their heights.
pub read_pages-all :
    (size count : ℕ) (s : Store)
    → length s.blocks ≤ count * size
    → SortedBy higher_first (read_pages size count 0 s) × Perm (read_pages size count 0 s) s.blocks
read_pages-all size count s enough =
    let sorted = sort_by higher_first s.blocks in
    let whole =
      limit-all (count * size) sorted (rw (length-sort_by higher_first s.blocks) enough) in
    rw (read_pages-limit size count 0 s, whole)
      (sort_by_sorts higher_first s.blocks higher_first-IsOrder, sort_by-Perm higher_first s.blocks)
