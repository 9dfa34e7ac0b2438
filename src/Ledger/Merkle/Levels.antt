-- ===== src/Ledger/Merkle/Levels.antt =====
-- deepiri_zepgpu/compute_ledger/merkle.py: one round over a level of the tree.
use Prim.Native.String.{◌++◌ as ◌+ₛ◌}
use deepiri_zepgpu.Base.{
  if◌then◌else◌, string_eq, nat_eq, ◌==◌, length, ◌+◌, ◌/◌, ◌%◌, String, ◌≡◌, refl, List, [], ◌∷◌,
  arith,
}

-- `level.append(level[-1])`
unfoldable pub append_last {ℓ} : {A : Type ℓ} → List A → List A
append_last [] = []
append_last (x ∷ []) = x ∷ x ∷ []
append_last (x ∷ y ∷ rest) = x ∷ append_last (y ∷ rest)

-- `if len(level) % 2 == 1: level.append(level[-1])`
unfoldable pub pad : List String → List String
unfolding append_last
pad level = if length level % 2 == 1 then append_last level else level

pub length-append_last :
    (x : String) (xs : List String) → length (append_last (x ∷ xs)) ≡ length xs + 2
unfolding append_last
length-append_last x [] = refl
length-append_last x (y ∷ rest) = omega (arith, length-append_last y rest)

append_last-cons :
    (x y : String) (rest : List String)
    → length rest % 2 ≡ 1
    → append_last (x ∷ y ∷ rest) ≡ x ∷ y ∷ append_last rest
unfolding append_last
append_last-cons x y [] h = absurd (omega arith)
append_last-cons x y (z ∷ rest) h = refl

-- Padding leaves the first two entries of a longer level alone.
pub pad-cons : (x y : String) (rest : List String) → pad (x ∷ y ∷ rest) ≡ x ∷ y ∷ pad rest
unfolding pad
pad-cons x y rest = ground (arith, append_last-cons x y rest)

module _ (sha256_hex : String → String) where
  unfoldable pub hash_pair : String → String → String
  hash_pair left right = sha256_hex (left +ₛ right)

  -- The inner `for i in range(0, len(level), 2)`, over a level of even length.
  unfoldable pub pair_level : List String → List String
  pair_level [] = []
  pair_level (x ∷ []) = []
  pair_level (x ∷ y ∷ rest) = hash_pair x y ∷ pair_level rest

  -- One round of the `while` loops.
  unfoldable pub next_level : List String → List String
  next_level level = pair_level (pad level)

  pub next_level-nil : next_level [] ≡ []
  unfolding next_level pad pair_level append_last
  next_level-nil = refl

  pub next_level-one : (x : String) → next_level (x ∷ []) ≡ hash_pair x x ∷ []
  unfolding next_level pad pair_level append_last
  next_level-one x = refl

  pub next_level-cons :
      (x y : String) (rest : List String)
      → next_level (x ∷ y ∷ rest) ≡ hash_pair x y ∷ next_level rest
  unfolding next_level
  next_level-cons x y rest = rw pad-cons (unfold pair_level in refl)

  pub length-next_level : (level : List String) → length (next_level level) ≡ (length level + 1) / 2
  length-next_level [] = rw next_level-nil (omega arith)
  length-next_level (x ∷ []) = rw next_level-one (omega arith)
  length-next_level (x ∷ y ∷ rest) = rw next_level-cons (omega (arith, length-next_level rest))
