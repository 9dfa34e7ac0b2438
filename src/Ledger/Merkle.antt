-- ===== src/Ledger/Merkle.antt =====
-- deepiri_zepgpu/compute_ledger/merkle.py. The digest `sha256_hex` of hashing.py (hashlib) is a
-- parameter. The `while len(level) > 1` loops recur on a bound for the length of the level, with a
-- proof of it, so they have no outcome that the program lacks.
pub mod Levels
pub mod Complete
pub mod Sound
pub mod Duplicate
pub mod Size
mod Tests
use deepiri_zepgpu.Base.{
  leb, if◌then◌else◌, string_eq, nat_eq, ◌==◌, length, get_elem?, Outcome, ◌>>=◌, ok, raise, ℕ,
  zero, suc, ◌+◌, ◌-◌, ◌/◌, ◌%◌, ◌≤◌, ◌<◌, String, Bool, false, Option, none, some, List, [], ◌∷◌,
  ◌++◌, arith,
}
use deepiri_zepgpu.Ledger.Merkle.Levels.{pad, hash_pair, next_level, length-next_level}

-- ValueError and IndexError.
pub data MerkleError : Type 0 where
  value_error index_error : MerkleError

-- A sibling hash, and its position relative to the running hash, "left" or "right".
pub record MerkleProofStep : Type 0 where
  pub hash : String
  pub position : String

pub record MerkleProof : Type 0 where
  pub leaf : String
  pub index : ℕ
  pub root : String
  pub steps : List MerkleProofStep

-- `level[i]`
abbrev pub at : List String → ℕ → Outcome MerkleError String
at level i = elim (get_elem? level i) [ none ↦ raise index_error | some x ↦ ok x ]

-- `"0" * 64`
abbrev pub zero_hash : String
zero_hash = "0000000000000000000000000000000000000000000000000000000000000000"

pub cons-pos : (x : String) (xs : List String) → 0 < length (x ∷ xs)
cons-pos x xs = omega arith

pub cons_cons-pos : (x y : String) (rest : List String) → 1 < length (x ∷ y ∷ rest)
cons_cons-pos x y rest = omega arith

pub le-length : (level : List String) → length level ≤ length level
le-length level = omega arith

module _ (sha256_hex : String → String) where
  pub next_level-pos :
      (level : List String) → 0 < length level → 0 < length (next_level sha256_hex level)
  next_level-pos level h = omega (arith, length-next_level sha256_hex level)

  pub next_level-bound :
      (bound : ℕ) (level : List String)
      → 1 < length level
      → length level ≤ suc bound
      → length (next_level sha256_hex level) ≤ bound
  next_level-bound bound level p h = omega (arith, length-next_level sha256_hex level)

  -- The loop of `merkle_root`, and `return level[0]`.
  unfoldable pub root_loop :
      (bound : ℕ) (level : List String) → 0 < length level → length level ≤ bound → String
  root_loop bound [] p h = absurd (omega arith)
  root_loop bound (x ∷ []) p h = x
  root_loop zero (x ∷ y ∷ rest) p h = absurd (omega arith)
  root_loop (suc bound) (x ∷ y ∷ rest) p h =
      root_loop bound (next_level sha256_hex (x ∷ y ∷ rest)) (next_level-pos (x ∷ y ∷ rest) p)
        (next_level-bound bound (x ∷ y ∷ rest) (cons_cons-pos x y rest) h)

  unfoldable pub merkle_root : List String → String
  unfolding root_loop
  merkle_root [] = zero_hash
  merkle_root (x ∷ xs) = root_loop (length (x ∷ xs)) (x ∷ xs) (cons-pos x xs) (le-length (x ∷ xs))

  -- The `if idx % 2 == 0` of `merkle_proof`: the step that a round appends.
  unfoldable pub sibling_step : List String → ℕ → Outcome MerkleError MerkleProofStep
  sibling_step level idx =
      if idx % 2 == 0
      then (do sibling ← at level (idx + 1); ok (record { hash = sibling; position = "right" }))
      else (do sibling ← at level (idx - 1); ok (record { hash = sibling; position = "left" }))

  -- The loop of `merkle_proof`: the final `level[0]` and `steps`.
  unfoldable pub proof_loop :
      (bound : ℕ) (level : List String) (idx : ℕ) (steps : List MerkleProofStep)
      → 0 < length level
      → length level ≤ bound
      → Outcome MerkleError (String × List MerkleProofStep)
  proof_loop bound [] idx steps p h = absurd (omega arith)
  proof_loop bound (x ∷ []) idx steps p h = ok (x, steps)
  proof_loop zero (x ∷ y ∷ rest) idx steps p h = absurd (omega arith)
  proof_loop (suc bound) (x ∷ y ∷ rest) idx steps p h =
      sibling_step (pad (x ∷ y ∷ rest)) idx >>= λ step.
      proof_loop bound (next_level sha256_hex (x ∷ y ∷ rest)) (idx / 2) (steps ++ step ∷ [])
        (next_level-pos (x ∷ y ∷ rest) p)
        (next_level-bound bound (x ∷ y ∷ rest) (cons_cons-pos x y rest) h)

  -- The index is a natural number, so the test `index < 0` has nothing to refuse.
  unfoldable pub merkle_proof : List String → ℕ → Outcome MerkleError MerkleProof
  unfolding proof_loop sibling_step
  merkle_proof [] index = raise value_error
  merkle_proof (x ∷ xs) index = if leb (length (x ∷ xs)) index then raise index_error else (do
    leaf ← at (x ∷ xs) index
    result ← proof_loop (length (x ∷ xs)) (x ∷ xs) index [] (cons-pos x xs) (le-length (x ∷ xs))
    ok (record { leaf = leaf; index = index; root = result.0; steps = result.1 }))

  -- The loop of `verify_merkle_proof`; `none` is its `return False`.
  unfoldable pub run_steps : String → List MerkleProofStep → Option String
  run_steps running [] = some running
  run_steps running (step ∷ steps) =
      let right = run_steps (hash_pair sha256_hex running step.hash) steps in
      let left = run_steps (hash_pair sha256_hex step.hash running) steps in
      if step.position == "right" then right else if step.position == "left" then left else none

  unfoldable pub verify_merkle_proof : MerkleProof → Bool
  unfolding run_steps
  verify_merkle_proof proof = elim (run_steps proof.leaf proof.steps) [
    | none ↦ false
    | some running ↦ running == proof.root
  ]
