-- ===== src/Ledger/Merkle/Size.antt =====
-- deepiri_zepgpu/compute_ledger/merkle.py: how long the proofs are.
use deepiri_zepgpu.Base.{
  leb, Bool-cases, length, length-append, >>=-eq-ok, ok, ℕ, zero, suc, ◌+◌, ◌*◌, ◌/◌, ◌^◌, ◌≤◌, ◌<◌,
  String, ◌≡◌, sym, ap, ◌∙◌, inl, inr, List, [], ◌∷◌, ◌++◌, arith,
}
use deepiri_zepgpu.Ledger.Merkle.{
  le-length, cons-pos, MerkleProof, merkle_proof, at, MerkleProofStep, sibling_step, proof_loop,
  next_level-pos, next_level-bound, cons_cons-pos,
}
use deepiri_zepgpu.Ledger.Merkle.Levels.{pad, next_level, length-next_level}

-- A tree of depth `k` has room for `n` leaves, and one of depth `k - 1` has not.
abbrev pub IsDepth : ℕ → ℕ → Type 0
IsDepth k n = (n ≤ 2 ^ k) × (2 ^ k < 2 * n)

-- The depth over a level is one more than over the next.
IsDepth-next : (k n : ℕ) → 1 < n → IsDepth k ((n + 1) / 2) → IsDepth (suc k) n
IsDepth-next zero n big (fits, tight) = omega arith
IsDepth-next (suc k) n big (fits, tight) = omega arith

module _ (sha256_hex : String → String) where
  proof_loop-IsDepth :
      (bound : ℕ) (level : List String) (idx : ℕ) (steps : List MerkleProofStep)
      (p : 0 < length level) (h : length level ≤ bound) (root : String)
      (all_steps : List MerkleProofStep)
      → proof_loop sha256_hex bound level idx steps p h ≡ ok (root, all_steps)
      → (k : ℕ) × (length all_steps ≡ length steps + k) × IsDepth k (length level)
  unfolding proof_loop
  proof_loop-IsDepth bound [] idx steps p h root all_steps ran = absurd (omega arith)
  proof_loop-IsDepth bound (x ∷ []) idx steps p h root all_steps ran =
      (0, ground arith, omega arith)
  proof_loop-IsDepth zero (x ∷ y ∷ rest) idx steps p h root all_steps ran = absurd (omega arith)
  proof_loop-IsDepth (suc bound) (x ∷ y ∷ rest) idx steps p h root all_steps ran =
      let level : List String = x ∷ y ∷ rest in
      let (step, _, more) =
        >>=-eq-ok (sibling_step sha256_hex (pad level) idx)
          (λ step.
            proof_loop sha256_hex bound (next_level sha256_hex level) (idx / 2) (steps ++ step ∷ [])
              (next_level-pos sha256_hex level p)
              (next_level-bound sha256_hex bound level (cons_cons-pos x y rest) h))
          ran in
      let (k, longer, deep) =
        proof_loop-IsDepth bound (next_level sha256_hex level) (idx / 2) (steps ++ step ∷ []) _ _
          root all_steps more in
      (
        suc k,
        omega (arith, longer, length-append steps (step ∷ [])),
        IsDepth-next k (length level) (cons_cons-pos x y rest)
            (rw (length-next_level sha256_hex level) at deep),
      )

  -- A proof that `merkle_proof` returns for one of `n` leaves has as many steps as a tree of `n` leaves
  -- has levels above them: of the numbers `k`, the one with n ≤ 2 ^ k < 2 * n.
  pub merkle_proof-IsDepth :
      (leaves : List String) (index : ℕ) (proof : MerkleProof)
      → merkle_proof sha256_hex leaves index ≡ ok proof
      → (length leaves ≤ 2 ^ length proof.steps) × (2 ^ length proof.steps < 2 * length leaves)
  unfolding merkle_proof
  merkle_proof-IsDepth [] index proof ran = cc
  merkle_proof-IsDepth (x ∷ xs) index proof ran = elim (Bool-cases (leb (length (x ∷ xs)) index)) [
    | inl out ↦ absurd (cc (rw out at ran))
    | inr within ↦
        let (leaf, _, ran1) = >>=-eq-ok (at (x ∷ xs) index) _ (rw within at ran) in
        let (result, looped, built) =
          >>=-eq-ok
            (proof_loop sha256_hex (length (x ∷ xs)) (x ∷ xs) index [] (cons-pos x xs)
              (le-length (x ∷ xs)))
            _ ran1 in
        let (k, long, deep) =
          proof_loop-IsDepth (length (x ∷ xs)) (x ∷ xs) index [] (cons-pos x xs)
            (le-length (x ∷ xs)) result.0 result.1 looped in
        let same : result.1 ≡ proof.steps = ground (arith, built) in
        let long' : length proof.steps ≡ k = ap length (sym same) ∙ omega (arith, long) in
        rw long' deep
  ]
