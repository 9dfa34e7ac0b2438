-- ===== src/Ledger/Merkle/Complete.antt =====
-- deepiri_zepgpu/compute_ledger/merkle.py: the proofs that `merkle_proof` builds.
use mathlib.Core.List.{append-nil, append_assoc}
use deepiri_zepgpu.Base.{
  leb, string_eq, nat_eq, ◌==◌, beq_self, Bool-cases, length, get_elem?, ok, ℕ, zero, suc, ◌+◌, ◌-◌,
  ◌/◌, ◌%◌, ◌≤◌, ◌<◌, String, ◌≡◌, refl, ◌∙◌, ◌≢◌, inl, inr, true, false, some, List, [], ◌∷◌, ◌++◌,
  arith,
}
use deepiri_zepgpu.Ledger.Merkle.{
  cons_cons-pos, MerkleProof, MerkleProofStep, at, next_level-pos, cons-pos, le-length,
  next_level-bound, root_loop, merkle_root, sibling_step, proof_loop, merkle_proof, run_steps,
  verify_merkle_proof,
}
use deepiri_zepgpu.Ledger.Merkle.Levels.{
  append_last, pair_level, pad, pad-cons, hash_pair, next_level, next_level-cons,
}

module _ (sha256_hex : String → String) where
  -- What one round does to the entry `x` at `idx`: the step's sibling leads to the parent.
  abbrev Climbs : List String → ℕ → String → Type 0
  Climbs level idx x =
      (step : MerkleProofStep) × (sibling_step sha256_hex (pad level) idx ≡ ok step)
      × (parent : String) × (get_elem? (next_level sha256_hex level) (idx / 2) ≡ some parent)
      × ((steps : List MerkleProofStep)
          → run_steps sha256_hex x (step ∷ steps) ≡ run_steps sha256_hex parent steps)

  even-suc-suc : (i : ℕ) → suc (suc i) % 2 ≡ i % 2
  even-suc-suc i = omega arith

  half-suc-suc : (i : ℕ) → suc (suc i) / 2 ≡ suc (i / 2)
  half-suc-suc i = omega arith

  at-sub_one :
      (x y : String) (level : List String) (i : ℕ)
      → i % 2 ≢ 0
      → at (x ∷ y ∷ level) (suc (suc i) - 1) ≡ at level (i - 1)
  at-sub_one x y level zero h = absurd (omega arith)
  at-sub_one x y level (suc i) h =
      let e : suc (suc (suc i)) - 1 ≡ suc (suc i) = omega arith in
      let e' : suc i - 1 ≡ i = omega arith in rw (e, e')

  at-add_one :
      (x y : String) (level : List String) (i : ℕ)
      → at (x ∷ y ∷ level) (suc (suc i) + 1) ≡ at level (i + 1)
  at-add_one x y level i = let e : suc (suc i) + 1 ≡ suc (suc (i + 1)) = omega arith in rw e

  sibling_step-suc-suc :
      (x y : String) (level : List String) (i : ℕ)
      → sibling_step sha256_hex (x ∷ y ∷ level) (suc (suc i)) ≡ sibling_step sha256_hex level i
  unfolding sibling_step
  sibling_step-suc-suc x y level i = elim (Bool-cases (i % 2 == 0)) [
    | inl e ↦ rw (even-suc-suc i, e, at-add_one x y level i)
    | inr e ↦ rw (even-suc-suc i, e, at-sub_one x y level i (ground arith))
  ]

  climbs :
      (level : List String) (idx : ℕ) (x : String)
      → get_elem? level idx ≡ some x
      → Climbs level idx x
  unfolding sibling_step next_level pair_level pad append_last run_steps
  climbs [] idx x h = cc
  climbs (a ∷ []) zero x h =
      (record { hash = a; position = "right" }, refl, hash_pair sha256_hex a a, refl, λ steps. cc)
  climbs (a ∷ []) (suc i) x h = cc
  climbs (a ∷ b ∷ rest) zero x h = (
    record { hash = b; position = "right" },
    rw pad-cons refl,
    hash_pair sha256_hex a b,
    rw next_level-cons refl,
    λ steps. cc,
  )
  climbs (a ∷ b ∷ rest) (suc zero) x h = (
    record { hash = a; position = "left" },
    rw pad-cons refl,
    hash_pair sha256_hex a b,
    rw next_level-cons refl,
    λ steps. cc,
  )
  climbs (a ∷ b ∷ rest) (suc (suc i)) x h =
      let (step, found, parent, above, run) = climbs rest i x h in
      (
        step,
        rw (pad-cons, sibling_step-suc-suc) found,
        parent,
        rw (next_level-cons, half-suc-suc) above,
        run,
      )

  -- From the entry `x` at `idx` the loop ends, with the root of `root_loop`, and the steps that
  -- it appends lead from `x` to that root.
  abbrev Proves :
      (bound : ℕ) (level : List String)
      → 0 < length level
      → length level ≤ bound
      → ℕ
      → String
      → List MerkleProofStep
      → Type 0
  Proves bound level p h idx x steps =
      (rest : List MerkleProofStep) × (proof_loop sha256_hex bound level idx steps p h
        ≡ ok (root_loop sha256_hex bound level p h, steps ++ rest))
      × (run_steps sha256_hex x rest ≡ some (root_loop sha256_hex bound level p h))

  proof_loop-Proves :
      (bound : ℕ) (level : List String) (p : 0 < length level) (h : length level ≤ bound) (idx : ℕ)
      (x : String) (steps : List MerkleProofStep)
      → get_elem? level idx ≡ some x
      → Proves bound level p h idx x steps
  unfolding proof_loop root_loop run_steps
  proof_loop-Proves bound [] p h idx x steps e = cc
  proof_loop-Proves bound (a ∷ []) p h zero x steps e = ([], rw append-nil refl, cc)
  proof_loop-Proves bound (a ∷ []) p h (suc i) x steps e = cc
  proof_loop-Proves zero (a ∷ b ∷ rest) p h idx x steps e = absurd (omega arith)
  proof_loop-Proves (suc bound) (a ∷ b ∷ rest) p h idx x steps e =
      let (step, found, parent, above, run) = climbs (a ∷ b ∷ rest) idx x e in
      let (more, ends, leads) =
        proof_loop-Proves bound (next_level sha256_hex (a ∷ b ∷ rest))
          (next_level-pos sha256_hex (a ∷ b ∷ rest) p)
          (next_level-bound sha256_hex bound (a ∷ b ∷ rest) (cons_cons-pos a b rest) h) (idx / 2)
          parent (steps ++ step ∷ []) above in
      (step ∷ more, rw found (rw append_assoc at ends), run more ∙ leads)

  get_elem?-some :
      {A : Type 0} (xs : List A) (i : ℕ) → i < length xs → (x : A) × (get_elem? xs i ≡ some x)
  get_elem?-some [] i h = absurd (omega arith)
  get_elem?-some (x ∷ xs) zero h = (x, refl)
  get_elem?-some (x ∷ xs) (suc i) h = get_elem?-some xs i (omega arith)

  -- Every leaf has a proof: for an index in range `merkle_proof` returns, the proof names the leaf
  -- at the index and the root of `merkle_root`, and `verify_merkle_proof` accepts it.
  pub merkle_proof-verifies :
      (leaves : List String) (index : ℕ)
      → index < length leaves
      → (proof : MerkleProof) × (merkle_proof sha256_hex leaves index ≡ ok proof)
        × (get_elem? leaves index ≡ some proof.leaf)
        × (proof.root ≡ merkle_root sha256_hex leaves)
        × (verify_merkle_proof sha256_hex proof ≡ true)
  unfolding merkle_proof merkle_root verify_merkle_proof
  merkle_proof-verifies [] index h = absurd (omega arith)
  merkle_proof-verifies (a ∷ rest) index h =
      let (x, e) = get_elem?-some (a ∷ rest) index h in
      let (steps, ends, leads) =
        proof_loop-Proves (length (a ∷ rest)) (a ∷ rest) (cons-pos a rest) (le-length (a ∷ rest))
          index x [] e in
      let inside : leb (length (a ∷ rest)) index ≡ false = ground arith in
      (
        record { leaf = x; index = index; root = merkle_root sha256_hex (a ∷ rest); steps = steps },
        rw (inside, e, at, ends),
        e,
        refl,
        rw (leads, verify_merkle_proof) (beq_self {A = String} _),
      )
