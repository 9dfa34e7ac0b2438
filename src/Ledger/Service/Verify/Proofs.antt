-- ===== src/Ledger/Service/Verify/Proofs.antt =====
-- deepiri_zepgpu/compute_ledger/service.py: the proofs of inclusion that the service hands out.
use deepiri_zepgpu.Base.{
  string_eq, nat_eq, ◌==◌, eq_of_beq, Bool-cases, length, get_elem?, elem, ok, ℕ, suc, ◌<◌, String,
  ◌≡◌, refl, sym, ap, ◌∙◌, inl, inr, true, some, List, [], ◌∷◌, arith,
}
use deepiri_zepgpu.Ledger.Merkle.{MerkleProof, verify_merkle_proof}
use deepiri_zepgpu.Ledger.Merkle.Complete.{merkle_proof-verifies}
use deepiri_zepgpu.Ledger.Block.{ComputeBlock, leaf_hashes, compute_transactions_root}
use deepiri_zepgpu.Ledger.LightClient.{from_block, verify_tx_inclusion}
use deepiri_zepgpu.Ledger.Store.{BlockRow, get_block_by_hash}
use deepiri_zepgpu.Ledger.Service.Session.{Session}
use deepiri_zepgpu.Ledger.Service.Setup.{Setup}
use deepiri_zepgpu.Ledger.Service.Propose.{block_to_domain}
use deepiri_zepgpu.Ledger.Service.Verify.{InclusionProof, index_of, prove_in, get_inclusion_proof}

-- An entry that is there is found, at an index in range.
index_of-finds :
    (x : String) (xs : List String)
    → elem x xs ≡ true
    → (i : ℕ) × (index_of x xs ≡ some i) × (i < length xs) × (get_elem? xs i ≡ some x)
unfolding index_of
index_of-finds x [] h = absurd cc
index_of-finds x (y ∷ ys) h = elim (Bool-cases (y == x)) [
  | inl same ↦ (0, rw same refl, omega arith, ap (λ z. some z) (eq_of_beq y x same))
  | inr other ↦
      let (i, found, small, there) = index_of-finds x ys (rw other at h) in
      (suc i, rw (other, found) (ground arith), omega arith, there)
]

-- A proof that verifies, with the root of the header, is what a light client accepts.
verify_tx_inclusion-at_root :
    (sha256_hex : String → String) (block : ComputeBlock) (proof : MerkleProof)
    → proof.root ≡ block.transactions_root
    → verify_merkle_proof sha256_hex proof ≡ true
    → verify_tx_inclusion sha256_hex (from_block block) proof ≡ true
unfolding verify_tx_inclusion from_block
verify_tx_inclusion-at_root sha256_hex block proof same verifies =
    let equal : (proof.root == block.transactions_root) ≡ true =
      (string_eq.same_iff proof.root block.transactions_root).0 same in
    rw equal verifies

module _ (setup : Setup) where
  -- What a good answer is: the proof is of the transaction asked for, the service calls it valid,
  -- and so does a light client that holds the header of the block.
  pub record IsInclusion (tx_hash : String) (block : ComputeBlock) (p : InclusionProof)
      : Type 0 where
    pub leaf : p.proof.leaf ≡ tx_hash
    pub valid : p.valid ≡ true
    pub header : p.block_hash ≡ block.hash
    pub accepted : verify_tx_inclusion setup.hashing.sha256_hex (from_block block) p.proof ≡ true

  prove_in-IsInclusion :
      (tx_hash : String) (block : ComputeBlock) (s : Session)
      → elem tx_hash (leaf_hashes setup.hashing block) ≡ true
      → block.transactions_root ≡ compute_transactions_root setup.hashing block
      → (p : InclusionProof) × (prove_in setup tx_hash block s ≡ (ok p, s))
        × IsInclusion tx_hash block p
  unfolding prove_in compute_transactions_root
  prove_in-IsInclusion tx_hash block s there rooted =
      let leaves = leaf_hashes setup.hashing block in
      let (i, found, small, at_i) = index_of-finds tx_hash leaves there in
      let (proof, built, leaf, root, verifies) =
        merkle_proof-verifies setup.hashing.sha256_hex leaves i small in
      (
        record {
          block_hash = block.hash;
          block_height = block.height;
          transactions_root = block.transactions_root;
          proof = proof;
          valid = verify_merkle_proof setup.hashing.sha256_hex proof;
        },
        rw (prove_in, found, built) refl,
        record {
          leaf = cc;
          valid = verifies;
          header = refl;
          accepted =
              verify_tx_inclusion-at_root setup.hashing.sha256_hex block proof (root ∙ sym rooted)
                verifies;
        },
      )

  -- For a stored block whose root is that of its transactions, and the hash of one of them,
  -- `get_inclusion_proof` returns and changes nothing; the proof is of that transaction, is reported
  -- valid, and passes `verify_tx_inclusion` against the header of the block.
  pub get_inclusion_proof-IsInclusion :
      (block_hash tx_hash : String) (s : Session) (row : BlockRow)
      → get_block_by_hash block_hash s.store ≡ some row
      → elem tx_hash (leaf_hashes setup.hashing (block_to_domain s.store row)) ≡ true
      → row.transactions_root
        ≡ compute_transactions_root setup.hashing (block_to_domain s.store row)
      → (p : InclusionProof) × (get_inclusion_proof setup block_hash tx_hash s ≡ (ok p, s))
        × IsInclusion tx_hash (block_to_domain s.store row) p
  unfolding get_inclusion_proof block_to_domain
  get_inclusion_proof-IsInclusion block_hash tx_hash s row found there rooted =
      let (p, answers, good) =
        prove_in-IsInclusion tx_hash (block_to_domain s.store row) s there rooted in
      (p, rw (get_inclusion_proof, found) answers, good)
