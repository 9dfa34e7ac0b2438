-- ===== src/Ledger/LightClient/Unbound.antt =====
-- deepiri_zepgpu/compute_ledger/light_client.py: what the header checks do not look at. The hash of
-- a header is never recomputed from its fields, so the signatures bind none of them.
use deepiri_zepgpu.Base.Int.{pos, ◌+ℤ◌, ℤ}
use deepiri_zepgpu.Ledger.Merkle.{verify_merkle_proof, MerkleProof}
use deepiri_zepgpu.Ledger.LightClient.{
  ChainError, verify_tx_inclusion, verify_sorted, verify_header_signatures, verify_header_chain,
  chain_loop, signature_errors, sort_by_height, insert_by_height, BlockHeader,
}
use deepiri_zepgpu.Base.{
  string_eq, nat_eq, ◌==◌, beq_self, length, All, ℕ, String, ◌≡◌, refl, ap, ◌∙◌, Bool, true, Option,
  none, some, List, [], ◌∷◌, map, arith,
}

-- The header with another Merkle root, and the old hash, signatures and approvals.
abbrev pub with_root : String → BlockHeader → BlockHeader
with_root root header = record header { transactions_root = root }

-- A proof with no steps, of any text, for the root that is this text.
abbrev pub forged_proof : String → MerkleProof
forged_proof leaf = record { leaf = leaf; index = 0; root = leaf; steps = [] }

insert_by_height-with_root :
    (root : String) (h : BlockHeader) (hs : List BlockHeader)
    → insert_by_height (with_root root h) (map (with_root root) hs)
      ≡ map (with_root root) (insert_by_height h hs)
unfolding insert_by_height
insert_by_height-with_root root h [] = refl
insert_by_height-with_root root h (g ∷ gs) = ground (arith, insert_by_height-with_root root h gs)

sort_by_height-with_root :
    (root : String) (hs : List BlockHeader)
    → sort_by_height (map (with_root root) hs) ≡ map (with_root root) (sort_by_height hs)
unfolding sort_by_height
sort_by_height-with_root root [] = refl
sort_by_height-with_root root (h ∷ hs) =
    rw (sort_by_height-with_root root hs) (insert_by_height-with_root root h (sort_by_height hs))

module _ (verify_signature : String → String → String → Bool) (authorized : List String)
    (quorum_threshold : ℕ) where
  signature_errors-with_root :
      (root : String) (h : BlockHeader)
      → signature_errors verify_signature authorized quorum_threshold (with_root root h)
        ≡ signature_errors verify_signature authorized quorum_threshold h
  unfolding signature_errors verify_header_signatures
  signature_errors-with_root root h = refl

  chain_loop-with_root :
      (root : String) (expected : ℤ) (prev : Option String) (hs : List BlockHeader)
      → chain_loop verify_signature authorized quorum_threshold expected prev
          (map (with_root root) hs)
        ≡ chain_loop verify_signature authorized quorum_threshold expected prev hs
  unfolding chain_loop verify_header_signatures
  chain_loop-with_root root expected prev [] = refl
  chain_loop-with_root root expected prev (h ∷ hs) =
      rw (chain_loop-with_root root (expected +ℤ pos 1) (some h.hash) hs)

  verify_sorted-with_root :
      (root genesis : String) (from_height : Option ℤ) (hs : List BlockHeader)
      → (verify_sorted verify_signature authorized quorum_threshold genesis from_height
          (map (with_root root) hs)).valid
        ≡ (verify_sorted verify_signature authorized quorum_threshold genesis from_height hs).valid
  unfolding verify_sorted
  verify_sorted-with_root root genesis from_height [] = refl
  verify_sorted-with_root root genesis from_height (h ∷ hs) =
      ap (λ (errors : List ChainError). length errors == 0)
        (chain_loop-with_root root (elim from_height [ none ↦ h.height | some n ↦ n ]) _ (h ∷ hs))

  verify_header_chain-with_root :
      (root genesis : String) (from_height : Option ℤ) (hs : List BlockHeader)
      → (verify_header_chain verify_signature authorized quorum_threshold genesis from_height
          (map (with_root root) hs)).valid
        ≡ (verify_header_chain verify_signature authorized quorum_threshold genesis from_height
            hs).valid
  unfolding verify_header_chain
  verify_header_chain-with_root root genesis from_height hs =
      rw (verify_header_chain, sort_by_height-with_root root hs)
        (verify_sorted-with_root root genesis from_height (sort_by_height hs))

  with_root-included :
      (sha256_hex : String → String) (leaf : String) (hs : List BlockHeader)
      → All
          (λ h. verify_tx_inclusion sha256_hex h (forged_proof leaf) ≡ true)
          (map (with_root leaf) hs)
  unfolding verify_tx_inclusion verify_merkle_proof
  with_root-included sha256_hex leaf [] = tt
  with_root-included sha256_hex leaf (h ∷ hs) =
      (rw (beq_self leaf), with_root-included sha256_hex leaf hs)

  -- Any text passes for a transaction of any valid header chain: put it for the Merkle root of
  -- each header, and leave heights, hashes and signatures as they are. The chain is as valid as it
  -- was, and `verify_tx_inclusion` accepts the text under each header.
  pub verify_header_chain-unbound :
      (sha256_hex : String → String) (leaf genesis : String) (from_height : Option ℤ)
      (hs : List BlockHeader)
      → (verify_header_chain verify_signature authorized quorum_threshold genesis from_height
          hs).valid
        ≡ true
      → ((verify_header_chain verify_signature authorized quorum_threshold genesis from_height
            (map (with_root leaf) hs)).valid
          ≡ true)
        × All
            (λ h. verify_tx_inclusion sha256_hex h (forged_proof leaf) ≡ true)
            (map (with_root leaf) hs)
  verify_header_chain-unbound sha256_hex leaf genesis from_height hs h = (
    verify_header_chain-with_root leaf genesis from_height hs ∙ h,
    with_root-included sha256_hex leaf hs,
  )
