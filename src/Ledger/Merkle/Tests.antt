-- ===== src/Ledger/Merkle/Tests.antt =====
-- The Merkle tree on small inputs, with the identity, or a digest of two values, for the digest.
use deepiri_zepgpu.Ledger.Merkle.Duplicate.{merkle_root-append_last}
use deepiri_zepgpu.Ledger.Merkle.Size.{merkle_proof-IsDepth}
use deepiri_zepgpu.Ledger.Merkle.Sound.{hashed, verify_merkle_proof_sound, Collision}
use deepiri_zepgpu.Ledger.Merkle.Complete.{merkle_proof-verifies}
use deepiri_zepgpu.Ledger.Merkle.Levels.{pair_level, pad, hash_pair, append_last, next_level}
use deepiri_zepgpu.Ledger.Merkle.{
  verify_merkle_proof, zero_hash, merkle_proof, MerkleProof, merkle_root,
}
use Prim.Native.String.{count}
use deepiri_zepgpu.Base.{
  if◌then◌else◌, string_eq, nat_eq, ◌==◌, Bool-cases, get_elem?, ok, ◌*◌, ◌^◌, ◌≤◌, ◌<◌, String,
  ◌≡◌, refl, ◌⊎◌, inl, inr, true, some, List, [], ◌∷◌, arith,
}

abbrev plain_text : String → String
plain_text s = s

abbrev three : List String
three = "a" ∷ "b" ∷ "c" ∷ []

merkle_root-three : merkle_root plain_text three ≡ "abcc"
unfolding merkle_root next_level pad pair_level append_last hash_pair
merkle_root-three = refl

abbrev third_proof : MerkleProof
third_proof = record {
  leaf = "c";
  index = 2;
  root = "abcc";
  steps =
      record { hash = "c"; position = "right" } ∷ record { hash = "ab"; position = "left" } ∷ [];
}

merkle_proof-three : merkle_proof plain_text three 2 ≡ ok third_proof
unfolding merkle_proof next_level pad pair_level append_last hash_pair
merkle_proof-three = refl

merkle_proof-verifies_example :
    (proof : MerkleProof) × (merkle_proof plain_text three 2 ≡ ok proof)
    × (get_elem? three 2 ≡ some proof.leaf)
    × (proof.root ≡ merkle_root plain_text three)
    × (verify_merkle_proof plain_text proof ≡ true)
merkle_proof-verifies_example = merkle_proof-verifies plain_text three 2 (omega arith)

merkle_proof-IsDepth_example : (3 ≤ 2 ^ 2) × (2 ^ 2 < 2 * 3)
unfolding merkle_proof next_level pad pair_level append_last hash_pair
merkle_proof-IsDepth_example = merkle_proof-IsDepth plain_text three 2 third_proof refl

merkle_root-append_last_example :
    merkle_root plain_text (append_last three) ≡ merkle_root plain_text three
merkle_root-append_last_example = merkle_root-append_last plain_text three refl (omega arith)

abbrev one_hash : String
one_hash = "1111111111111111111111111111111111111111111111111111111111111111"

-- A digest of 64 characters.
digest : String → String
digest s = if s == "" then one_hash else zero_hash

count-digest : (s : String) → count (digest s) ≡ 64
unfolding digest
count-digest s = elim (Bool-cases (s == "")) [ inl e ↦ rw e | inr e ↦ rw e ]

abbrev pair : List String
pair = zero_hash ∷ one_hash ∷ []

abbrev pair_proof : MerkleProof
pair_proof = record {
  leaf = zero_hash;
  index = 0;
  root = zero_hash;
  steps = record { hash = one_hash; position = "right" } ∷ [];
}

merkle_proof-pair : merkle_proof digest pair 0 ≡ ok pair_proof
unfolding merkle_proof next_level pad pair_level append_last hash_pair digest
merkle_proof-pair = refl

merkle_root-pair : zero_hash ≡ merkle_root digest pair
unfolding merkle_root next_level pad pair_level append_last hash_pair digest
merkle_root-pair = refl

verify-pair : verify_merkle_proof digest pair_proof ≡ true
unfolding verify_merkle_proof hash_pair digest
verify-pair = refl

verify_merkle_proof-sound_example :
    (get_elem? pair 0 ≡ some zero_hash)
    ⊎ Collision digest
        (hashed digest zero_hash pair_proof.steps)
        (hashed digest zero_hash pair_proof.steps)
verify_merkle_proof-sound_example =
    verify_merkle_proof_sound digest count-digest pair 0 pair_proof pair_proof (refl, (refl, tt))
      merkle_proof-pair (omega arith) (refl, tt) refl merkle_root-pair verify-pair
