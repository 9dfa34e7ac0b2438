-- ===== src/Ledger/BlockTests.antt =====
-- Blocks of three transactions, under a toy signature: a key signs with its own name.
use deepiri_zepgpu.Ledger.Merkle.Levels.{hash_pair, append_last, pair_level, pad, next_level}
use deepiri_zepgpu.Ledger.Merkle.{merkle_root}
use deepiri_zepgpu.Ledger.LightClient.Wire.{
  exported_header-passes, header_from_dict, header_to_dict,
}
use deepiri_zepgpu.Ledger.LightClient.{BlockHeader}
use deepiri_zepgpu.Ledger.Poa.Malleable.{validate_block-repeat_last, repeat_last}
use deepiri_zepgpu.Ledger.LightClient.{from_block, verify_header_signatures}
use deepiri_zepgpu.Ledger.Poa.Quorum.{
  validate_approvals_iff, IsEndorsed, add_approval-extends, Signed, Distinct, approvers,
}
use deepiri_zepgpu.Ledger.Poa.Valid.{validate_block_sound, checked_block, IsValidBlock}
use deepiri_zepgpu.Ledger.Poa.{
  validate_transaction, validate_transactions, add_approval, validate_approvals, validate_block,
  BlockOptions,
}
use deepiri_zepgpu.Ledger.Block.{
  header_for_hash, compute_hash, leaf_hashes, compute_transactions_root, ensure_proposer_approval,
  ComputeBlock, ValidatorApproval,
}
use deepiri_zepgpu.Ledger.Transaction.{tx_hash, job_submitted, ComputeTransaction, Hashing}
use deepiri_zepgpu.Base.{
  string_eq, nat_eq, ◌==◌, length, elem, ok, ◌+◌, String, ◌≡◌, refl, ◌↔◌, Bool, true, false, none,
  some, [], ◌∷◌, arith,
}
use deepiri_zepgpu.Base.Int.{ℤ, pos}

abbrev toy_hashing : Hashing
toy_hashing = record { canonical_json = λ p. "j"; sha256_hex = λ s. s }

abbrev pub toy_verify : String → String → String → Bool
toy_verify key message signature = signature == key

abbrev toy_tx : ℤ → ComputeTransaction
toy_tx n = record {
  tx_type = job_submitted;
  sender = "ann";
  nonce = n;
  payload = [];
  timestamp = "";
  id = "id";
  signature = "ann";
}

abbrev approved_by : String → ValidatorApproval
approved_by v = record { validator = v; signature = v }

abbrev proposed : ComputeBlock
proposed = record {
  height = pos 1;
  previous_hash = "p";
  transactions = toy_tx (pos 0) ∷ toy_tx (pos 1) ∷ toy_tx (pos 2) ∷ [];
  validator = "v";
  timestamp = "";
  id = "b";
  transactions_root = "jjjj";
  state_root = "";
  hash = "j";
  validator_signature = "v";
  approvals = approved_by "w" ∷ [];
  finalized = true;
}

abbrev accepted : ComputeBlock
accepted = record proposed { approvals = approved_by "w" ∷ approved_by "v" ∷ [] }

abbrev options : BlockOptions
options = record {
  authorized_validators = "v" ∷ "w" ∷ "x" ∷ [];
  expected_previous_hash = some "p";
  expected_height = some (pos 1);
  require_tx_signatures = true;
  quorum_threshold = 2;
  require_quorum = true;
}

validates : validate_block toy_hashing toy_verify options proposed ≡ ok accepted
unfolding validate_block validate_approvals ensure_proposer_approval validate_transactions
    validate_transaction compute_transactions_root leaf_hashes compute_hash header_for_hash
    merkle_root tx_hash next_level pad pair_level append_last hash_pair
validates = refl

validate_block-sound_example :
    IsValidBlock toy_hashing toy_verify options proposed
    × (accepted ≡ checked_block toy_hashing toy_verify options proposed)
validate_block-sound_example =
    validate_block_sound toy_hashing toy_verify options proposed accepted validates

validate_approvals-iff_example :
    (validate_approvals toy_verify ("v" ∷ "w" ∷ []) 2 proposed ≡ ok accepted) ↔ (
      (accepted ≡ ensure_proposer_approval proposed)
      × IsEndorsed toy_verify ("v" ∷ "w" ∷ []) 2 accepted)
validate_approvals-iff_example =
    validate_approvals_iff toy_verify ("v" ∷ "w" ∷ []) 2 proposed accepted

validate_block-repeat_last_example :
    validate_block toy_hashing toy_verify options (repeat_last proposed) ≡ ok (repeat_last accepted)
validate_block-repeat_last_example =
    validate_block-repeat_last toy_hashing toy_verify options proposed accepted refl (omega arith)
      validates

abbrev cosigned : ComputeBlock
cosigned = record accepted { approvals = approved_by "w" ∷ approved_by "v" ∷ approved_by "x" ∷ [] }

approves : add_approval toy_verify "x" "x" options.authorized_validators accepted ≡ ok cosigned
unfolding add_approval
approves = refl

add_approval-extends_example :
    Signed toy_verify options.authorized_validators cosigned.hash cosigned.approvals
    × Distinct (approvers cosigned.approvals)
    × (length cosigned.approvals ≡ length accepted.approvals + 1)
    × (elem "x" (approvers accepted.approvals) ≡ false)
    × (cosigned ≡ record accepted { approvals = cosigned.approvals })
add_approval-extends_example =
    add_approval-extends toy_verify options.authorized_validators "x" "x" accepted cosigned
      ((refl, refl), ((refl, refl), tt)) (refl, (refl, tt)) approves

exported_header-passes_example :
    (header : BlockHeader) × (header_from_dict (λ s. none) (header_to_dict (from_block accepted))
      ≡ ok header)
    × (verify_header_signatures toy_verify options.authorized_validators 2 header ≡ ok tt)
exported_header-passes_example =
    exported_header-passes (λ s. none) toy_hashing toy_verify options proposed accepted refl
      validates
