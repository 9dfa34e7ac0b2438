-- ===== src/Ledger/Block.antt =====
-- deepiri_zepgpu/compute_ledger/block.py. `Signing` stands for the Ed25519 signatures of keys.py,
-- which a third-party package computes.
use deepiri_zepgpu.Ledger.Merkle.{merkle_root}
use deepiri_zepgpu.Ledger.Json.{str, num, Payload}
use deepiri_zepgpu.Ledger.Transaction.{tx_hash, Hashing, ComputeTransaction}
use deepiri_zepgpu.Base.{
  if◌then◌else◌, string_eq, nat_eq, ◌==◌, any, String, Bool, List, [], ◌∷◌, ◌++◌, map,
}
use deepiri_zepgpu.Base.Int.{ℤ}

pub record ValidatorApproval : Type 0 where
  pub validator : String
  pub signature : String

pub record ComputeBlock : Type 0 where
  pub height : ℤ
  pub previous_hash : String
  pub transactions : List ComputeTransaction
  pub validator : String
  pub timestamp : String
  pub id : String
  pub transactions_root : String
  pub state_root : String
  pub hash : String
  pub validator_signature : String
  pub approvals : List ValidatorApproval
  pub finalized : Bool

-- `GENESIS_PREV_HASH`
abbrev pub genesis_prev_hash : String
genesis_prev_hash = "0000000000000000000000000000000000000000000000000000000000000000"

unfoldable pub header_for_hash : ComputeBlock → Payload
header_for_hash block =
    ("height", num block.height)
    ∷ ("previous_hash", str block.previous_hash)
    ∷ ("timestamp", str block.timestamp)
    ∷ ("transactions_root", str block.transactions_root)
    ∷ ("state_root", str block.state_root)
    ∷ ("validator", str block.validator)
    ∷ []

unfoldable pub ensure_proposer_approval : ComputeBlock → ComputeBlock
ensure_proposer_approval block =
    if block.validator_signature == ""
    then block
    else if any (λ a. a.validator == block.validator) block.approvals
    then block
    else record block {
      approvals =
          block.approvals
          ++ record { validator = block.validator; signature = block.validator_signature } ∷ [];
    }

module _ (hashing : Hashing) where
  unfoldable pub leaf_hashes : ComputeBlock → List String
  leaf_hashes block = map (tx_hash hashing) block.transactions

  unfoldable pub compute_transactions_root : ComputeBlock → String
  compute_transactions_root block = merkle_root hashing.sha256_hex (leaf_hashes block)

  unfoldable pub compute_hash : ComputeBlock → String
  compute_hash block = hashing.sha256_hex (hashing.canonical_json (header_for_hash block))
