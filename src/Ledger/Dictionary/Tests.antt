-- ===== src/Ledger/Dictionary/Tests.antt =====
-- Dictionaries of a block and of a proof, and dictionaries that are refused.
use deepiri_zepgpu.Base.Dict.{erase}
use deepiri_zepgpu.Base.Int.{ℤ, pos}
use deepiri_zepgpu.Base.{
  string_eq, nat_eq, ok, raise, String, ◌≡◌, refl, true, Option, none, [], ◌∷◌,
}
use deepiri_zepgpu.Ledger.Json.{str, num, null}
use deepiri_zepgpu.Ledger.Merkle.{MerkleProof}
use deepiri_zepgpu.Ledger.Transaction.{TxType, ComputeTransaction}
use deepiri_zepgpu.Ledger.Block.{ComputeBlock, genesis_prev_hash}
use deepiri_zepgpu.Ledger.Dictionary.{
  DictError, block_from_dict, block_to_dict, proof_from_dict, proof_to_dict, write_items,
  step_to_dict, transaction_from_dict, transaction_to_dict,
}
use deepiri_zepgpu.Ledger.Dictionary.RoundTrip.{block_from_dict-to_dict}

abbrev no_int : String → Option ℤ
no_int s = none

abbrev job : ComputeTransaction
job = record {
  tx_type = TxType.job_completed;
  sender = "ann";
  nonce = pos 3;
  payload = ("gpu_seconds", num (pos 5)) ∷ [];
  timestamp = "then";
  id = "job";
  signature = "";
}

abbrev block : ComputeBlock
block = record {
  height = pos 0;
  previous_hash = genesis_prev_hash;
  transactions = job ∷ job ∷ [];
  validator = "relay";
  timestamp = "now";
  id = "b";
  transactions_root = "r";
  state_root = "";
  hash = "h";
  validator_signature = "s";
  approvals = record { validator = "relay"; signature = "s" } ∷ [];
  finalized = true;
}

abbrev proof : MerkleProof
proof = record {
  leaf = "l";
  index = 1;
  root = "r";
  steps = record { hash = "x"; position = "left" } ∷ [];
}

no_sender :
    transaction_from_dict no_int (erase "sender" (transaction_to_dict job))
    ≡ raise DictError.key_error
unfolding transaction_from_dict transaction_to_dict
no_sender = refl

bad_type :
    transaction_from_dict no_int (("id", str "job") ∷ ("tx_type", str "JOB") ∷ [])
    ≡ raise DictError.value_error
unfolding transaction_from_dict
bad_type = refl

bad_nonce :
    transaction_from_dict no_int (
      ("id", str "job")
      ∷ ("tx_type", str "BRIDGE_BURN")
      ∷ ("sender", str "ann")
      ∷ ("nonce", null)
      ∷ [])
    ≡ raise DictError.type_error
unfolding transaction_from_dict
bad_nonce = refl

block_from_dict-to_dict_example : block_from_dict no_int "new" (block_to_dict block) ≡ ok block
block_from_dict-to_dict_example = block_from_dict-to_dict no_int "new" block

proof_read_back : proof_from_dict no_int (proof_to_dict proof) ≡ ok proof
unfolding proof_from_dict proof_to_dict write_items step_to_dict
proof_read_back = refl
