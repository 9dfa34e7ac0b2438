-- ===== src/Ledger/Dictionary/RoundTrip.antt =====
-- deepiri_zepgpu/compute_ledger/transaction.py, block.py and merkle.py: what is read back of a
-- dictionary.
use deepiri_zepgpu.Base.Int.{ℤ}
use deepiri_zepgpu.Base.{
  string_eq, Outcome, ok, String, ◌≡◌, refl, Option, some, List, [], ◌∷◌, arith,
}
use deepiri_zepgpu.Ledger.Json.{str, arr, obj, Payload, to_fields, payload_of-to_fields}
use deepiri_zepgpu.Ledger.Merkle.{MerkleProof, MerkleProofStep}
use deepiri_zepgpu.Ledger.Transaction.{TxType, ComputeTransaction, type_value}
use deepiri_zepgpu.Ledger.Block.{ComputeBlock, ValidatorApproval}
use deepiri_zepgpu.Ledger.Dictionary.{
  DictError, text_or_empty, payload_or_empty, write_items, read_items, read_list, tx_type_of,
  transaction_to_dict, approval_to_dict, block_to_dict, step_to_dict, proof_to_dict,
  approval_from_dict, step_from_dict, transaction_from_dict, block_from_dict, proof_from_dict,
}

text_or_empty-str : (s : String) → text_or_empty (some (str s)) ≡ ok s
unfolding text_or_empty
text_or_empty-str s = ground (arith, string_eq.same_iff s "")

payload_or_empty-obj : (p : Payload) → payload_or_empty (some (obj (to_fields p))) ≡ ok p
unfolding payload_or_empty
payload_or_empty-obj [] = refl
payload_or_empty-obj ((k, v) ∷ p) = rw (payload_of-to_fields p) refl

tx_type_of-type_value : (t : TxType) → tx_type_of (str (type_value t)) ≡ ok t
unfolding tx_type_of
tx_type_of-type_value TxType.job_submitted = refl
tx_type_of-type_value TxType.job_assigned = refl
tx_type_of-type_value TxType.job_completed = refl
tx_type_of-type_value TxType.credit_settled = refl
tx_type_of-type_value TxType.validator_registered = refl
tx_type_of-type_value TxType.bridge_burn = refl
tx_type_of-type_value TxType.bridge_mint = refl

module _ {A : Type 0} (write : A → Payload) (read : Payload → Outcome DictError A)
    (back : (x : A) → read (write x) ≡ ok x) where
  read_items-write_items : (xs : List A) → read_items read (write_items write xs) ≡ ok xs
  unfolding read_items write_items
  read_items-write_items [] = refl
  read_items-write_items (x ∷ xs) =
      rw (payload_of-to_fields (write x), back x, read_items-write_items xs) refl

  pub read_list-write_items :
      (xs : List A) → read_list read (some (arr (write_items write xs))) ≡ ok xs
  unfolding read_list write_items
  read_list-write_items [] = refl
  read_list-write_items (x ∷ xs) = read_items-write_items (x ∷ xs)

approval_from_dict-to_dict :
    (a : ValidatorApproval) → approval_from_dict (approval_to_dict a) ≡ ok a
unfolding approval_from_dict approval_to_dict
approval_from_dict-to_dict a = refl

step_from_dict-to_dict : (s : MerkleProofStep) → step_from_dict (step_to_dict s) ≡ ok s
unfolding step_from_dict step_to_dict
step_from_dict-to_dict s = refl

module _ (parse_int : String → Option ℤ) where
  pub transaction_from_dict-to_dict :
      (tx : ComputeTransaction) → transaction_from_dict parse_int (transaction_to_dict tx) ≡ ok tx
  unfolding transaction_from_dict transaction_to_dict
  transaction_from_dict-to_dict tx =
      rw
        (
          tx_type_of-type_value tx.tx_type,
          payload_or_empty-obj tx.payload,
          text_or_empty-str tx.signature,
        )
        refl

  -- A block is read back from its dictionary as it was, with its transactions and approvals, whatever
  -- Python makes of numbers in texts.
  pub block_from_dict-to_dict :
      (new_id : String) (b : ComputeBlock)
      → block_from_dict parse_int new_id (block_to_dict b) ≡ ok b
  unfolding block_from_dict block_to_dict
  block_from_dict-to_dict new_id b =
      rw
        (
          read_list-write_items transaction_to_dict (transaction_from_dict parse_int)
              transaction_from_dict-to_dict b.transactions,
          read_list-write_items approval_to_dict approval_from_dict approval_from_dict-to_dict
              b.approvals,
          text_or_empty-str b.transactions_root,
          text_or_empty-str b.state_root,
          text_or_empty-str b.hash,
          text_or_empty-str b.validator_signature,
        )
        refl

  -- A proof of inclusion is read back from its dictionary as it was.
  pub proof_from_dict-to_dict :
      (p : MerkleProof) → proof_from_dict parse_int (proof_to_dict p) ≡ ok p
  unfolding proof_from_dict proof_to_dict
  proof_from_dict-to_dict p =
      rw (read_list-write_items step_to_dict step_from_dict step_from_dict-to_dict p.steps) refl
