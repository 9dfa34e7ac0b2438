-- ===== src/Ledger/Poa.antt =====
-- deepiri_zepgpu/compute_ledger/poa.py: proof-of-authority validation. `verify_signature` of
-- keys.py (Ed25519 of a third-party package) is a parameter: key, message, signature.
use deepiri_zepgpu.Ledger.Block.{
  compute_hash, compute_transactions_root, ensure_proposer_approval, ComputeBlock,
  ValidatorApproval,
}
use deepiri_zepgpu.Ledger.Transaction.{signing_payload, ComputeTransaction, Hashing}
pub mod Quorum
pub mod Valid
pub mod Malleable
use deepiri_zepgpu.Base.{
  ltb, if◌then◌else◌, string_eq, nat_eq, ◌==◌, length, any, elem, Outcome, ◌>>=◌, ◌>>◌, raise_if,
  ok, ℕ, String, Bool, false, not, ◌&&◌, ◌||◌, Option, none, some, List, [], ◌∷◌, ◌++◌,
}
use deepiri_zepgpu.Base.Int.{leb_ℤ, ℤ, pos, ltb_ℤ}

-- `LedgerValidationError`, by the message.
pub data LedgerValidationError : Type 0 where
  missing_id_or_sender negative_nonce signature_required invalid_signature : LedgerValidationError
  bad_threshold proposer_missing quorum_not_met : LedgerValidationError
  unauthorized_approval duplicate_approval invalid_approval : String → LedgerValidationError
  unexpected_height previous_hash_mismatch validator_not_authorized : LedgerValidationError
  transactions_root_mismatch hash_mismatch : LedgerValidationError
  validator_signature_required invalid_validator_signature already_approved : LedgerValidationError

abbrev pub Check : Type 0
Check = Outcome LedgerValidationError (Unit {0})

-- `if expected is not None and actual != expected`
abbrev pub mismatch {ℓ} : {A : Type ℓ} → (A → A → Bool) → A → Option A → Bool
mismatch eq actual none = false
mismatch eq actual (some expected) = not (eq actual expected)

module _ (verify_signature : String → String → String → Bool) where
  -- The `for` loop of `validate_approvals`; the set `seen` is a list of distinct entries.
  unfoldable pub approvals_loop :
      List String
      → String
      → List String
      → List ValidatorApproval
      → Outcome LedgerValidationError (List String)
  approvals_loop authorized hash seen [] = ok seen
  approvals_loop authorized hash seen (approval ∷ approvals) = do
    raise_if (not (elem approval.validator authorized)) (unauthorized_approval approval.validator)
    raise_if (elem approval.validator seen) (duplicate_approval approval.validator)
    raise_if (not (verify_signature approval.validator hash approval.signature))
        (invalid_approval approval.validator)
    approvals_loop authorized hash (approval.validator ∷ seen) approvals

  -- The block comes back with the proposer's approval, which the call appends.
  unfoldable pub validate_approvals :
      List String → ℕ → ComputeBlock → Outcome LedgerValidationError ComputeBlock
  unfolding approvals_loop
  validate_approvals authorized quorum_threshold block = do
    raise_if (ltb quorum_threshold 1) bad_threshold
    let block' = ensure_proposer_approval block
    seen ← approvals_loop authorized block'.hash [] block'.approvals
    raise_if (not (elem block'.validator seen)) proposer_missing
    raise_if (ltb (length seen) quorum_threshold) quorum_not_met
    ok block'

  unfoldable pub add_approval :
      String → String → List String → ComputeBlock → Outcome LedgerValidationError ComputeBlock
  add_approval validator_public_key signature authorized block = do
    raise_if (not (elem validator_public_key authorized)) validator_not_authorized
    raise_if (not (verify_signature validator_public_key block.hash signature)) invalid_signature
    raise_if (any (λ a. a.validator == validator_public_key) block.approvals) already_approved
    ok (record block {
      approvals =
          block.approvals
          ++ record { validator = validator_public_key; signature = signature } ∷ [];
    })

module _ (hashing : Hashing) (verify_signature : String → String → String → Bool) where
  -- The body of `if require_signature:`
  unfoldable pub check_tx_signature : ComputeTransaction → Check
  check_tx_signature tx = do
    raise_if (tx.signature == "") signature_required
    raise_if
        (not
          (verify_signature tx.sender (hashing.canonical_json (signing_payload tx)) tx.signature))
        invalid_signature

  unfoldable pub validate_transaction : Bool → ComputeTransaction → Check
  unfolding check_tx_signature
  validate_transaction require_signature tx = do
    raise_if (tx.id == "" || tx.sender == "") missing_id_or_sender
    raise_if (ltb_ℤ tx.nonce (pos 0)) negative_nonce
    (if require_signature then check_tx_signature tx else ok tt)

  unfoldable pub validate_transactions : Bool → List ComputeTransaction → Check
  validate_transactions require_signature [] = ok tt
  validate_transactions require_signature (tx ∷ txs) = do
    validate_transaction require_signature tx
    validate_transactions require_signature txs

-- The keyword arguments of `validate_block`.
pub record BlockOptions : Type 0 where
  pub authorized_validators : List String
  pub expected_previous_hash : Option String
  pub expected_height : Option ℤ
  pub require_tx_signatures : Bool
  pub quorum_threshold : ℕ
  pub require_quorum : Bool

abbrev pub int_eq : ℤ → ℤ → Bool
int_eq a b = leb_ℤ a b && leb_ℤ b a

module _ (hashing : Hashing) (verify_signature : String → String → String → Bool) where
  unfoldable pub validate_block :
      BlockOptions → ComputeBlock → Outcome LedgerValidationError ComputeBlock
  validate_block o block = do
    raise_if (mismatch int_eq block.height o.expected_height) unexpected_height
    raise_if (mismatch (λ a b. a == b) block.previous_hash o.expected_previous_hash)
        previous_hash_mismatch
    raise_if (not (elem block.validator o.authorized_validators)) validator_not_authorized
    raise_if (not (block.transactions_root == compute_transactions_root hashing block))
        transactions_root_mismatch
    raise_if (not (block.hash == compute_hash hashing block)) hash_mismatch
    raise_if (block.validator_signature == "") validator_signature_required
    raise_if (not (verify_signature block.validator block.hash block.validator_signature))
        invalid_validator_signature
    block' ←
        if o.require_quorum || block.finalized
        then validate_approvals verify_signature o.authorized_validators o.quorum_threshold block
        else ok block
    validate_transactions hashing verify_signature o.require_tx_signatures block'.transactions
    ok block'
