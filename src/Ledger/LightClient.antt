-- ===== src/Ledger/LightClient.antt =====
-- deepiri_zepgpu/compute_ledger/light_client.py: header sync and offline verification.
pub mod Chain
pub mod Agree
pub mod Wire
pub mod Unbound
use deepiri_zepgpu.Ledger.Merkle.{verify_merkle_proof, MerkleProof}
use deepiri_zepgpu.Ledger.Poa.{
  quorum_not_met, invalid_approval, invalid_validator_signature, duplicate_approval, mismatch,
  validator_not_authorized, unauthorized_approval, int_eq, Check, LedgerValidationError,
}
use deepiri_zepgpu.Ledger.Block.{ComputeBlock, ValidatorApproval}
use deepiri_zepgpu.Base.{
  ltb, if◌then◌else◌, string_eq, nat_eq, ◌==◌, length, any, elem, Outcome, ◌>>=◌, ◌>>◌, raise_if,
  ok, raise, ℕ, String, Bool, true, false, not, ◌&&◌, Option, none, some, List, [], ◌∷◌, ◌++◌, map,
}
use deepiri_zepgpu.Base.Int.{ℤ, pos, negsuc, ◌+ℤ◌, leb_ℤ}

-- An approval dictionary; either key may be absent.
pub record HeaderApproval : Type 0 where
  pub validator : Option String
  pub signature : Option String

pub record BlockHeader : Type 0 where
  pub height : ℤ
  pub hash : String
  pub previous_hash : String
  pub timestamp : String
  pub transactions_root : String
  pub state_root : String
  pub validator : String
  pub validator_signature : String
  pub approvals : List HeaderApproval
  pub finalized : Bool

-- `approval.to_dict()`
abbrev pub to_dict : ValidatorApproval → HeaderApproval
to_dict a = record { validator = some a.validator; signature = some a.signature }

-- `BlockHeader.from_block`
unfoldable pub from_block : ComputeBlock → BlockHeader
from_block block = record {
  height = block.height;
  hash = block.hash;
  previous_hash = block.previous_hash;
  timestamp = block.timestamp;
  transactions_root = block.transactions_root;
  state_root = block.state_root;
  validator = block.validator;
  validator_signature = block.validator_signature;
  approvals = map to_dict block.approvals;
  finalized = block.finalized;
}

-- `approval.get(k) or ""`
abbrev pub or_empty : Option String → String
or_empty none = ""
or_empty (some s) = s

-- `a.get("validator") == v`
abbrev pub is_by : String → HeaderApproval → Bool
is_by v a = elim a.validator [ none ↦ false | some w ↦ w == v ]

-- The list `approvals` of `verify_header_signatures`.
unfoldable pub header_approvals : BlockHeader → List HeaderApproval
header_approvals header =
    if any (is_by header.validator) header.approvals
    then header.approvals
    else header.approvals
      ++ record { validator = some header.validator; signature = some header.validator_signature }
        ∷ []

module _ (verify_signature : String → String → String → Bool) where
  -- The `for` loop of `verify_header_signatures`.
  unfoldable pub header_loop :
      List String
      → String
      → List String
      → List HeaderApproval
      → Outcome LedgerValidationError (List String)
  header_loop authorized hash seen [] = ok seen
  header_loop authorized hash seen (approval ∷ approvals) = do
    let v = or_empty approval.validator
    let sig = or_empty approval.signature
    raise_if (not (elem v authorized)) (unauthorized_approval v)
    raise_if (elem v seen) (duplicate_approval v)
    raise_if (not (verify_signature v hash sig)) (invalid_approval v)
    header_loop authorized hash (v ∷ seen) approvals

  unfoldable pub verify_header_signatures : List String → ℕ → BlockHeader → Check
  unfolding header_approvals
  verify_header_signatures authorized quorum_threshold header = do
    raise_if (not (elem header.validator authorized)) validator_not_authorized
    raise_if (not (verify_signature header.validator header.hash header.validator_signature))
        invalid_validator_signature
    seen ← header_loop authorized header.hash [] (header_approvals header)
    raise_if (header.finalized && ltb (length seen) quorum_threshold) quorum_not_met
    ok tt

-- The texts that `verify_header_chain` collects.
pub data ChainError : Type 0 where
  height_gap : (got expected : ℤ) → ChainError
  link_mismatch : (height : ℤ) → ChainError
  header_invalid : (height : ℤ) → LedgerValidationError → ChainError

pub record SyncReport : Type 0 where
  pub valid : Bool
  pub headers : ℕ
  pub tip_hash : Option String
  pub tip_height : ℤ
  pub tip_state_root : Option String
  pub errors : List ChainError

-- `sorted(headers, key=lambda h: h.height)`, which is stable.
unfoldable pub insert_by_height : BlockHeader → List BlockHeader → List BlockHeader
insert_by_height h [] = h ∷ []
insert_by_height h (g ∷ gs) =
    if leb_ℤ h.height g.height then h ∷ g ∷ gs else g ∷ insert_by_height h gs

unfoldable pub sort_by_height : List BlockHeader → List BlockHeader
unfolding insert_by_height
sort_by_height [] = []
sort_by_height (h ∷ hs) = insert_by_height h (sort_by_height hs)

-- `headers[-1]`
abbrev pub last_or : BlockHeader → List BlockHeader → BlockHeader
last_or h [] = h
last_or h (g ∷ gs) = last_or g gs

-- `if test: errors.append(e)`
abbrev pub error_if : Bool → ChainError → List ChainError
error_if true e = e ∷ []
error_if false e = []

module _ (verify_signature : String → String → String → Bool) (authorized : List String)
    (quorum_threshold : ℕ) where
  -- The `try` around `verify_header_signatures`.
  unfoldable pub signature_errors : BlockHeader → List ChainError
  signature_errors header =
      elim (verify_header_signatures verify_signature authorized
        (if header.finalized then quorum_threshold else 1) header) [
          | ok u ↦ []
          | raise e ↦ header_invalid header.height e ∷ []
        ]

  -- The `for` loop of `verify_header_chain`: what it appends to `errors`. `expected` is `start + i`.
  unfoldable pub chain_loop : ℤ → Option String → List BlockHeader → List ChainError
  unfolding signature_errors
  chain_loop expected prev_hash [] = []
  chain_loop expected prev_hash (header ∷ headers) =
      error_if (not (int_eq header.height expected)) (height_gap header.height expected)
      ++ (error_if (mismatch (λ a b. a == b) header.previous_hash prev_hash)
            (link_mismatch header.height)
          ++ (signature_errors header ++ chain_loop (expected +ℤ pos 1) (some header.hash) headers))

  -- `verify_header_chain` behind its sort. (The sort of an empty list is empty.)
  unfoldable pub verify_sorted : String → Option ℤ → List BlockHeader → SyncReport
  unfolding chain_loop
  verify_sorted expected_genesis_prev from_height [] = record {
    valid = true;
    headers = 0;
    tip_hash = none;
    tip_height = negsuc 0;
    tip_state_root = none;
    errors = [];
  }
  verify_sorted expected_genesis_prev from_height (first ∷ rest) =
      let start : ℤ = elim from_height [ none ↦ first.height | some h ↦ h ] in
      let prev_hash = if int_eq start (pos 0) then some expected_genesis_prev else none in
      let errors = chain_loop start prev_hash (first ∷ rest) in
      let tip = last_or first rest in
      record {
        valid = length errors == 0;
        headers = length (first ∷ rest);
        tip_hash = some tip.hash;
        tip_height = tip.height;
        tip_state_root = some tip.state_root;
        errors = errors;
      }

  unfoldable pub verify_header_chain : String → Option ℤ → List BlockHeader → SyncReport
  unfolding verify_sorted sort_by_height
  verify_header_chain expected_genesis_prev from_height headers =
      verify_sorted expected_genesis_prev from_height (sort_by_height headers)

-- `verify_tx_inclusion`
unfoldable pub verify_tx_inclusion : (String → String) → BlockHeader → MerkleProof → Bool
verify_tx_inclusion sha256_hex header proof =
    if proof.root == header.transactions_root then verify_merkle_proof sha256_hex proof else false
