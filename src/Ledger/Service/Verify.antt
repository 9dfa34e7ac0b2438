-- ===== src/Ledger/Service/Verify.antt =====
-- deepiri_zepgpu/compute_ledger/service.py: the operations that check the chain and export it.
pub mod Proofs
pub mod History
use deepiri_zepgpu.Base.Int.{leb_ℤ, ltb_ℤ, negsuc, ◌+ℤ◌, pos, ℤ}
use deepiri_zepgpu.Base.{
  if◌then◌else◌, string_eq, nat_eq, ◌==◌, length, Outcome, ok, raise, ℕ, ◌+◌, max, String, Bool,
  true, not, ◌&&◌, Option, none, some, List, [], ◌∷◌, ◌++◌, map,
}
use deepiri_zepgpu.Ledger.Merkle.{merkle_proof, verify_merkle_proof, MerkleProof}
use deepiri_zepgpu.Ledger.Transaction.{ComputeTransaction}
use deepiri_zepgpu.Ledger.Block.{ComputeBlock, genesis_prev_hash, leaf_hashes}
use deepiri_zepgpu.Ledger.Poa.{validate_block, BlockOptions, LedgerValidationError}
use deepiri_zepgpu.Ledger.Replay.{replay_transactions}
use deepiri_zepgpu.Ledger.Replay.Listing.{to_list}
use deepiri_zepgpu.Ledger.Replay.Monad.{CreditBalance, CreditState, fresh_state, ReplayError}
use deepiri_zepgpu.Ledger.LightClient.{BlockHeader, from_block, verify_header_chain, SyncReport}
use deepiri_zepgpu.Ledger.Store.{
  Store, BlockRow, get_tip, get_block_by_hash, list_all_blocks_ascending,
}
use deepiri_zepgpu.Ledger.Service.Session.{
  or_raise, proof_failed, block_not_found, transaction_not_in_block, Action, pure, lift, query,
  ◌>>=◌, ◌>>◌,
}
use deepiri_zepgpu.Ledger.Service.Setup.{Setup, quorum_threshold}
use deepiri_zepgpu.Ledger.Service.Propose.{block_to_domain, active_keys, root_of}
use deepiri_zepgpu.Ledger.Service.Handlers.{ensure_initialized}

-- The texts that `verify_chain` collects.
pub data ChainFault : Type 0 where
  block_refused : ℤ → LedgerValidationError → ChainFault
  replay_failed : ReplayError → ChainFault

-- What `verify_chain` returns, but for the fields of the service itself.
pub record ChainReport : Type 0 where
  pub valid : Bool
  pub block_count : ℕ
  pub tip_height : ℤ
  pub tip_hash : Option String
  pub state_root : String
  pub errors : List ChainFault
  pub balances : List CreditBalance

-- `leaves.index(tx_hash)`; `none` where it raises ValueError.
unfoldable pub index_of : String → List String → Option ℕ
index_of x [] = none
index_of x (y ∷ ys) =
    let rest = index_of x ys in
    if y == x then some 0 else elim rest [ none ↦ none | some i ↦ some (i + 1) ]

-- What `get_inclusion_proof` returns.
pub record InclusionProof : Type 0 where
  pub block_hash : String
  pub block_height : ℤ
  pub transactions_root : String
  pub proof : MerkleProof
  pub valid : Bool

-- The `try` around `replay_transactions`: the state and what it appends to `errors`.
abbrev pub replay_or_empty : Outcome ReplayError CreditState → CreditState × List ChainFault
replay_or_empty (ok state) = (state, [])
replay_or_empty (raise e) = (fresh_state, replay_failed e ∷ [])

module _ (setup : Setup) where
  -- What the loop of `verify_chain` asks of a block.
  unfoldable pub history_options : List String → String → ℤ → ComputeBlock → BlockOptions
  history_options validators prev_hash expected_height block = record {
    authorized_validators = validators;
    expected_previous_hash = some prev_hash;
    expected_height = some expected_height;
    require_tx_signatures = true;
    quorum_threshold = if block.finalized then max 1 (length block.approvals) else 1;
    require_quorum = block.finalized;
  }

  -- The `try` in the loop: what it appends to `errors`.
  unfoldable pub block_faults : List String → String → ℤ → ComputeBlock → List ChainFault
  unfolding history_options
  block_faults validators prev_hash expected_height block =
      elim (validate_block setup.hashing setup.verify_signature
        (history_options validators prev_hash expected_height block) block) [
          | ok checked ↦ []
          | raise e ↦ block_refused expected_height e ∷ []
        ]

  -- The loop of `verify_chain`: `errors` and `all_txs`.
  unfoldable pub history_loop :
      List String → String → ℤ → List ComputeBlock → List ChainFault × List ComputeTransaction
  unfolding block_faults
  history_loop validators prev_hash expected_height [] = ([], [])
  history_loop validators prev_hash expected_height (block ∷ blocks) =
      let (errors, txs) = history_loop validators block.hash (expected_height +ℤ pos 1) blocks in
      (
        block_faults validators prev_hash expected_height block ++ errors,
        if block.finalized then block.transactions ++ txs else txs,
      )

  -- `verify_chain` behind its queries.
  unfoldable pub chain_report : List String → Option BlockRow → List ComputeBlock → ChainReport
  unfolding history_loop
  chain_report validators tip blocks =
      let (faults, txs) = history_loop validators genesis_prev_hash (pos 0) blocks in
      let (state, replay_faults) = replay_or_empty (replay_transactions setup.py txs) in
      record {
        valid = length (faults ++ replay_faults) == 0;
        block_count = length blocks;
        tip_height = elim tip [ none ↦ negsuc 0 | some b ↦ b.height ];
        tip_hash = elim tip [ none ↦ none | some b ↦ some b.hash ];
        state_root = root_of setup state;
        errors = faults ++ replay_faults;
        balances = to_list state;
      }

  -- The rows of all blocks, ascending, as blocks.
  abbrev pub all_blocks : Store → List ComputeBlock
  all_blocks s = map (block_to_domain s) (list_all_blocks_ascending s)

  -- `verify_chain` on a chain that has its first block.
  unfoldable pub verify_started : Action ChainReport
  verify_started = do
    blocks ← query all_blocks
    validators ← query active_keys
    tip ← query (get_tip true)
    pure (chain_report validators tip blocks)

  unfoldable pub verify_chain : Action ChainReport
  verify_chain = ensure_initialized setup >> verify_started

  -- `get_inclusion_proof` on a block that was found.
  unfoldable pub prove_in : String → ComputeBlock → Action InclusionProof
  unfolding index_of
  prove_in tx_hash block =
      let leaves = leaf_hashes setup.hashing block in
      do
        index ← or_raise (index_of tx_hash leaves) transaction_not_in_block
        proof ← lift proof_failed (merkle_proof setup.hashing.sha256_hex leaves index)
        pure (record {
          block_hash = block.hash;
          block_height = block.height;
          transactions_root = block.transactions_root;
          proof = proof;
          valid = verify_merkle_proof setup.hashing.sha256_hex proof;
        })

  unfoldable pub get_inclusion_proof : String → String → Action InclusionProof
  unfolding prove_in
  get_inclusion_proof block_hash tx_hash = do
    row ← query (get_block_by_hash block_hash)
    r ← or_raise row block_not_found
    block ← query (λ s. block_to_domain s r)
    prove_in tx_hash block

  -- The loop of `export_headers`: `count` headers are out already.
  unfoldable pub header_rows : ℤ → ℤ → Bool → ℕ → Store → List BlockRow → List BlockHeader
  header_rows from_height limit finalized_only count s [] = []
  header_rows from_height limit finalized_only count s (row ∷ rows) =
      let skip = header_rows from_height limit finalized_only count s rows in
      let more = header_rows from_height limit finalized_only (count + 1) s rows in
      if ltb_ℤ row.height from_height
      then skip
      else if finalized_only && not row.finalized
      then skip
      else from_block (block_to_domain s row) ∷ (if leb_ℤ limit (pos (count + 1)) then [] else more)

  unfoldable pub export_headers : ℤ → ℤ → Bool → Action (List BlockHeader)
  unfolding header_rows
  export_headers from_height limit finalized_only = do
    ensure_initialized setup
    query (λ s. header_rows from_height limit finalized_only 0 s (list_all_blocks_ascending s))

  unfoldable pub verify_headers_payload : List BlockHeader → Option ℤ → Action SyncReport
  verify_headers_payload headers from_height = do
    ensure_initialized setup
    validators ← query active_keys
    pure (
        verify_header_chain setup.verify_signature validators (quorum_threshold setup)
          genesis_prev_hash from_height headers)
