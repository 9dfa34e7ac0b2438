-- ===== src/Ledger/Service/Approve.antt =====
-- deepiri_zepgpu/compute_ledger/service.py: approvals of a block that waits for its quorum, and the
-- balances rebuilt from the finalized transactions.
use deepiri_zepgpu.Ledger.Transaction.{ComputeTransaction}
use deepiri_zepgpu.Base.{leb, if◌then◌else◌, length, String, true, false, none, List, ◌++◌, map}
use deepiri_zepgpu.Ledger.Block.{ComputeBlock}
use deepiri_zepgpu.Ledger.Poa.{validate_block, add_approval}
use deepiri_zepgpu.Ledger.Replay.{replay_transactions}
use deepiri_zepgpu.Ledger.Replay.Listing.{to_list}
use deepiri_zepgpu.Ledger.Replay.Monad.{CreditBalance}
use deepiri_zepgpu.Ledger.Store.{
  get_block_by_hash, list_sealed_transactions, update_block_approvals, replace_balances,
}
use deepiri_zepgpu.Ledger.Service.Session.{
  or_raise, refused, replay_failed, block_not_found, already_finalized, Action, pure, lift, query,
  throw_if, write, try_write, commit, ◌>>=◌, ◌>>◌,
}
use deepiri_zepgpu.Ledger.Service.Setup.{Setup, quorum_threshold, validator_keys}
use deepiri_zepgpu.Ledger.Service.Propose.{block_to_domain, active_keys}
use deepiri_zepgpu.Ledger.Service.Handlers.{ensure_initialized}

module _ (setup : Setup) where
  -- The transactions of the finalized blocks, in order.
  abbrev pub finalized_transactions : Action (List ComputeTransaction)
  finalized_transactions = query (λ s. map (λ r. r.tx) (list_sealed_transactions true s))

  -- The branch of `approve_block` where the quorum is still missing.
  unfoldable pub store_approvals : ComputeBlock → Action ComputeBlock
  store_approvals block = do
    try_write (update_block_approvals setup.columns block.id block.approvals false)
    commit
    pure block

  -- The branch where the quorum is reached.
  unfoldable pub finalize_block : List String → ComputeBlock → Action ComputeBlock
  finalize_block validators block = do
    checked ← lift refused (
        validate_block setup.hashing setup.verify_signature
          (record {
            authorized_validators = validators;
            expected_previous_hash = none;
            expected_height = none;
            require_tx_signatures = true;
            quorum_threshold = quorum_threshold setup;
            require_quorum = true;
          })
          block)
    prior ← finalized_transactions
    state ← lift replay_failed (replay_transactions setup.py (prior ++ checked.transactions))
    try_write (update_block_approvals setup.columns checked.id checked.approvals true)
    write (replace_balances (to_list state))
    commit
    pure checked

  -- `approve_block` on a block that is not finalized.
  unfoldable pub approve_waiting : String → String → ComputeBlock → Action ComputeBlock
  approve_waiting validator_public_key signature block = do
    validators ← query active_keys
    approved ←
        lift refused
          (add_approval setup.verify_signature validator_public_key signature validators block)
    let finalized = leb (quorum_threshold setup) (length approved.approvals)
    let marked : ComputeBlock = record approved { finalized = finalized }
    (if finalized then finalize_block validators marked else store_approvals marked)

  -- `approve_block` on a block that was found.
  unfoldable pub approve_found : String → String → ComputeBlock → Action ComputeBlock
  approve_found validator_public_key signature block =
      throw_if block.finalized already_finalized
      >> approve_waiting validator_public_key signature block

  -- `approve_block` on a chain that has its first block.
  unfoldable pub approve_started : String → String → String → Action ComputeBlock
  approve_started block_hash validator_public_key signature = do
    row ← query (get_block_by_hash block_hash)
    r ← or_raise row block_not_found
    block ← query (λ s. block_to_domain s r)
    approve_found validator_public_key signature block

  unfoldable pub approve_block : String → String → String → Action ComputeBlock
  approve_block block_hash validator_public_key signature =
      ensure_initialized setup >> approve_started block_hash validator_public_key signature

  unfoldable pub approve_block_as_relay : String → Action ComputeBlock
  approve_block_as_relay block_hash =
      let (priv, pub_key) = validator_keys setup in
      approve_block block_hash pub_key (setup.sign_message priv block_hash)

  unfoldable pub rebuild_balances : Action (List CreditBalance)
  rebuild_balances = do
    sealed ← finalized_transactions
    state ← lift replay_failed (replay_transactions setup.py sealed)
    write (replace_balances (to_list state))
    commit
    pure (to_list state)
