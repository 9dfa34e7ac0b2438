-- ===== src/Ledger/Service/Persist.antt =====
-- deepiri_zepgpu/compute_ledger/service.py: how a block is stored, with its transactions.
use deepiri_zepgpu.Base.{
  if◌then◌else◌, string_eq, nat_eq, ◌==◌, any, Outcome, ◌>>=◌, ok, Bool, Option, none, some, List,
  [], ◌∷◌, map,
}
use deepiri_zepgpu.Ledger.Transaction.{ComputeTransaction}
use deepiri_zepgpu.Ledger.Block.{ComputeBlock}
use deepiri_zepgpu.Ledger.Replay.Listing.{to_list}
use deepiri_zepgpu.Ledger.Replay.Monad.{CreditState}
use deepiri_zepgpu.Ledger.Store.{
  Store, BlockRow, StoreError, add_pending_transaction, create_block, replace_balances, stored,
}
use deepiri_zepgpu.Ledger.Service.Setup.{Setup}

-- `if state is not None and block.finalized: …`
abbrev pub with_balances : Bool → Option CreditState → Store → Store
with_balances finalized none s = s
with_balances finalized (some state) s = if finalized then replace_balances (to_list state) s else s

module _ (setup : Setup) where
  -- The loop of `_persist_block`: a transaction whose id has no row is added.
  unfoldable pub persist_transactions : List ComputeTransaction → Store → Outcome StoreError Store
  persist_transactions [] s = ok s
  persist_transactions (tx ∷ txs) s = do
    id ← stored (setup.columns.uuid_text tx.id)
    s' ←
        if any (λ r. r.tx.id == id) s.transactions
        then ok s
        else add_pending_transaction setup.columns setup.hashing tx s
    persist_transactions txs s'

  -- `_persist_block`; `state` is None where the block is not finalized.
  unfoldable pub persist_block :
      ComputeBlock → Option CreditState → Store → Outcome StoreError Store
  unfolding persist_transactions
  persist_block block state s = do
    with_transactions ← persist_transactions block.transactions s
    id ← stored (setup.columns.uuid_text block.id)
    timestamp ← stored (setup.columns.time_text block.timestamp)
    let row : BlockRow = record {
      id = id;
      height = block.height;
      hash = block.hash;
      previous_hash = block.previous_hash;
      timestamp = timestamp;
      transactions_root = block.transactions_root;
      state_root = block.state_root;
      validator_public_key = block.validator;
      validator_signature = block.validator_signature;
      approvals = block.approvals;
      finalized = block.finalized;
    }
    with_block ←
        create_block setup.columns row (map (λ tx. tx.id) block.transactions) with_transactions
    ok (with_balances block.finalized state with_block)
