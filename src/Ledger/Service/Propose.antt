-- ===== src/Ledger/Service/Propose.antt =====
-- deepiri_zepgpu/compute_ledger/service.py: how a block is filled in, signed, co-signed and stored.
use deepiri_zepgpu.Base.Int.{ℤ}
use deepiri_zepgpu.Base.{
  leb, if◌then◌else◌, string_eq, nat_eq, ◌==◌, length, any, elem, Outcome, ok, raise, ℕ, String,
  true, Option, none, some, List, [], ◌∷◌, ◌++◌, map,
}
use deepiri_zepgpu.Base.Sorting.{sort_by}
use deepiri_zepgpu.Ledger.Json.{Json, str, null}
use deepiri_zepgpu.Ledger.Block.{
  ComputeBlock, ValidatorApproval, compute_transactions_root, compute_hash,
  ensure_proposer_approval,
}
use deepiri_zepgpu.Ledger.Poa.{LedgerValidationError, validate_block}
use deepiri_zepgpu.Ledger.Replay.Listing.{state_root}
use deepiri_zepgpu.Ledger.Replay.Monad.{ReplayError, CreditState}
use deepiri_zepgpu.Ledger.Store.{
  Store, BlockRow, get_active_validators, upsert_validator, block_transactions,
}
use deepiri_zepgpu.Ledger.Service.Session.{Action, pure, write, ◌>>◌}
use deepiri_zepgpu.Ledger.Service.Setup.{Setup, quorum_threshold}

-- `x.position or 0`
abbrev pub position_or_zero : Option ℕ → ℕ
position_or_zero none = 0
position_or_zero (some i) = i

-- `_block_to_domain`: the rows of the block come by position, and are sorted once more.
unfoldable pub block_to_domain : Store → BlockRow → ComputeBlock
block_to_domain s row = record {
  id = row.id;
  height = row.height;
  previous_hash = row.previous_hash;
  timestamp = row.timestamp;
  transactions =
      map (λ r. r.tx)
        (sort_by (λ a b. leb (position_or_zero a.position) (position_or_zero b.position))
          (block_transactions row.id s.transactions));
  transactions_root = row.transactions_root;
  state_root = row.state_root;
  validator = row.validator_public_key;
  hash = row.hash;
  validator_signature = row.validator_signature;
  approvals = row.approvals;
  finalized = row.finalized;
}

-- `{v.public_key for v in await self.repo.get_active_validators(self.chain_id)}`
abbrev pub active_keys : Store → List String
active_keys s = map (λ v. v.public_key) (get_active_validators s)

-- The state after `for tx in txs: apply_transaction(state, tx)`, unless one raises.
abbrev pub applied : Outcome ReplayError (Unit {0}) × CreditState → Outcome ReplayError CreditState
applied (ok u, state) = ok state
applied (raise e, state) = raise e

abbrev pub optional_text : Option String → Json
optional_text none = null
optional_text (some s) = str s

module _ (setup : Setup) where
  abbrev pub root_of : CreditState → String
  root_of = state_root setup.canonical_list setup.hashing.sha256_hex

  -- From `block.transactions_root = …` to `block.ensure_proposer_approval()`.
  unfoldable pub sign_block : String → CreditState → ComputeBlock → ComputeBlock
  sign_block priv state block =
      let rooted : ComputeBlock = record block {
        transactions_root = compute_transactions_root setup.hashing block;
        state_root = root_of state;
      } in
      let hashed : ComputeBlock = record rooted { hash = compute_hash setup.hashing rooted } in
      ensure_proposer_approval
        (record hashed { validator_signature = setup.sign_message priv hashed.hash })

  abbrev pub cosign : String × String → String → ValidatorApproval
  cosign keys hash = record { validator = keys.1; signature = setup.sign_message keys.0 hash }

  abbrev pub approve_with : ComputeBlock → ValidatorApproval → ComputeBlock
  approve_with block a = record block { approvals = block.approvals ++ a ∷ [] }

  -- The loop of `ensure_initialized` that appends an approval of each extra validator.
  unfoldable pub cosign_all : List (String × String) → ComputeBlock → ComputeBlock
  cosign_all [] block = block
  cosign_all (keys ∷ rest) block = cosign_all rest (approve_with block (cosign keys block.hash))

  -- The loop of `seal_pending`: the set `validators` and the block change, and rows are added.
  unfoldable pub cosign_new :
      List (String × String) → List String → ComputeBlock → Action (List String × ComputeBlock)
  cosign_new [] validators block = pure (validators, block)
  cosign_new (keys ∷ rest) validators block =
      let skip = cosign_new rest validators block in
      let known = cosign_new rest validators (approve_with block (cosign keys block.hash)) in
      let added =
        cosign_new rest (keys.1 ∷ validators) (approve_with block (cosign keys block.hash)) in
      if any (λ a. a.validator == keys.1) block.approvals
      then skip
      else if elem keys.1 validators
      then known
      else write (upsert_validator keys.1 "extra") >> added

  -- `block.finalized = …` and the call of `validate_block`.
  unfoldable pub finish_block :
      List String → String → ℤ → ComputeBlock → Outcome LedgerValidationError ComputeBlock
  finish_block validators previous_hash height block =
      let finalized = leb (quorum_threshold setup) (length block.approvals) in
      validate_block setup.hashing setup.verify_signature
        (record {
          authorized_validators = validators;
          expected_previous_hash = some previous_hash;
          expected_height = some height;
          require_tx_signatures = true;
          quorum_threshold = if finalized then quorum_threshold setup else 1;
          require_quorum = finalized;
        })
        (record block { finalized = finalized })
