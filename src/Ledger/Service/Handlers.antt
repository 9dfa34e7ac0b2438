-- ===== src/Ledger/Service/Handlers.antt =====
-- deepiri_zepgpu/compute_ledger/service.py: the first block, the submission of transactions and the
-- sealing of those that wait.
use deepiri_zepgpu.Base.Dict.{is_some}
use deepiri_zepgpu.Base.Int.{leb_ℤ, ◌+ℤ◌, pos, ℤ}
use deepiri_zepgpu.Base.{
  if◌then◌else◌, string_eq, nat_eq, ◌==◌, length, elem, Outcome, ok, raise, ℕ, ◌+◌, String, Bool,
  true, false, not, Option, none, some, List, [], ◌∷◌, map,
}
use Prim.Native.String.{◌++◌ as append}
use deepiri_zepgpu.Ledger.Json.{Payload, str, num}
use deepiri_zepgpu.Ledger.Transaction.{
  job_completed, type_value, ComputeTransaction, TxType, signing_payload, validator_registered,
}
use deepiri_zepgpu.Ledger.Block.{ComputeBlock, genesis_prev_hash}
use deepiri_zepgpu.Ledger.Poa.{validate_transaction}
use deepiri_zepgpu.Ledger.Replay.{replay_from, replay_transactions, apply_transaction}
use deepiri_zepgpu.Ledger.Replay.Monad.{CreditState, fresh_state}
use deepiri_zepgpu.Ledger.Store.{
  Store, BlockRow, get_tip, get_unfinalized_tip, get_max_nonce, list_pending_transactions,
  list_sealed_transactions, upsert_validator, add_pending_transaction,
}
use deepiri_zepgpu.Ledger.Service.Session.{
  or_raise, not_job_completed, key_required, sender_mismatch, ServiceError, refused, replay_failed,
  nonce_not_greater, awaits_quorum, no_finalized_tip, Action, pure, lift, query, throw_if, write,
  try_write, commit, draw, ◌>>=◌, ◌>>◌,
}
use deepiri_zepgpu.Ledger.Service.Setup.{Setup, validator_keys, extra_validator_keys}
use deepiri_zepgpu.Ledger.Service.Propose.{
  block_to_domain, active_keys, applied, optional_text, sign_block, cosign_all, cosign_new,
  finish_block,
}
use deepiri_zepgpu.Ledger.Service.Persist.{persist_block}

-- `state if block.finalized else None`
abbrev pub state_if : Bool → CreditState → Option CreditState
state_if finalized state = if finalized then some state else none

-- `tx_type == t`, by the values of the enumeration.
abbrev pub is_type : TxType → TxType → Bool
is_type a b = type_value a == type_value b

module _ (setup : Setup) where
  -- `ComputeTransaction(...)` with its default id and time, then `tx.signature = sign_message(…)`.
  unfoldable pub new_signed_transaction :
      String → TxType → String → ℤ → Payload → ℕ → ComputeTransaction
  new_signed_transaction priv tx_type sender nonce payload n =
      let tx : ComputeTransaction = record {
        tx_type = tx_type;
        sender = sender;
        nonce = nonce;
        payload = payload;
        timestamp = setup.now n;
        id = setup.new_id n;
        signature = "";
      } in
      record tx {
        signature = setup.sign_message priv (setup.hashing.canonical_json (signing_payload tx));
      }

  -- `ComputeBlock(height=…, previous_hash=…, transactions=…, validator=…)`
  abbrev pub new_block : ℤ → String → List ComputeTransaction → String → ℕ → ComputeBlock
  new_block height previous_hash txs validator n = record {
    height = height;
    previous_hash = previous_hash;
    transactions = txs;
    validator = validator;
    timestamp = setup.now n;
    id = setup.new_id n;
    transactions_root = "";
    state_root = "";
    hash = "";
    validator_signature = "";
    approvals = [];
    finalized = false;
  }

  -- The loop that registers the extra validators; `label` is `f"extra-{i}"`.
  unfoldable pub register_extras : ℕ → List (String × String) → Store → Store
  register_extras i [] s = s
  register_extras i (keys ∷ rest) s =
      register_extras (i + 1) rest
        (upsert_validator keys.1 (append "extra-" (setup.py.text_of (num (pos i)))) s)

  abbrev pub genesis_payload : Payload
  genesis_payload =
      ("label", str "relay")
      ∷ ("role", str "poa_validator")
      ∷ ("network_id", optional_text setup.network_id)
      ∷ []

  -- `await self._persist_block(…)`, the commit and the result.
  unfoldable pub store_block : ComputeBlock → Option CreditState → Action ComputeBlock
  store_block block state = do try_write (persist_block setup block state); commit; pure block

  -- `ensure_initialized` where the chain has no block.
  unfoldable pub create_genesis : Action ComputeBlock
  create_genesis =
      let (priv, pub_key) = validator_keys setup in
      do
        write (upsert_validator pub_key "relay")
        write (register_extras 0 (extra_validator_keys setup))
        n ← draw
        let tx = new_signed_transaction priv validator_registered pub_key (pos 0) genesis_payload n
        state ← lift replay_failed (applied (apply_transaction setup.py tx fresh_state))
        m ← draw
        let signed =
            sign_block setup priv state (new_block (pos 0) genesis_prev_hash (tx ∷ []) pub_key m)
        validators ← query active_keys
        block ← lift refused (
            finish_block setup validators genesis_prev_hash (pos 0)
              (cosign_all setup (extra_validator_keys setup) signed))
        store_block block (state_if block.finalized state)

  -- `if tip: return …`, and else the rest of `ensure_initialized`.
  unfoldable pub existing_or_genesis : Option BlockRow → Action ComputeBlock
  existing_or_genesis none = create_genesis
  existing_or_genesis (some row) = query (λ s. block_to_domain s row)

  unfoldable pub ensure_initialized : Action ComputeBlock
  ensure_initialized = query (get_tip false) >>= existing_or_genesis

  -- `if pub not in validators: …`
  unfoldable pub ensure_validator : String → List String → Action (List String)
  ensure_validator pub_key validators =
      if elem pub_key validators
      then pure validators
      else write (upsert_validator pub_key "relay") >> pure (pub_key ∷ validators)

  -- `seal_pending` from the setting of `block.finalized` on.
  unfoldable pub finish_onto :
      BlockRow → CreditState → List String × ComputeBlock → Action ComputeBlock
  finish_onto tip state (validators, proposed) = do
    block ← lift refused (finish_block setup validators tip.hash (tip.height +ℤ pos 1) proposed)
    store_block block (state_if block.finalized state)

  -- From the construction of the block on.
  unfoldable pub propose_onto :
      BlockRow → List ComputeTransaction → List String → CreditState → Action ComputeBlock
  propose_onto tip txs validators state =
      let (priv, pub_key) = validator_keys setup in
      do
        n ← draw
        let draft = new_block (tip.height +ℤ pos 1) tip.hash txs pub_key n
        cosigned ←
            cosign_new setup (extra_validator_keys setup) validators
              (sign_block setup priv state draft)
        finish_onto tip state cosigned

  -- From the replay on.
  unfoldable pub replay_onto :
      BlockRow → List ComputeTransaction → List String → Action ComputeBlock
  replay_onto tip txs validators = do
    sealed ← query (λ s. map (λ r. r.tx) (list_sealed_transactions true s))
    state ← lift replay_failed (replay_transactions setup.py sealed)
    state' ← lift replay_failed (applied (replay_from setup.py txs state))
    propose_onto tip txs validators state'

  -- `seal_pending` once there are pending transactions and a finalized tip.
  unfoldable pub seal_onto : BlockRow → List ComputeTransaction → Action ComputeBlock
  seal_onto tip txs = do
    active ← query active_keys
    validators ← ensure_validator (validator_keys setup).1 active
    replay_onto tip txs validators

  -- `seal_pending` on a chain that has its first block.
  unfoldable pub seal_started : Action (Option ComputeBlock)
  seal_started = do
    unfinalized ← query get_unfinalized_tip
    throw_if (is_some unfinalized) awaits_quorum
    pending ← query (λ s. map (λ r. r.tx) (list_pending_transactions s))
    tip ← query (get_tip true)
    (if length pending == 0
        then pure none
        else (or_raise tip no_finalized_tip >>= λ row.
            seal_onto row pending >>= λ block. pure (some block)))

  unfoldable pub seal_pending : Action (Option ComputeBlock)
  seal_pending = ensure_initialized >> seal_started

  -- The end of `submit_transaction`; the result is the pair of "transaction" and "block".
  unfoldable pub seal_submitted :
      ComputeTransaction → Option Bool → Action (ComputeTransaction × Option ComputeBlock)
  seal_submitted tx auto_seal = do
    let should_seal : Bool = elim auto_seal [ none ↦ setup.auto_seal | some b ↦ b ]
    sealed_block ← (if should_seal then seal_pending else pure none)
    pure (tx, sealed_block)

  -- `submit_transaction` on a chain that has its first block.
  unfoldable pub submit_started :
      ComputeTransaction → Option Bool → Bool → Action (ComputeTransaction × Option ComputeBlock)
  submit_started tx auto_seal require_signature = do
    lift refused (validate_transaction setup.hashing setup.verify_signature require_signature tx)
    last ← query (get_max_nonce tx.sender)
    throw_if (leb_ℤ tx.nonce last) nonce_not_greater
    try_write (add_pending_transaction setup.columns setup.hashing tx)
    seal_submitted tx auto_seal

  unfoldable pub submit_transaction :
      ComputeTransaction → Option Bool → Bool → Action (ComputeTransaction × Option ComputeBlock)
  submit_transaction tx auto_seal require_signature =
      ensure_initialized >> submit_started tx auto_seal require_signature

  -- The keys that sign: the sender's own, else the validator's.
  abbrev pub signing_keys : Option String → Bool → Outcome ServiceError (String × String)
  signing_keys sender_private_key sign_with_validator = elim sender_private_key [
    | none ↦ if sign_with_validator then ok (validator_keys setup) else raise key_required
    | some priv ↦
        if priv == ""
        then (if sign_with_validator then ok (validator_keys setup) else raise key_required)
        else ok (priv, setup.public_key_from_private priv)
  ]

  -- `record_job_completed` on a chain that has its first block.
  unfoldable pub record_started :
      Payload → Bool → Option String → Action (ComputeTransaction × Option ComputeBlock)
  record_started payload sign_with_validator sender_private_key = do
    keys ← lift (λ e. e) (signing_keys sender_private_key sign_with_validator)
    last ← query (get_max_nonce keys.1)
    n ← draw
    submit_transaction
        (new_signed_transaction keys.0 job_completed keys.1 (last +ℤ pos 1) payload n) none true

  unfoldable pub record_job_completed :
      Payload → Bool → Option String → Action (ComputeTransaction × Option ComputeBlock)
  record_job_completed payload sign_with_validator sender_private_key =
      ensure_initialized >> record_started payload sign_with_validator sender_private_key

  -- The payload that `record_job_completed` makes of its arguments.
  unfoldable pub job_payload :
      (task_id provider_account consumer_account : String) (gpu_seconds : ℤ)
      (input_hash output_hash peer_id : Option String)
      → Payload
  job_payload task_id provider_account consumer_account gpu_seconds input_hash output_hash peer_id =
      ("task_id", str task_id)
      ∷ ("provider_account", str provider_account)
      ∷ ("consumer_account", str consumer_account)
      ∷ ("gpu_seconds", num gpu_seconds)
      ∷ ("input_hash", optional_text input_hash)
      ∷ ("output_hash", optional_text output_hash)
      ∷ ("peer_id", optional_text peer_id)
      ∷ ("network_id", optional_text setup.network_id)
      ∷ []

  unfoldable pub submit_peer_attestation :
      String → ComputeTransaction → Action (ComputeTransaction × Option ComputeBlock)
  submit_peer_attestation peer_public_key signed_tx = do
    throw_if (not (signed_tx.sender == peer_public_key)) sender_mismatch
    throw_if (not (is_type signed_tx.tx_type job_completed)) not_job_completed
    submit_transaction signed_tx none true
