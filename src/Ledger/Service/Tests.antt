-- ===== src/Ledger/Service/Tests.antt =====
-- The ledger service on a toy chain: a key signs with its own name, a digest is the text itself, and
-- ids are tallies.
use deepiri_zepgpu.Ledger.Store.{BlockRow, TxRow, Store}
use deepiri_zepgpu.Ledger.Block.{ComputeBlock, genesis_prev_hash}
use deepiri_zepgpu.Ledger.Service.Session.{Session}
use deepiri_zepgpu.Ledger.Service.Propose.{block_to_domain}
use deepiri_zepgpu.Ledger.Store.{get_block_by_hash, block_transactions, in_position}
use deepiri_zepgpu.Ledger.Service.Verify.{InclusionProof, get_inclusion_proof, chain_report}
use deepiri_zepgpu.Ledger.Service.Verify.Proofs.{IsInclusion, get_inclusion_proof-IsInclusion}
use deepiri_zepgpu.Ledger.Service.Verify.History.{IsHistory, finalized_of, chain_report_iff}
use deepiri_zepgpu.Ledger.Service.Books.Requests.{serve, serve_all}
use deepiri_zepgpu.Ledger.Service.Session.{run_request}
use deepiri_zepgpu.Ledger.Service.Handlers.{
  new_signed_transaction, register_extras, store_block, create_genesis, existing_or_genesis,
  ensure_initialized, ensure_validator, finish_onto, propose_onto, replay_onto, seal_onto,
  seal_started, seal_pending, seal_submitted, submit_started, submit_transaction,
}
use deepiri_zepgpu.Ledger.Service.Propose.{
  block_to_domain, sign_block, cosign_all, cosign_new, finish_block,
}
use deepiri_zepgpu.Ledger.Service.Persist.{persist_transactions, persist_block}
use deepiri_zepgpu.Ledger.Service.Setup.{quorum_threshold, validator_keys, extra_validator_keys}
use deepiri_zepgpu.Ledger.Store.{
  get_active_validators, upsert_row, upsert_validator, get_tip, get_unfinalized_tip,
  list_pending_transactions, max_nonce, get_max_nonce, clashes, seal_row, add_pending_transaction,
  seal_rows, create_block, replace_balances, in_position, block_transactions, join_rows,
  list_sealed_transactions,
}
use deepiri_zepgpu.Ledger.Block.{
  header_for_hash, ensure_proposer_approval, leaf_hashes, compute_transactions_root, compute_hash,
}
use deepiri_zepgpu.Ledger.Poa.{
  approvals_loop, validate_approvals, check_tx_signature, validate_transaction,
  validate_transactions, validate_block,
}
use deepiri_zepgpu.Ledger.Replay.{
  get_or_create, add_credit, add_debit, apply_job_completed, apply_effect, last_nonce,
  apply_transaction, replay_from, replay_transactions,
}
use deepiri_zepgpu.Ledger.Replay.Listing.{by_account, to_list, balance_rows, state_root}
use deepiri_zepgpu.Ledger.Transaction.{tx_hash}
use deepiri_zepgpu.Ledger.Merkle.{root_loop, merkle_root}
use deepiri_zepgpu.Ledger.Merkle.Levels.{pad, hash_pair, pair_level, next_level}
use deepiri_zepgpu.Base.Int.{◌+ℤ◌, ◌-ℤ◌}
use deepiri_zepgpu.Base.Int.{pos}
use deepiri_zepgpu.Base.{
  string_eq, nat_eq, ◌==◌, length, elem, ok, ℕ, zero, suc, String, ◌≡◌, refl, ◌↔◌, true, none, some,
  List, [], ◌∷◌,
}
use Prim.Native.String.{◌++◌ as append}
use deepiri_zepgpu.Ledger.Json.{str, num, Payload}
use deepiri_zepgpu.Ledger.Transaction.{ComputeTransaction, job_completed}
use deepiri_zepgpu.Ledger.Replay.Monad.{CreditState}
use deepiri_zepgpu.Ledger.Replay.{replay_transactions}
use deepiri_zepgpu.Ledger.Replay.Listing.{to_list}
use deepiri_zepgpu.Ledger.Store.{list_sealed_transactions}
use deepiri_zepgpu.Ledger.Store.Sealed.{tx_of}
use deepiri_zepgpu.Ledger.Store.Chain.{OneOpen}
use deepiri_zepgpu.Ledger.Service.Setup.{Setup}
use deepiri_zepgpu.Ledger.Service.Books.Requests.{
  Request, submit, seal, serve_all, empty_session, serve_all-Balanced,
}

abbrev texts : Payload → String
texts [] = ""
texts ((k, str s) ∷ p) = append s (append "," (texts p))
texts ((k, v) ∷ p) = texts p

abbrev tally : ℕ → String
tally zero = "#"
tally (suc n) = append "i" (tally n)

abbrev toy_setup : Setup
toy_setup = record {
  hashing = record { canonical_json = texts; sha256_hex = λ s. s };
  canonical_list = λ rows. "rows";
  py = record { text_of = λ v. "?"; parse_float = λ s. none };
  columns = record { uuid_text = λ s. some s; time_text = λ s. some s };
  verify_signature = λ key message signature. signature == key;
  sign_message = λ priv message. priv;
  public_key_from_private = λ priv. priv;
  derive_keypair_from_seed = λ seed. (seed, seed);
  new_id = tally;
  now = λ n. "now";
  chain_id = "c";
  network_id = none;
  validator_private_key = "relay";
  secret_key = "s";
  extra_private_keys = [];
  quorum_setting = pos 1;
  auto_seal = true;
}

abbrev job : ComputeTransaction
job = record {
  tx_type = job_completed;
  sender = "ann";
  nonce = pos 0;
  payload =
      ("provider_account", str "ann")
      ∷ ("consumer_account", str "bob")
      ∷ ("gpu_seconds", num (pos 5))
      ∷ [];
  timestamp = "then";
  id = "job";
  signature = "ann";
}

abbrev requests : List Request
requests = submit job none true ∷ submit job none true ∷ seal ∷ []

-- The job is sealed once; its second submission is refused and rolled back.
served_balances :
    (serve_all toy_setup requests empty_session).committed.balances
    ≡ record { account = "ann"; credit_seconds = pos 5; debit_seconds = pos 0 }
      ∷ record { account = "bob"; credit_seconds = pos 0; debit_seconds = pos 5 }
      ∷ []
unfolding serve serve_all run_request new_signed_transaction register_extras store_block
    create_genesis existing_or_genesis ensure_initialized ensure_validator finish_onto propose_onto
    replay_onto seal_onto seal_started seal_pending seal_submitted submit_started submit_transaction
    block_to_domain sign_block cosign_all cosign_new finish_block persist_transactions persist_block
    quorum_threshold validator_keys extra_validator_keys get_active_validators upsert_row
    upsert_validator get_tip get_unfinalized_tip list_pending_transactions max_nonce get_max_nonce
    clashes seal_row add_pending_transaction seal_rows create_block replace_balances in_position
    block_transactions join_rows list_sealed_transactions header_for_hash ensure_proposer_approval
    leaf_hashes compute_transactions_root compute_hash approvals_loop validate_approvals
    check_tx_signature validate_transaction validate_transactions validate_block get_or_create
    add_credit add_debit apply_job_completed apply_effect last_nonce apply_transaction replay_from
    replay_transactions by_account to_list balance_rows state_root tx_hash root_loop merkle_root pad
    hash_pair pair_level next_level ◌+ℤ◌ ◌-ℤ◌
served_balances = refl

served_rows : length (serve_all toy_setup requests empty_session).committed.transactions ≡ 2
unfolding serve serve_all run_request new_signed_transaction register_extras store_block
    create_genesis existing_or_genesis ensure_initialized ensure_validator finish_onto propose_onto
    replay_onto seal_onto seal_started seal_pending seal_submitted submit_started submit_transaction
    block_to_domain sign_block cosign_all cosign_new finish_block persist_transactions persist_block
    quorum_threshold validator_keys extra_validator_keys get_active_validators upsert_row
    upsert_validator get_tip get_unfinalized_tip list_pending_transactions max_nonce get_max_nonce
    clashes seal_row add_pending_transaction seal_rows create_block replace_balances in_position
    block_transactions join_rows list_sealed_transactions header_for_hash ensure_proposer_approval
    leaf_hashes compute_transactions_root compute_hash approvals_loop validate_approvals
    check_tx_signature validate_transaction validate_transactions validate_block get_or_create
    add_credit add_debit apply_job_completed apply_effect last_nonce apply_transaction replay_from
    replay_transactions by_account to_list balance_rows state_root tx_hash root_loop merkle_root pad
    hash_pair pair_level next_level ◌+ℤ◌ ◌-ℤ◌
served_rows = refl

serve_all-Balanced_example :
    let s = (serve_all toy_setup requests empty_session).committed in
    ((state : CreditState) × (replay_transactions toy_setup.py
          (tx_of (list_sealed_transactions true s))
        ≡ ok state)
      × (s.balances ≡ to_list state))
    × OneOpen s.blocks
serve_all-Balanced_example = serve_all-Balanced toy_setup (λ s t h. refl) requests

abbrev stored_block : BlockRow
stored_block = record {
  id = "b";
  height = pos 0;
  hash = "h";
  previous_hash = genesis_prev_hash;
  timestamp = "now";
  transactions_root = "job,JOB_COMPLETED,ann,then,";
  state_root = "rows";
  validator_public_key = "relay";
  validator_signature = "relay";
  approvals = [];
  finalized = true;
}

abbrev stored_job : TxRow
stored_job = record {
  tx = job;
  hash = "job,JOB_COMPLETED,ann,then,";
  block_id = some "b";
  position = some 0;
}

abbrev stored_session : Session
stored_session =
    let s : Store = record {
      validators = [];
      blocks = stored_block ∷ [];
      transactions = stored_job ∷ [];
      balances = [];
    } in
    record { store = s; committed = s; draws = 0 }

stored_found : get_block_by_hash "h" stored_session.store ≡ some stored_block
unfolding get_block_by_hash
stored_found = refl

abbrev read_block : ComputeBlock
read_block = block_to_domain stored_session.store stored_block

job_there : elem "job,JOB_COMPLETED,ann,then," (leaf_hashes toy_setup.hashing read_block) ≡ true
unfolding leaf_hashes block_to_domain block_transactions tx_hash in_position
job_there = refl

root_right : stored_block.transactions_root ≡ compute_transactions_root toy_setup.hashing read_block
unfolding compute_transactions_root leaf_hashes block_to_domain block_transactions tx_hash
    merkle_root root_loop in_position
root_right = refl

get_inclusion_proof-IsInclusion_example :
    (p : InclusionProof) × (get_inclusion_proof toy_setup "h" "job,JOB_COMPLETED,ann,then,"
        stored_session
      ≡ (ok p, stored_session))
    × IsInclusion toy_setup "job,JOB_COMPLETED,ann,then," read_block p
get_inclusion_proof-IsInclusion_example =
    get_inclusion_proof-IsInclusion toy_setup "h" "job,JOB_COMPLETED,ann,then," stored_session
      stored_block stored_found job_there root_right

chain_report_iff_example :
    ((chain_report toy_setup ("relay" ∷ []) none (read_block ∷ [])).valid ≡ true) ↔ (
      IsHistory toy_setup ("relay" ∷ []) genesis_prev_hash (pos 0) (read_block ∷ [])
      × ((state : CreditState) × (replay_transactions toy_setup.py (finalized_of (read_block ∷ []))
            ≡ ok state)
          × ((chain_report toy_setup ("relay" ∷ []) none (read_block ∷ [])).balances
              ≡ to_list state)))
chain_report_iff_example = chain_report_iff toy_setup ("relay" ∷ []) none (read_block ∷ [])
