-- ===== src/Ledger/Service/Books/Requests.antt =====
-- deepiri_zepgpu/compute_ledger/service.py: any sequence of requests, each in a session of `get_db`,
-- on a chain that starts without rows.
use deepiri_zepgpu.Ledger.Merkle.{merkle_proof}
use deepiri_zepgpu.Ledger.Store.Chain.{OneOpen}
use deepiri_zepgpu.Ledger.Service.Propose.{block_to_domain}
use deepiri_zepgpu.Ledger.Replay.Listing.{to_list}
use deepiri_zepgpu.Ledger.Service.Books.Approvals.{approve_block-Running}
use deepiri_zepgpu.Ledger.Block.{leaf_hashes}
use deepiri_zepgpu.Ledger.Service.Books.Added.{replace_balances-IsBooked}
use deepiri_zepgpu.Ledger.Service.Books.Served.{submit_started-Running}
use deepiri_zepgpu.Ledger.Replay.{replay_from, replay_transactions}
use deepiri_zepgpu.Ledger.Service.Books.Proposed.{seal_pending-Running}
use deepiri_zepgpu.Ledger.Store.Sealed.{tx_of}
use deepiri_zepgpu.Ledger.Replay.Monad.{fresh_state, CreditState}
use deepiri_zepgpu.Base.{
  string_eq, nat_eq, ◌==◌, Bool-cases, Option-cases, Outcome, Outcome-cases, ok, raise, ◌+◌, String,
  ◌≡◌, refl, inl, inr, Bool, true, not, Option, none, List, [], ◌∷◌,
}
use deepiri_zepgpu.Ledger.Json.{Payload}
use deepiri_zepgpu.Ledger.Transaction.{job_completed, ComputeTransaction}
use deepiri_zepgpu.Ledger.Store.{
  join_rows, get_block_by_hash, list_sealed_transactions, replace_balances, Store,
}
use deepiri_zepgpu.Ledger.Service.Setup.{validator_keys, Setup}
use deepiri_zepgpu.Ledger.Service.Session.{◌>>◌, ServiceError, Session, Action, run_request}
use deepiri_zepgpu.Ledger.Service.Handlers.{
  signing_keys, submit_started, is_type, record_started, ensure_initialized, submit_transaction,
  seal_pending, record_job_completed, submit_peer_attestation,
}
use deepiri_zepgpu.Ledger.Service.Approve.{approve_block, approve_block_as_relay, rebuild_balances}
use deepiri_zepgpu.Ledger.Service.Verify.{
  verify_started, index_of, prove_in, verify_chain, get_inclusion_proof,
}
use deepiri_zepgpu.Ledger.Service.Books.{PrintsIds}
use deepiri_zepgpu.Ledger.Service.Books.Opened.{ensure_initialized-Running, Kept, Running}
use deepiri_zepgpu.Ledger.Service.Books.Triples.{Ends-bind, Ends}

-- A call of the service.
pub data Request : Type 0 where
  initialize seal rebuild verify : Request
  submit : ComputeTransaction → Option Bool → Bool → Request
  approve : (block_hash key signature : String) → Request
  approve_as_relay : (block_hash : String) → Request
  record_job : Payload → Bool → Option String → Request
  attest : (key : String) → ComputeTransaction → Request
  prove : (block_hash tx_hash : String) → Request

abbrev pub empty_store : Store
empty_store = record { validators = []; blocks = []; transactions = []; balances = [] }

abbrev pub empty_session : Session
empty_session = record { store = empty_store; committed = empty_store; draws = 0 }

module _ (setup : Setup) where
  -- The session after a request; its answer is dropped.
  unfoldable pub serve : Request → Session → Session
  serve initialize s = (run_request (ensure_initialized setup) s).1
  serve seal s = (run_request (seal_pending setup) s).1
  serve rebuild s = (run_request (rebuild_balances setup) s).1
  serve verify s = (run_request (verify_chain setup) s).1
  serve (submit tx auto_seal require_signature) s =
      (run_request (submit_transaction setup tx auto_seal require_signature) s).1
  serve (approve block_hash key signature) s =
      (run_request (approve_block setup block_hash key signature) s).1
  serve (approve_as_relay block_hash) s =
      (run_request (approve_block_as_relay setup block_hash) s).1
  serve (record_job payload with_validator key) s =
      (run_request (record_job_completed setup payload with_validator key) s).1
  serve (attest key tx) s = (run_request (submit_peer_attestation setup key tx) s).1
  serve (prove block_hash tx_hash) s =
      (run_request (get_inclusion_proof setup block_hash tx_hash) s).1

  unfoldable pub serve_all : List Request → Session → Session
  unfolding serve
  serve_all [] s = s
  serve_all (r ∷ requests) s = serve_all requests (serve r s)

  -- Both the session's rows and the committed ones.
  abbrev Books : Session → Type 0
  Books s = Kept setup s.store × Kept setup s.committed

module _ (setup : Setup) (prints : PrintsIds setup.columns) where
  -- A commit or a rollback at the end.
  run_request-Books :
      {A : Type 0} (m : Action A) (s : Session)
      → Ends (Kept setup) (λ _. Books setup) (m s).0 (m s).1
      → Books setup (run_request m s).1
  unfolding run_request
  run_request-Books {A = A} m s ends = by_outcome (m s).0 (m s).1 ends
    where
      by_outcome :
          (r : Outcome ServiceError A) (s' : Session)
          → Ends (Kept setup) (λ _. Books setup) r s'
          → Books setup (run_request (λ _. (r, s')) s).1
      by_outcome (ok a) s' books = (books.0, books.0)
      by_outcome (raise e) s' kept = (kept, kept)

  weaken :
      {A : Type 0} (r : Outcome ServiceError A) (s : Session)
      → Ends (Kept setup) (λ _. Running setup) r s
      → Ends (Kept setup) (λ _. Books setup) r s
  weaken (ok a) s running = (running.0, running.1)
  weaken (raise e) s kept = kept

  -- A request that first makes sure of the first block.
  started-Books :
      {A : Type 0} (m : Action A) (s : Session)
      → Books setup s
      → ((s' : Session) → Running setup s' → Ends (Kept setup) (λ _. Books setup) (m s').0 (m s').1)
      → Books setup (run_request (ensure_initialized setup >> m) s).1
  started-Books m s books next = run_request-Books (ensure_initialized setup >> m) s (
      Ends-bind (Kept setup) (λ _. Books setup) s (λ _. Running setup) (ensure_initialized setup)
        (λ _. m) (ensure_initialized-Running setup prints s books.0 books.1)
        (λ _ s' running. next s' running))

  submit_transaction-Books :
      (tx : ComputeTransaction) (auto_seal : Option Bool) (require_signature : Bool) (s : Session)
      → Books setup s
      → Ends
          (Kept setup)
          (λ _. Books setup)
          (submit_transaction setup tx auto_seal require_signature s).0
          (submit_transaction setup tx auto_seal require_signature s).1
  unfolding submit_transaction
  submit_transaction-Books tx auto_seal require_signature s books =
      Ends-bind (Kept setup) (λ _. Books setup) s (λ _. Running setup) (ensure_initialized setup)
        (λ _. submit_started setup tx auto_seal require_signature)
        (ensure_initialized-Running setup prints s books.0 books.1)
        (λ _ s' running.
          weaken (submit_started setup tx auto_seal require_signature s').0
            (submit_started setup tx auto_seal require_signature s').1
            (submit_started-Running setup prints tx auto_seal require_signature s' running))

  record_started-Books :
      (payload : Payload) (with_validator : Bool) (key : Option String) (s : Session)
      → Books setup s
      → Ends
          (Kept setup)
          (λ _. Books setup)
          (record_started setup payload with_validator key s).0
          (record_started setup payload with_validator key s).1
  unfolding record_started
  record_started-Books payload with_validator key s books =
      elim (Outcome-cases (signing_keys setup key with_validator)) [
        | inr (e, raised) ↦ rw raised (books.1)
        | inl (keys, signs) ↦
            rw signs (submit_transaction-Books _ none true (record s { draws = s.draws + 1 }) books)
      ]

  rebuild_balances-Books :
      (s : Session)
      → Books setup s
      → Ends
          (Kept setup)
          (λ _. Books setup)
          (rebuild_balances setup s).0
          (rebuild_balances setup s).1
  unfolding rebuild_balances replace_balances
  rebuild_balances-Books s books =
      let sealed = tx_of (list_sealed_transactions true s.store) in
      elim (Outcome-cases (replay_transactions setup.py sealed)) [
        | inr (e, raised) ↦ rw raised (books.1)
        | inl (state, replays) ↦
            let booked = replace_balances-IsBooked setup state s.store books.0.0 replays in
            rw replays ((booked, books.0.1), (booked, books.0.1))
      ]

  get_inclusion_proof-Books :
      (block_hash tx_hash : String) (s : Session)
      → Books setup s
      → Ends
          (Kept setup)
          (λ _. Books setup)
          (get_inclusion_proof setup block_hash tx_hash s).0
          (get_inclusion_proof setup block_hash tx_hash s).1
  unfolding get_inclusion_proof prove_in
  get_inclusion_proof-Books block_hash tx_hash s books =
      elim (Option-cases (get_block_by_hash block_hash s.store)) [
        | inl none_found ↦ rw none_found (books.1)
        | inr (r, found) ↦
            let leaves = leaf_hashes setup.hashing (block_to_domain s.store r) in
            elim (Option-cases (index_of tx_hash leaves)) [
              | inl absent ↦ rw (found, absent) (books.1)
              | inr (i, there) ↦
                  elim (Outcome-cases (merkle_proof setup.hashing.sha256_hex leaves i)) [
                    | inr (e, raised) ↦ rw (found, there, raised) (books.1)
                    | inl (proof, built) ↦ rw (found, there, built) books
                  ]
            ]
      ]

  submit_peer_attestation-Books :
      (key : String) (tx : ComputeTransaction) (s : Session)
      → Books setup s
      → Ends
          (Kept setup)
          (λ _. Books setup)
          (submit_peer_attestation setup key tx s).0
          (submit_peer_attestation setup key tx s).1
  unfolding submit_peer_attestation
  submit_peer_attestation-Books key tx s books = elim (Bool-cases (not (tx.sender == key))) [
    | inl other ↦ rw other (books.1)
    | inr same ↦ elim (Bool-cases (not (is_type tx.tx_type job_completed))) [
      | inl other ↦ rw (same, other) (books.1)
      | inr right ↦ rw (same, right) (submit_transaction-Books tx none true s books)
    ]
  ]

  serve-Books : (r : Request) (s : Session) → Books setup s → Books setup (serve setup r s)
  unfolding serve approve_block_as_relay record_job_completed verify_chain verify_started
  serve-Books initialize s books = run_request-Books (ensure_initialized setup) s (
      weaken (ensure_initialized setup s).0 (ensure_initialized setup s).1
        (ensure_initialized-Running setup prints s books.0 books.1))
  serve-Books seal s books = run_request-Books (seal_pending setup) s (
      weaken (seal_pending setup s).0 (seal_pending setup s).1
        (seal_pending-Running setup prints s books.0 books.1))
  serve-Books rebuild s books =
      run_request-Books (rebuild_balances setup) s (rebuild_balances-Books s books)
  serve-Books verify s books =
      started-Books (verify_started setup) s books (λ s' running. (running.0, running.1))
  serve-Books (submit tx auto_seal require_signature) s books =
      run_request-Books (submit_transaction setup tx auto_seal require_signature) s
        (submit_transaction-Books tx auto_seal require_signature s books)
  serve-Books (approve block_hash key signature) s books =
      run_request-Books (approve_block setup block_hash key signature) s (
        weaken (approve_block setup block_hash key signature s).0
          (approve_block setup block_hash key signature s).1
          (approve_block-Running setup prints block_hash key signature s books.0 books.1))
  serve-Books (approve_as_relay block_hash) s books =
      let (priv, key) = validator_keys setup in
      let signature = setup.sign_message priv block_hash in
      run_request-Books (approve_block setup block_hash key signature) s (
        weaken (approve_block setup block_hash key signature s).0
          (approve_block setup block_hash key signature s).1
          (approve_block-Running setup prints block_hash key signature s books.0 books.1))
  serve-Books (record_job payload with_validator key) s books =
      started-Books (record_started setup payload with_validator key) s books
        (λ s' running. record_started-Books payload with_validator key s' (running.0, running.1))
  serve-Books (attest key tx) s books =
      run_request-Books (submit_peer_attestation setup key tx) s
        (submit_peer_attestation-Books key tx s books)
  serve-Books (prove block_hash tx_hash) s books =
      run_request-Books (get_inclusion_proof setup block_hash tx_hash) s
        (get_inclusion_proof-Books block_hash tx_hash s books)

  serve_all-Books :
      (requests : List Request) (s : Session)
      → Books setup s
      → Books setup (serve_all setup requests s)
  unfolding serve_all
  serve_all-Books [] s books = books
  serve_all-Books (r ∷ requests) s books =
      serve_all-Books requests (serve setup r s) (serve-Books r s books)

  empty-Kept : Kept setup empty_store
  unfolding list_sealed_transactions join_rows replay_transactions replay_from to_list
  empty-Kept = (
    record {
      keyed = tt;
      ascending = tt;
      one_open = tt;
      distinct = tt;
      canonical = tt;
      placed = tt;
      replayed = fresh_state;
      replays = refl;
      balanced = refl;
    },
    λ h. refl,
  )

  -- Whatever requests are served on a chain without rows, the stored balances are the list of a
  -- replay of the transactions of the finalized blocks, which does not raise, and every block but
  -- the last is finalized.
  pub serve_all-Balanced :
      (requests : List Request)
      → let s = (serve_all setup requests empty_session).committed in
        ((state : CreditState) × (replay_transactions setup.py
              (tx_of (list_sealed_transactions true s))
            ≡ ok state)
          × (s.balances ≡ to_list state))
        × OneOpen s.blocks
  serve_all-Balanced requests =
      let (_, (booked, _)) = serve_all-Books requests empty_session (empty-Kept, empty-Kept) in
      ((booked.replayed, booked.replays, booked.balanced), booked.one_open)
