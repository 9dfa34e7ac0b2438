-- ===== src/Ledger/Service/Books/Opened.antt =====
-- deepiri_zepgpu/compute_ledger/service.py: `ensure_initialized` keeps the books, and opens them with
-- the first block.
use deepiri_zepgpu.Base.Int.{pos}
use deepiri_zepgpu.Ledger.Poa.Valid.{ensure_proposer_approval_frame}
use deepiri_zepgpu.Ledger.Service.Books.Replayed.{
  finish_block-frame, replay_transactions-append, applied-ok,
}
use deepiri_zepgpu.Ledger.Store.Chain.{is_final, sort_by-empty, Below, AllFinal}
use deepiri_zepgpu.Ledger.Store.Sealed.{tx_of}
use deepiri_zepgpu.Ledger.Service.Books.Persisted.{with_balances-IsBooked, create_block-pending}
use deepiri_zepgpu.Ledger.Store.Sealing.{is_pending, ids}
use deepiri_zepgpu.Base.{
  if◌then◌else◌, string_eq, nat_eq, ◌==◌, Option-cases, any, Outcome, ◌>>=◌, >>=-eq-ok,
  ok-injective, Outcome-cases, ok, raise, ℕ, ◌+◌, String, ◌≡◌, refl, sym, ap, subst, ◌∙◌, ◌≢◌, inl,
  inr, true, false, Option, none, List, [], ◌∷◌, ◌++◌, map,
}
use deepiri_zepgpu.Ledger.Transaction.{validator_registered, ComputeTransaction}
use deepiri_zepgpu.Ledger.Block.{genesis_prev_hash, ComputeBlock}
use deepiri_zepgpu.Ledger.Replay.{replay_from, replay_transactions, apply_transaction}
use deepiri_zepgpu.Ledger.Replay.Monad.{ReplayError, CreditState, fresh_state}
use deepiri_zepgpu.Ledger.Store.{
  lower_first, get_tip, higher_first, first_of, join_rows, list_sealed_transactions,
  add_pending_transaction, BlockRow, create_block, seal_row, Store, ValidatorRow, TxRow,
  upsert_validator, stored, seal_rows,
}
use deepiri_zepgpu.Base.Sorting.{filter, sort_by}
use deepiri_zepgpu.Ledger.Service.Setup.{validator_keys, extra_validator_keys, Setup}
use deepiri_zepgpu.Ledger.Service.Session.{Session}
use deepiri_zepgpu.Ledger.Service.Propose.{
  active_keys, finish_block, sign_block, cosign_all, applied,
}
use deepiri_zepgpu.Ledger.Service.Persist.{with_balances, persist_transactions, persist_block}
use deepiri_zepgpu.Ledger.Service.Handlers.{
  store_block, new_block, genesis_payload, new_signed_transaction, existing_or_genesis,
  create_genesis, ensure_initialized, register_extras, state_if,
}
use deepiri_zepgpu.Ledger.Service.Books.{filter, IsBooked, PrintsIds}
use deepiri_zepgpu.Ledger.Service.Books.Added.{
  stored-ok, pending_row, add_pending_transaction-IsBooked, add_pending_transaction-steps,
  validators-IsBooked,
}
use deepiri_zepgpu.Ledger.Service.Books.Triples.{Ends-try_write, Ends}

module _ (setup : Setup) where
  -- The books, and no transaction before the first block.
  abbrev pub Kept : Store → Type 0
  Kept s = IsBooked setup.columns setup.py s × (s.blocks ≡ [] → s.transactions ≡ [])

  -- So the session's rows and the committed ones; the chain has its first block.
  abbrev pub Running : Session → Type 0
  Running s = Kept s.store × Kept s.committed × (s.store.blocks ≢ [])

  pub validators-Kept :
      (validators : List ValidatorRow) (s : Store)
      → Kept s
      → Kept (record s { validators = validators })
  validators-Kept validators s (booked, started) =
      (validators-IsBooked setup validators s booked, started)

  -- A commit of rows in order, with a block.
  pub committed-Running :
      (s : Session) (store : Store)
      → IsBooked setup.columns setup.py store
      → store.blocks ≢ []
      → Running (record s { store = store; committed = store })
  committed-Running s store booked some_block =
      ((booked, λ h. absurd (some_block h)), (booked, λ h. absurd (some_block h)), some_block)

  -- A block that keeps the books where it is stored.
  pub store_block-Running :
      (block : ComputeBlock) (state : Option CreditState) (s : Session)
      → Kept s.committed
      → ((store : Store)
          → persist_block setup block state s.store ≡ ok store
          → IsBooked setup.columns setup.py store × (store.blocks ≢ []))
      → Ends Kept
          (λ _. Running)
          (store_block setup block state s).0
          (store_block setup block state s).1
  unfolding store_block
  store_block-Running block state s kept books =
      Ends-try_write Kept (λ _. Running) s (λ t. (ok block, record t { committed = t.store }))
        (persist_block setup block state) kept
        (λ store h. committed-Running s store (books store h).0 (books store h).1)

  register_extras-validators :
      (i : ℕ) (keys : List (String × String)) (s : Store)
      → (validators : List ValidatorRow) × (register_extras setup i keys s
          ≡ record s { validators = validators })
  unfolding register_extras upsert_validator
  register_extras-validators i [] s = (s.validators, refl)
  register_extras-validators i (k ∷ keys) s =
      let (validators, same) = register_extras-validators (i + 1) keys _ in (validators, same)

  -- The row that `_persist_block` makes of a block.
  abbrev block_row : ComputeBlock → String → String → BlockRow
  block_row block id timestamp = record {
    id = id;
    height = block.height;
    hash = block.hash;
    previous_hash = block.previous_hash;
    timestamp = timestamp;
    transactions_root = block.transactions_root;
    state_root = block.state_root;
    validator_public_key = block.validator;
    validator_signature = block.validator_signature;
    approvals = block.approvals;
    finalized = block.finalized;
  }

  seal_rows-same :
      (block_id : String) (position : ℕ) (x y : String) (rows : List TxRow)
      → setup.columns.uuid_text x ≡ setup.columns.uuid_text y
      → seal_rows setup.columns block_id position (x ∷ []) rows
        ≡ seal_rows setup.columns block_id position (y ∷ []) rows
  unfolding seal_rows
  seal_rows-same block_id position x y rows same =
      ap
        (λ o. stored o >>= λ id.
          seal_rows setup.columns block_id (position + 1) [] (seal_row block_id position id rows))
        same

  create_block-same :
      (b : BlockRow) (x y : String) (s : Store)
      → setup.columns.uuid_text x ≡ setup.columns.uuid_text y
      → create_block setup.columns b (x ∷ []) s ≡ create_block setup.columns b (y ∷ []) s
  unfolding create_block
  create_block-same b x y s same = rw (seal_rows-same b.id 0 x y s.transactions same) refl

  -- The transaction of the first block gets the only row.
  persist_first-steps :
      (tx : ComputeTransaction) (s s' : Store)
      → s.transactions ≡ []
      → persist_transactions setup (tx ∷ []) s ≡ ok s'
      → add_pending_transaction setup.columns setup.hashing tx s ≡ ok s'
  unfolding persist_transactions
  persist_first-steps tx s s' no_rows h =
      let (id, e1, h1) = >>=-eq-ok (stored (setup.columns.uuid_text tx.id)) _ h in
      let adds = add_pending_transaction setup.columns setup.hashing tx s in
      let (s2, e2, h2) =
        >>=-eq-ok (if any (λ r. r.tx.id == id) s.transactions then ok s else adds) _ h1 in
      ap (λ rows. if any (λ r. r.tx.id == id) rows then ok s else adds) (sym no_rows) ∙ (e2 ∙ h2)

  -- The replay of one transaction, whatever id and time its row prints.
  replay_one :
      (tx : ComputeTransaction) (id timestamp : String) (state : CreditState)
      → applied (apply_transaction setup.py tx fresh_state) ≡ ok state
      → replay_transactions setup.py (record tx { id = id; timestamp = timestamp } ∷ []) ≡ ok state
  unfolding replay_transactions replay_from apply_transaction
  replay_one tx id timestamp state applies =
      let same : apply_transaction setup.py (record tx { id = id; timestamp = timestamp })
            fresh_state
          ≡ (ok tt, state) =
        applied-ok (apply_transaction setup.py tx fresh_state) state applies in
      replay_transactions-append setup.py [] (record tx { id = id; timestamp = timestamp } ∷ [])
        fresh_state state refl
        (ap
          (λ (p : Outcome ReplayError (Unit {0}) × CreditState).
            applied (elim p.0 as (λ _. Outcome ReplayError (Unit {0}) × CreditState) [
              | ok u ↦ (ok tt, p.1)
              | raise e ↦ (raise e, p.1)
            ]))
          same)

  sealed-no_blocks : (s : Store) → s.blocks ≡ [] → list_sealed_transactions true s ≡ []
  unfolding list_sealed_transactions join_rows
  sealed-no_blocks s none_yet =
      ap (λ bs. join_rows (sort_by lower_first (filter is_final bs)) s.transactions) none_yet

  -- The first transaction and block on empty rows.
  persist_first-IsBooked :
      (prints : PrintsIds setup.columns) (block : ComputeBlock) (tx : ComputeTransaction)
      (state : CreditState) (s s' : Store)
      → IsBooked setup.columns setup.py s
      → s.blocks ≡ []
      → s.transactions ≡ []
      → block.transactions ≡ tx ∷ []
      → applied (apply_transaction setup.py tx fresh_state) ≡ ok state
      → persist_block setup block (state_if block.finalized state) s ≡ ok s'
      → IsBooked setup.columns setup.py s' × (s'.blocks ≢ [])
  unfolding persist_block
  persist_first-IsBooked prints block tx state s s' booked no_blocks no_rows single applies h =
      let (s1, e1, h1) = >>=-eq-ok (persist_transactions setup block.transactions s) _ h in
      let adds =
        persist_first-steps tx s s1 no_rows
          (ap (λ txs. persist_transactions setup txs s) (sym single) ∙ e1) in
      let (i, at, canonical, new, made) = add_pending_transaction-steps setup tx s s1 adds in
      let (booked1, blocks1) = add_pending_transaction-IsBooked setup tx s s1 prints booked adds in
      let only = pending_row setup tx i at in
      let rows1 : s1.transactions ≡ only ∷ [] =
        ap (λ t. t.transactions) made ∙ ap (λ rows. rows ++ only ∷ []) no_rows in
      let (id, e2, h2) = >>=-eq-ok (stored (setup.columns.uuid_text block.id)) _ h1 in
      let (time, e3, h3) = >>=-eq-ok (stored (setup.columns.time_text block.timestamp)) _ h2 in
      let b = block_row block id time in
      let (s2, e4, h4) =
        >>=-eq-ok (create_block setup.columns b (map (λ tx. tx.id) block.transactions) s1) _ h3 in
      let stores : create_block setup.columns b (ids (filter is_pending s1.transactions)) s1
          ≡ ok s2 =
        ap (λ rows. create_block setup.columns b (ids (filter is_pending rows)) s1) rows1
        ∙ (create_block-same b i tx.id s1 (prints tx.id i canonical ∙ sym canonical)
            ∙ (ap (λ txs. create_block setup.columns b (map (λ tx. tx.id) txs) s1) (sym single)
                ∙ e4)) in
      let (misses, made2) = create_block-pending setup b s1 s2 booked1.keyed stores in
      let no_blocks1 : s1.blocks ≡ [] = blocks1 ∙ no_blocks in
      let replays : replay_transactions setup.py
            (tx_of (list_sealed_transactions true s1) ++ tx_of (filter is_pending s1.transactions))
          ≡ ok state =
        ap
          (λ rows.
            replay_transactions setup.py (tx_of rows ++ tx_of (filter is_pending s1.transactions)))
          (sealed-no_blocks s1 no_blocks1)
        ∙ (ap (λ rows. replay_transactions setup.py (tx_of (filter is_pending rows))) rows1
            ∙ replay_one tx i at state applies) in
      subst (λ t. IsBooked setup.columns setup.py t × (t.blocks ≢ []))
        (sym (
          sym (ok-injective h4)
          ∙ ap (with_balances block.finalized (state_if block.finalized state)) made2))
        (with_balances-IsBooked setup b block.finalized state s1 booked1
          (subst AllFinal (sym no_blocks1) tt) (subst (Below b.height) (sym no_blocks1) tt)
          (prints block.id id (stored-ok (setup.columns.uuid_text block.id) id e2)) misses refl
          replays)

  -- The proposal of the first block keeps its transaction on the way.
  cosign_all-transactions :
      (keys : List (String × String)) (block : ComputeBlock)
      → (cosign_all setup keys block).transactions ≡ block.transactions
  unfolding cosign_all
  cosign_all-transactions [] block = refl
  cosign_all-transactions (k ∷ keys) block = cosign_all-transactions keys _

  pub sign_block-frame :
      (priv : String) (state : CreditState) (block : ComputeBlock)
      → ((sign_block setup priv state block).transactions ≡ block.transactions)
        × ((sign_block setup priv state block).height ≡ block.height)
  unfolding sign_block
  sign_block-frame priv state block =
      let frame = ensure_proposer_approval_frame setup.hashing setup.verify_signature _ in
      (ap (λ b. b.transactions) frame, ap (λ b. b.height) frame)

  create_genesis-Running :
      (prints : PrintsIds setup.columns) (s : Session)
      → Kept s.store
      → Kept s.committed
      → s.store.blocks ≡ []
      → Ends Kept (λ _. Running) (create_genesis setup s).0 (create_genesis setup s).1
  unfolding create_genesis upsert_validator
  create_genesis-Running prints s kept committed no_blocks =
      let (priv, key) = validator_keys setup in
      let extras = extra_validator_keys setup in
      let relay = upsert_validator key "relay" s.store in
      let s1 = register_extras setup 0 extras relay in
      let (validators, same) = register_extras-validators 0 extras relay in
      let (booked, started) = subst Kept (sym same) (validators-Kept _ s.store kept) in
      let no_blocks1 : s1.blocks ≡ [] = ap (λ t. t.blocks) same ∙ no_blocks in
      let tx =
        new_signed_transaction setup priv validator_registered key (pos 0) (genesis_payload setup)
          s.draws in
      let draft = new_block setup (pos 0) genesis_prev_hash (tx ∷ []) key (s.draws + 1) in
      elim (Outcome-cases (applied (apply_transaction setup.py tx fresh_state))) [
        | inr (e, raised) ↦ rw raised committed
        | inl (state, applies) ↦
            let signed = sign_block setup priv state draft in
            let proposed = cosign_all setup extras signed in
            elim (Outcome-cases
              (finish_block setup (active_keys s1) genesis_prev_hash (pos 0) proposed)) [
                | inr (e, raised) ↦ rw (applies, raised) committed
                | inl (block, finishes) ↦
                    let single =
                      (finish_block-frame setup _ _ _ proposed block finishes).1
                      ∙ (cosign_all-transactions extras signed
                          ∙ (sign_block-frame priv state draft).0) in
                    rw (applies, finishes)
                      (store_block-Running block (state_if block.finalized state) _ committed
                        (λ store h.
                          persist_first-IsBooked prints block tx state s1 store booked no_blocks1
                            (started no_blocks1) single applies h))
              ]
      ]

  get_tip-none : (s : Store) → get_tip false s ≡ none → s.blocks ≡ []
  unfolding get_tip
  get_tip-none s h = sort_by-empty higher_first s.blocks h

  get_tip-empty : (s : Store) → s.blocks ≡ [] → get_tip false s ≡ none
  unfolding get_tip
  get_tip-empty s h = ap (λ bs. first_of (sort_by higher_first bs)) h

  pub ensure_initialized-Running :
      (prints : PrintsIds setup.columns) (s : Session)
      → Kept s.store
      → Kept s.committed
      → Ends Kept (λ _. Running) (ensure_initialized setup s).0 (ensure_initialized setup s).1
  unfolding ensure_initialized existing_or_genesis create_genesis
  ensure_initialized-Running prints s kept committed = elim (Option-cases (get_tip false s.store)) [
    | inl none_yet ↦
        rw none_yet (create_genesis-Running prints s kept committed (get_tip-none s.store none_yet))
    | inr (row, there) ↦
        rw there (kept, committed, λ empty. absurd (cc (get_tip-empty s.store empty, there)))
  ]
