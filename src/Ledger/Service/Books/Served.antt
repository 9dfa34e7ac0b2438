-- ===== src/Ledger/Service/Books/Served.antt =====
-- deepiri_zepgpu/compute_ledger/service.py: submissions and approvals keep the books.
use deepiri_zepgpu.Ledger.Replay.Monad.{CreditState}
use deepiri_zepgpu.Ledger.Replay.Listing.{to_list}
use deepiri_zepgpu.Ledger.Replay.{replay_transactions}
use deepiri_zepgpu.Ledger.Service.Books.Proposed.{seal_pending-Running}
use deepiri_zepgpu.Ledger.Service.Books.Added.{add_pending_transaction-IsBooked}
use deepiri_zepgpu.Base.Int.{leb_ℤ}
use deepiri_zepgpu.Base.{
  Bool-cases, ok-injective, Outcome-cases, ok, String, ◌≡◌, refl, sym, ap, subst, ◌∙◌, ◌≢◌, inl,
  inr, Bool, true, false, Option, none, some, List, [], ◌++◌,
}
use deepiri_zepgpu.Ledger.Transaction.{ComputeTransaction}
use deepiri_zepgpu.Ledger.Block.{ComputeBlock}
use deepiri_zepgpu.Ledger.Poa.{validate_block, BlockOptions, validate_transaction}
use deepiri_zepgpu.Ledger.Store.{
  replace_balances, list_sealed_transactions, BlockRow, get_max_nonce, add_pending_transaction,
  update_block_approvals, block_transactions,
}
use deepiri_zepgpu.Ledger.Store.Sealed.{map-append, ++-nil, tx_of}
use deepiri_zepgpu.Ledger.Service.Setup.{quorum_threshold, Setup}
use deepiri_zepgpu.Ledger.Service.Session.{Session}
use deepiri_zepgpu.Ledger.Service.Handlers.{seal_pending, seal_submitted, submit_started}
use deepiri_zepgpu.Ledger.Service.Approve.{store_approvals, finalize_block}
use deepiri_zepgpu.Ledger.Service.Books.{IsBooked, Store, PrintsIds}
use deepiri_zepgpu.Ledger.Service.Books.Opened.{committed-Running, Kept, Running}
use deepiri_zepgpu.Ledger.Service.Books.Replayed.{validate_block-frame}
use deepiri_zepgpu.Ledger.Service.Books.Waiting.{
  approved-IsBooked, sealed-approved, with_approvals, update_block_approvals-waiting,
  with_approvals-nonempty, IsWaiting,
}
use deepiri_zepgpu.Ledger.Service.Books.Triples.{Ends-bind, Ends-try_write, Ends}

module _ (setup : Setup) (prints : PrintsIds setup.columns) where
  seal_submitted-Running :
      (tx : ComputeTransaction) (auto_seal : Option Bool) (s : Session)
      → Running setup s
      → Ends
          (Kept setup)
          (λ _. Running setup)
          (seal_submitted setup tx auto_seal s).0
          (seal_submitted setup tx auto_seal s).1
  unfolding seal_submitted
  seal_submitted-Running tx auto_seal s running =
      let should_seal : Bool = elim auto_seal [ none ↦ setup.auto_seal | some b ↦ b ] in
      elim (Bool-cases should_seal) [
        | inl seals ↦ rw seals (
            Ends-bind (Kept setup) (λ _. Running setup) s (λ _. Running setup) (seal_pending setup)
              (λ block t. (ok (tx, block), t))
              (seal_pending-Running setup prints s running.0 running.1) (λ block t done. done))
        | inr waits ↦ rw waits running
      ]

  pub submit_started-Running :
      (tx : ComputeTransaction) (auto_seal : Option Bool) (require_signature : Bool) (s : Session)
      → Running setup s
      → Ends
          (Kept setup)
          (λ _. Running setup)
          (submit_started setup tx auto_seal require_signature s).0
          (submit_started setup tx auto_seal require_signature s).1
  unfolding submit_started
  submit_started-Running tx auto_seal require_signature s running =
      elim (Outcome-cases
        (validate_transaction setup.hashing setup.verify_signature require_signature tx)) [
          | inr (e, raised) ↦ rw raised (running.1)
          | inl (u, valid) ↦ elim (Bool-cases (leb_ℤ tx.nonce (get_max_nonce tx.sender s.store))) [
            | inl stale ↦ rw (valid, stale) (running.1)
            | inr fresh ↦
                rw (valid, fresh)
                  (Ends-try_write (Kept setup) (λ _. Running setup) s
                    (seal_submitted setup tx auto_seal)
                    (add_pending_transaction setup.columns setup.hashing tx) running.1
                    (λ store adds.
                      let (booked, same) =
                        add_pending_transaction-IsBooked setup tx s.store store prints running.0.0
                          adds in
                      let some_block : store.blocks ≢ [] = λ h. running.2 (sym same ∙ h) in
                      seal_submitted-Running tx auto_seal (record s { store = store })
                        ((booked, λ h. absurd (some_block h)), running.1, some_block)))
          ]
        ]

  pub store_approvals-Running :
      (block : ComputeBlock) (r : BlockRow) (s : Session)
      → Running setup s
      → IsWaiting setup r s.store
      → block.id ≡ r.id
      → Ends
          (Kept setup)
          (λ _. Running setup)
          (store_approvals setup block s).0
          (store_approvals setup block s).1
  unfolding store_approvals update_block_approvals
  store_approvals-Running block r s running w same =
      Ends-try_write (Kept setup) (λ _. Running setup) s
        (λ t. (ok block, record t { committed = t.store }))
        (update_block_approvals setup.columns block.id block.approvals false) running.1
        (λ store updates.
          let made : with_approvals setup r block.approvals false s.store ≡ store = ok-injective (
            sym
              (update_block_approvals-waiting setup r block.id block.approvals false s.store w same)
            ∙ updates) in
          let sealed =
            sealed-approved setup r block.approvals false s.store w
            ∙ ++-nil (list_sealed_transactions true s.store) in
          let booked =
            approved-IsBooked setup r block.approvals false s.store s.store.balances
              w.booked.replayed w
              (ap (λ rows. replay_transactions setup.py (tx_of rows)) sealed ∙ w.booked.replays)
              w.booked.balanced in
          committed-Running setup s store (subst (IsBooked setup.columns setup.py) made booked) (
            subst (λ t. t.blocks ≢ []) made
              (with_approvals-nonempty setup r block.approvals false s.store running.2)))

  -- The approvals and the balances after the quorum was reached.
  finalized-Running :
      (block : ComputeBlock) (r : BlockRow) (s : Session) (store : Store) (state : CreditState)
      → Running setup s
      → IsWaiting setup r s.store
      → block.id ≡ r.id
      → block.transactions ≡ tx_of (block_transactions r.id s.store.transactions)
      → replay_transactions setup.py
          (tx_of (list_sealed_transactions true s.store) ++ block.transactions)
        ≡ ok state
      → update_block_approvals setup.columns block.id block.approvals true s.store ≡ ok store
      → let final = replace_balances (to_list state) store in
        Running setup (record s { store = final; committed = final })
  unfolding replace_balances
  finalized-Running block r s store state running w same holds replays updates =
      let made : with_approvals setup r block.approvals true s.store ≡ store = ok-injective (
        sym (update_block_approvals-waiting setup r block.id block.approvals true s.store w same)
        ∙ updates) in
      let sealed = sealed-approved setup r block.approvals true s.store w in
      let old = list_sealed_transactions true s.store in
      let rows = block_transactions r.id s.store.transactions in
      let whole =
        ap (λ out. replay_transactions setup.py (tx_of out)) sealed
        ∙ (ap (replay_transactions setup.py) (map-append (λ r. r.tx) old rows)
            ∙ (ap (λ txs. replay_transactions setup.py (tx_of old ++ txs)) (sym holds)
                ∙ replays)) in
      let booked =
        approved-IsBooked setup r block.approvals true s.store (to_list state) state w whole refl in
      committed-Running setup s (replace_balances (to_list state) store)
        (subst (λ t. IsBooked setup.columns setup.py (replace_balances (to_list state) t)) made
          booked)
        (subst (λ t. t.blocks ≢ []) made
          (with_approvals-nonempty setup r block.approvals true s.store running.2))

  pub finalize_block-Running :
      (validators : List String) (block : ComputeBlock) (r : BlockRow) (s : Session)
      → Running setup s
      → IsWaiting setup r s.store
      → block.id ≡ r.id
      → block.transactions ≡ tx_of (block_transactions r.id s.store.transactions)
      → Ends
          (Kept setup)
          (λ _. Running setup)
          (finalize_block setup validators block s).0
          (finalize_block setup validators block s).1
  unfolding finalize_block update_block_approvals
  finalize_block-Running validators block r s running w same holds =
      let options : BlockOptions = record {
        authorized_validators = validators;
        expected_previous_hash = none;
        expected_height = none;
        require_tx_signatures = true;
        quorum_threshold = quorum_threshold setup;
        require_quorum = true;
      } in
      let prior = tx_of (list_sealed_transactions true s.store) in
      elim (Outcome-cases (validate_block setup.hashing setup.verify_signature options block)) [
        | inr (e, raised) ↦ rw raised (running.1)
        | inl (checked, validates) ↦
            elim (Outcome-cases (replay_transactions setup.py (prior ++ checked.transactions))) [
              | inr (e, raised) ↦ rw (validates, raised) (running.1)
              | inl (state, replays) ↦
                  let frame = validate_block-frame setup options block checked validates in
                  rw (validates, replays)
                    (Ends-try_write (Kept setup) (λ _. Running setup) s
                      (λ t.
                        let t' = record t { store = replace_balances (to_list state) t.store } in
                        (ok checked, record t' { committed = t'.store }))
                      (update_block_approvals setup.columns checked.id checked.approvals true)
                      running.1
                      (λ store updates.
                        finalized-Running checked r s store state running w (frame.2 ∙ same)
                          (frame.1 ∙ holds) replays updates))
            ]
      ]
