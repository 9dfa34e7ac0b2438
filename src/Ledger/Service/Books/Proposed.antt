-- ===== src/Ledger/Service/Books/Proposed.antt =====
-- deepiri_zepgpu/compute_ledger/service.py: `seal_pending` keeps the books.
use deepiri_zepgpu.Base.Dict.{is_some}
use deepiri_zepgpu.Ledger.Service.Books.Replayed.{replay_transactions-append, finish_block-frame}
use deepiri_zepgpu.Ledger.Service.Books.Opened.{
  ensure_initialized-Running, sign_block-frame, store_block-Running, Kept, validators-Kept, Running,
}
use deepiri_zepgpu.Ledger.Service.Books.Persisted.{persist_block-IsBooked, IsProposal}
use deepiri_zepgpu.Ledger.Replay.{replay_from, replay_transactions}
use deepiri_zepgpu.Ledger.Replay.Monad.{CreditState}
use deepiri_zepgpu.Base.{
  string_eq, nat_eq, ◌==◌, Bool-cases, Option-cases, length, any, elem, Outcome-cases, ok, ◌+◌,
  String, ◌≡◌, refl, sym, ap, subst, ◌∙◌, inl, inr, true, false, Option, none, some, List, [], ◌∷◌,
  ◌++◌,
}
use deepiri_zepgpu.Base.Int.{pos, ◌+ℤ◌, ℤ}
use deepiri_zepgpu.Base.Sorting.{filter}
use deepiri_zepgpu.Ledger.Transaction.{ComputeTransaction}
use deepiri_zepgpu.Ledger.Block.{ComputeBlock}
use deepiri_zepgpu.Ledger.Store.{
  get_tip, get_unfinalized_tip, list_pending_transactions, list_sealed_transactions, BlockRow,
  upsert_validator,
}
use deepiri_zepgpu.Ledger.Store.Sealing.{is_pending}
use deepiri_zepgpu.Ledger.Store.Sealed.{tx_of}
use deepiri_zepgpu.Ledger.Store.Chain.{
  get_tip-Below, Below-next, get_unfinalized_tip-none, AllFinal, Below,
}
use deepiri_zepgpu.Ledger.Service.Setup.{extra_validator_keys, validator_keys, Setup}
use deepiri_zepgpu.Ledger.Service.Session.{Session}
use deepiri_zepgpu.Ledger.Service.Propose.{
  active_keys, sign_block, applied, finish_block, cosign_new, approve_with, cosign,
}
use deepiri_zepgpu.Ledger.Service.Handlers.{
  seal_started, ensure_initialized, new_block, replay_onto, propose_onto, finish_onto, state_if,
  seal_pending, seal_onto, ensure_validator,
}
use deepiri_zepgpu.Ledger.Service.Books.{PrintsIds}
use deepiri_zepgpu.Ledger.Service.Books.Triples.{Ends-bind, Ends}

module _ (setup : Setup) where
  -- Where `txs` can be sealed: they are what is pending, on finalized blocks no higher than `height`.
  abbrev Ready : ℤ → List ComputeTransaction → Session → Type 0
  Ready height txs s =
      Running setup s
      × AllFinal s.store.blocks
      × Below height s.store.blocks
      × (txs ≡ tx_of (filter is_pending s.store.transactions))

  Ready-upsert :
      (height : ℤ) (txs : List ComputeTransaction) (key label : String) (s : Session)
      → Ready height txs s
      → Ready height txs (record s { store = upsert_validator key label s.store })
  unfolding upsert_validator
  Ready-upsert height txs key label s ((kept, committed, some_block), final, below, same) =
      ((validators-Kept setup _ s.store kept, committed, some_block), final, below, same)

  ensure_validator-Ready :
      (height : ℤ) (txs : List ComputeTransaction) (key : String) (validators : List String)
      (s : Session)
      → Ready height txs s
      → Ends
          (Kept setup)
          (λ _. Ready height txs)
          (ensure_validator setup key validators s).0
          (ensure_validator setup key validators s).1
  unfolding ensure_validator
  ensure_validator-Ready height txs key validators s ready =
      elim (Bool-cases (elem key validators)) [
        | inl there ↦ rw there ready
        | inr new ↦ rw new (Ready-upsert height txs key "relay" s ready)
      ]

  -- `state` is the replay with the pending transactions.
  abbrev Replays : CreditState → Session → Type 0
  Replays state s =
      replay_transactions setup.py (
        tx_of (list_sealed_transactions true s.store)
        ++ tx_of (filter is_pending s.store.transactions))
      ≡ ok state

  Replays-upsert :
      (state : CreditState) (key label : String) (s : Session)
      → Replays state s
      → Replays state (record s { store = upsert_validator key label s.store })
  unfolding upsert_validator list_sealed_transactions
  Replays-upsert state key label s replays = replays

  -- Co-signing adds approvals to the block and validators to the rows.
  abbrev Cosigned :
      ℤ
      → List ComputeTransaction
      → CreditState
      → ComputeBlock
      → List String × ComputeBlock
      → Session
      → Type 0
  Cosigned height txs state block result s =
      Ready height txs s
      × Replays state s
      × (result.1.height ≡ block.height)
      × (result.1.transactions ≡ block.transactions)

  cosign_new-Cosigned :
      (height : ℤ) (txs : List ComputeTransaction) (state : CreditState)
      (keys : List (String × String)) (validators : List String) (block : ComputeBlock)
      (s : Session)
      → Ready height txs s
      → Replays state s
      → Ends
          (Kept setup)
          (Cosigned height txs state block)
          (cosign_new setup keys validators block s).0
          (cosign_new setup keys validators block s).1
  unfolding cosign_new
  cosign_new-Cosigned height txs state [] validators block s ready replays =
      (ready, replays, refl, refl)
  cosign_new-Cosigned height txs state (k ∷ keys) validators block s ready replays =
      let block' = approve_with setup block (cosign setup k block.hash) in
      let added = upsert_validator k.1 "extra" s.store in
      elim (Bool-cases (any (λ a. a.validator == k.1) block.approvals)) [
        | inl signed ↦
            rw signed (cosign_new-Cosigned height txs state keys validators block s ready replays)
        | inr unsigned ↦ elim (Bool-cases (elem k.1 validators)) [
          | inl known ↦
              rw (unsigned, known)
                (cosign_new-Cosigned height txs state keys validators block' s ready replays)
          | inr new ↦
              rw (unsigned, new)
                (cosign_new-Cosigned height txs state keys (k.1 ∷ validators) block'
                  (record s { store = added }) (Ready-upsert height txs k.1 "extra" s ready)
                  (Replays-upsert state k.1 "extra" s replays))
        ]
      ]

  finish_onto-Running :
      (prints : PrintsIds setup.columns) (tip : BlockRow) (txs : List ComputeTransaction)
      (state : CreditState) (validators : List String) (proposed : ComputeBlock) (s : Session)
      → Ready (tip.height +ℤ pos 1) txs s
      → Replays state s
      → proposed.height ≡ tip.height +ℤ pos 1
      → proposed.transactions ≡ txs
      → Ends
          (Kept setup)
          (λ _. Running setup)
          (finish_onto setup tip state (validators, proposed) s).0
          (finish_onto setup tip state (validators, proposed) s).1
  unfolding finish_onto
  finish_onto-Running prints tip txs state validators proposed s
        ((kept, committed, some_block), final, below, same) replays high holds =
      elim (Outcome-cases (finish_block setup validators tip.hash (tip.height +ℤ pos 1) proposed)) [
        | inr (e, raised) ↦ rw raised committed
        | inl (block, finishes) ↦
            let (height, transactions) = finish_block-frame setup _ _ _ proposed block finishes in
            let proposal : IsProposal setup block s.store = record {
              booked = kept.0;
              final = final;
              below = subst (λ x. Below x s.store.blocks) (sym (height ∙ high)) below;
              transactions = transactions ∙ (holds ∙ same);
            } in
            rw finishes (
              store_block-Running setup block (state_if block.finalized state) s committed
                (λ store h.
                  persist_block-IsBooked setup prints block state s.store store proposal replays h))
      ]

  propose_onto-Running :
      (prints : PrintsIds setup.columns) (tip : BlockRow) (txs : List ComputeTransaction)
      (validators : List String) (state : CreditState) (s : Session)
      → Ready (tip.height +ℤ pos 1) txs s
      → Replays state s
      → Ends
          (Kept setup)
          (λ _. Running setup)
          (propose_onto setup tip txs validators state s).0
          (propose_onto setup tip txs validators state s).1
  unfolding propose_onto
  propose_onto-Running prints tip txs validators state s ready replays =
      let (priv, key) = validator_keys setup in
      let draft = new_block setup (tip.height +ℤ pos 1) tip.hash txs key s.draws in
      let signed = sign_block setup priv state draft in
      let s1 = record s { draws = s.draws + 1 } in
      Ends-bind (Kept setup) (λ _. Running setup) s1
        (Cosigned (tip.height +ℤ pos 1) txs state signed)
        (cosign_new setup (extra_validator_keys setup) validators signed)
        (finish_onto setup tip state)
        (cosign_new-Cosigned (tip.height +ℤ pos 1) txs state (extra_validator_keys setup) validators
          signed s1 ready replays)
        (λ result s' (ready', replays', high, holds).
          let (same_txs, same_height) = sign_block-frame setup priv state draft in
          finish_onto-Running prints tip txs state result.0 result.1 s' ready' replays'
            (high ∙ same_height) (holds ∙ same_txs))

  replay_onto-Running :
      (prints : PrintsIds setup.columns) (tip : BlockRow) (txs : List ComputeTransaction)
      (validators : List String) (s : Session)
      → Ready (tip.height +ℤ pos 1) txs s
      → Ends
          (Kept setup)
          (λ _. Running setup)
          (replay_onto setup tip txs validators s).0
          (replay_onto setup tip txs validators s).1
  unfolding replay_onto
  replay_onto-Running prints tip txs validators s (running, final, below, same) =
      let sealed = tx_of (list_sealed_transactions true s.store) in
      elim (Outcome-cases (replay_transactions setup.py sealed)) [
        | inr (e, raised) ↦ rw raised (running.1)
        | inl (state, replays) ↦ elim (Outcome-cases (applied (replay_from setup.py txs state))) [
          | inr (e, raised) ↦ rw (replays, raised) (running.1)
          | inl (state', applies) ↦
              let whole =
                replay_transactions-append setup.py sealed txs state state' replays applies in
              rw (replays, applies)
                (propose_onto-Running prints tip txs validators state' s
                  (running, final, below, same)
                  (ap (λ more. replay_transactions setup.py (sealed ++ more)) (sym same) ∙ whole))
        ]
      ]

  seal_onto-Running :
      (prints : PrintsIds setup.columns) (tip : BlockRow) (txs : List ComputeTransaction)
      (s : Session)
      → Ready (tip.height +ℤ pos 1) txs s
      → Ends
          (Kept setup)
          (λ _. Running setup)
          (seal_onto setup tip txs s).0
          (seal_onto setup tip txs s).1
  unfolding seal_onto
  seal_onto-Running prints tip txs s ready =
      let key = (validator_keys setup).1 in
      Ends-bind (Kept setup) (λ _. Running setup) s (λ _. Ready (tip.height +ℤ pos 1) txs)
        (ensure_validator setup key (active_keys s.store)) (replay_onto setup tip txs)
        (ensure_validator-Ready (tip.height +ℤ pos 1) txs key (active_keys s.store) s ready)
        (λ validators s' ready'. replay_onto-Running prints tip txs validators s' ready')

  is_some-none : {A : Type 0} (o : Option A) → is_some o ≡ false → o ≡ none
  is_some-none none h = refl
  is_some-none (some a) h = absurd cc

  seal_started-Running :
      (prints : PrintsIds setup.columns) (s : Session)
      → Running setup s
      → Ends (Kept setup) (λ _. Running setup) (seal_started setup s).0 (seal_started setup s).1
  unfolding seal_started list_pending_transactions
  seal_started-Running prints s running =
      let txs = tx_of (filter is_pending s.store.transactions) in
      elim (Bool-cases (is_some (get_unfinalized_tip s.store))) [
        | inl waits ↦ rw waits (running.1)
        | inr free ↦
            let final =
              get_unfinalized_tip-none s.store (is_some-none (get_unfinalized_tip s.store) free) in
            elim (Bool-cases (length txs == 0)) [
              | inl nothing ↦ rw (free, nothing) running
              | inr something ↦ elim (Option-cases (get_tip true s.store)) [
                | inl no_tip ↦ rw (free, something, no_tip) (running.1)
                | inr (tip, top) ↦
                    let below =
                      Below-next tip.height s.store.blocks (get_tip-Below s.store tip final top) in
                    rw (free, something, top)
                      (Ends-bind (Kept setup) (λ _. Running setup) s (λ _. Running setup)
                        (seal_onto setup tip txs) (λ block t. (ok (some block), t))
                        (seal_onto-Running prints tip txs s (running, final, below, refl))
                        (λ block t done. done))
              ]
            ]
      ]

  pub seal_pending-Running :
      (prints : PrintsIds setup.columns) (s : Session)
      → Kept setup s.store
      → Kept setup s.committed
      → Ends (Kept setup) (λ _. Running setup) (seal_pending setup s).0 (seal_pending setup s).1
  unfolding seal_pending
  seal_pending-Running prints s kept committed =
      Ends-bind (Kept setup) (λ _. Running setup) s (λ _. Running setup) (ensure_initialized setup)
        (λ _. seal_started setup) (ensure_initialized-Running setup prints s kept committed)
        (λ _ s' running. seal_started-Running prints s' running)
