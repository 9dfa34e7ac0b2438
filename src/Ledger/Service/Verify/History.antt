-- ===== src/Ledger/Service/Verify/History.antt =====
-- deepiri_zepgpu/compute_ledger/service.py: the chains that `verify_chain` reports valid.
use deepiri_zepgpu.Base.Int.{◌+ℤ◌, pos, ℤ}
use deepiri_zepgpu.Base.{
  if◌then◌else◌, string_eq, nat_eq, ◌==◌, length, Outcome, ok, raise, String, ◌≡◌, refl, sym, ap,
  ◌∙◌, ◌↔◌, true, Option, List, [], ◌∷◌, ◌++◌, arith,
}
use deepiri_zepgpu.Ledger.Block.{ComputeBlock, genesis_prev_hash}
use deepiri_zepgpu.Ledger.Transaction.{ComputeTransaction}
use deepiri_zepgpu.Ledger.Poa.{LedgerValidationError, validate_block}
use deepiri_zepgpu.Ledger.Replay.{replay_transactions}
use deepiri_zepgpu.Ledger.Replay.Listing.{to_list}
use deepiri_zepgpu.Ledger.Replay.Monad.{ReplayError, CreditState}
use deepiri_zepgpu.Ledger.Service.Setup.{Setup}
use deepiri_zepgpu.Ledger.Store.{BlockRow}
use deepiri_zepgpu.Ledger.Service.Verify.{
  replay_or_empty, block_refused, block_faults, history_options, history_loop, chain_report,
}

-- The transactions of the finalized blocks.
abbrev pub finalized_of : List ComputeBlock → List ComputeTransaction
finalized_of [] = []
finalized_of (b ∷ bs) = if b.finalized then b.transactions ++ finalized_of bs else finalized_of bs

++-empty : {A : Type 0} (xs ys : List A) → xs ++ ys ≡ [] → (xs ≡ []) × (ys ≡ [])
++-empty [] ys h = (refl, h)
++-empty (x ∷ xs) ys h = absurd cc

empty-length : {A : Type 0} (xs : List A) → (length xs == 0) ≡ true → xs ≡ []
empty-length [] h = refl
empty-length (x ∷ xs) h = absurd (ground arith)

-- The replay adds no fault exactly if it returned, and then the state is its own.
replay_or_empty_iff :
    (r : Outcome ReplayError CreditState)
    → ((replay_or_empty r).1 ≡ [])
      ↔ ((state : CreditState) × (r ≡ ok state) × ((replay_or_empty r).0 ≡ state))
replay_or_empty_iff (ok state) = (λ _. (state, refl, refl), λ _. refl)
replay_or_empty_iff (raise e) = (λ h. absurd cc, λ (_, h, _). absurd cc)

module _ (setup : Setup) where
  -- Each block is accepted on its predecessor at its height.
  abbrev pub IsHistory : List String → String → ℤ → List ComputeBlock → Type 0
  IsHistory validators prev height [] = Unit
  IsHistory validators prev height (b ∷ bs) =
      (checked : ComputeBlock) × (validate_block setup.hashing setup.verify_signature
          (history_options setup validators prev height b) b
        ≡ ok checked)
      × IsHistory validators b.hash (height +ℤ pos 1) bs

  block_faults-empty :
      (validators : List String) (prev : String) (height : ℤ) (b : ComputeBlock)
      → block_faults setup validators prev height b ≡ []
      → (checked : ComputeBlock) × (validate_block setup.hashing setup.verify_signature
            (history_options setup validators prev height b)
            b
          ≡ ok checked)
  unfolding block_faults
  block_faults-empty validators prev height b h =
      by_outcome
        (validate_block setup.hashing setup.verify_signature
          (history_options setup validators prev height b) b)
        h
    where
      by_outcome :
          (r : Outcome LedgerValidationError ComputeBlock)
          → (elim r [ ok c ↦ [] | raise e ↦ block_refused height e ∷ [] ]) ≡ []
          → (checked : ComputeBlock) × (r ≡ ok checked)
      by_outcome (ok c) e = (c, refl)
      by_outcome (raise x) e = absurd cc

  history_loop_sound :
      (validators : List String) (prev : String) (height : ℤ) (blocks : List ComputeBlock)
      → (history_loop setup validators prev height blocks).0 ≡ []
      → IsHistory validators prev height blocks
  unfolding history_loop
  history_loop_sound validators prev height [] h = tt
  history_loop_sound validators prev height (b ∷ bs) h =
      let (here, rest) = ++-empty (block_faults setup validators prev height b) _ h in
      let (checked, accepts) = block_faults-empty validators prev height b here in
      (checked, accepts, history_loop_sound validators b.hash (height +ℤ pos 1) bs rest)

  history_loop_complete :
      (validators : List String) (prev : String) (height : ℤ) (blocks : List ComputeBlock)
      → IsHistory validators prev height blocks
      → (history_loop setup validators prev height blocks).0 ≡ []
  unfolding history_loop
  history_loop_complete validators prev height [] h = refl
  history_loop_complete validators prev height (b ∷ bs) (checked, accepts, rest) =
      let here : block_faults setup validators prev height b ≡ [] =
        rw (block_faults, accepts) refl in
      rw (here, history_loop_complete validators b.hash (height +ℤ pos 1) bs rest) refl

  history_loop-finalized :
      (validators : List String) (prev : String) (height : ℤ) (blocks : List ComputeBlock)
      → (history_loop setup validators prev height blocks).1 ≡ finalized_of blocks
  unfolding history_loop
  history_loop-finalized validators prev height [] = refl
  history_loop-finalized validators prev height (b ∷ bs) =
      rw (history_loop-finalized validators b.hash (height +ℤ pos 1) bs) refl

  -- The report on a chain says `valid` exactly if every block is accepted by `validate_block` on the
  -- hash and height of the one before, from the genesis on, with its own approvals as the quorum
  -- where it is finalized, and the transactions of the finalized blocks replay without a raise; and
  -- then the balances reported are those of the replay.
  pub chain_report_iff :
      (validators : List String) (tip : Option BlockRow) (blocks : List ComputeBlock)
      → ((chain_report setup validators tip blocks).valid ≡ true) ↔ (
          IsHistory validators genesis_prev_hash (pos 0) blocks
          × ((state : CreditState) × (replay_transactions setup.py (finalized_of blocks) ≡ ok state)
              × ((chain_report setup validators tip blocks).balances ≡ to_list state)))
  unfolding chain_report
  chain_report_iff validators tip blocks =
      let loop = history_loop setup validators genesis_prev_hash (pos 0) blocks in
      let same = history_loop-finalized validators genesis_prev_hash (pos 0) blocks in
      (
        λ h.
            let (blocks_good, replay_good) = ++-empty loop.0 _ (empty-length _ h) in
            let (state, replays, left) =
              (replay_or_empty_iff (replay_transactions setup.py loop.1)).0 replay_good in
            (
              history_loop_sound validators genesis_prev_hash (pos 0) blocks blocks_good,
              (
                state,
                ap (λ txs. replay_transactions setup.py txs) (sym same) ∙ replays,
                ap to_list left,
              ),
            ),
        λ (history, (state, replays, left)).
            let none_of_blocks =
              history_loop_complete validators genesis_prev_hash (pos 0) blocks history in
            let replay_good : (replay_or_empty (replay_transactions setup.py loop.1)).1 ≡ [] =
              rw (same, replays) refl in
            rw (none_of_blocks, replay_good) refl,
      )
