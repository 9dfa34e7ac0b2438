-- ===== src/Ledger/Service/Books/Replayed.antt =====
-- deepiri_zepgpu/compute_ledger/service.py and replay.py: a replay in two parts, and what the checks
-- of a proposal keep of it.
use deepiri_zepgpu.Ledger.Poa.Valid.{ensure_proposer_approval_frame, validate_block_sound}
use deepiri_zepgpu.Base.Int.{ℤ}
use deepiri_zepgpu.Base.{
  Bool-cases, Outcome, ok-injective, ok, raise, String, ◌≡◌, refl, sym, ap, ◌∙◌, inl, inr, ◌||◌,
  List, [], ◌∷◌, ◌++◌,
}
use deepiri_zepgpu.Ledger.Json.{Conversions}
use deepiri_zepgpu.Ledger.Transaction.{ComputeTransaction}
use deepiri_zepgpu.Ledger.Block.{ensure_proposer_approval, ValidatorApproval, ComputeBlock}
use deepiri_zepgpu.Ledger.Poa.{BlockOptions, validate_block}
use deepiri_zepgpu.Ledger.Replay.{
  apply_transaction, replay_transactions-ok, replay_from, replay_transactions,
}
use deepiri_zepgpu.Ledger.Replay.Monad.{after-ok, fresh_state, >>-ok, ReplayError, CreditState}
use deepiri_zepgpu.Ledger.Service.Setup.{Setup}
use deepiri_zepgpu.Ledger.Service.Propose.{applied, finish_block}

-- A run as a result: the state, or the exception.
pub applied-ok :
    (r : Outcome ReplayError (Unit {0}) × CreditState) (state : CreditState)
    → applied r ≡ ok state
    → r ≡ (ok tt, state)
applied-ok (ok u, s) state h = ap (λ x. (ok tt, x)) (ok-injective h)
applied-ok (raise e, s) state h = absurd cc

module _ (py : Conversions) where
  pub replay_from-append :
      (txs more : List ComputeTransaction) (s : CreditState)
      → (replay_from py txs s).0 ≡ ok tt
      → replay_from py (txs ++ more) s ≡ replay_from py more (replay_from py txs s).1
  unfolding replay_from
  replay_from-append [] more s h = refl
  replay_from-append (tx ∷ txs) more s h =
      let (first, runs) = >>-ok (apply_transaction py tx) (replay_from py txs) s tt h in
      let s1 = (apply_transaction py tx s).1 in
      let rest : (replay_from py txs s1).0 ≡ ok tt = ap (λ r. r.0) (sym runs) ∙ h in
      after-ok (apply_transaction py tx) (replay_from py (txs ++ more)) s first
      ∙ (replay_from-append txs more s1 rest ∙ ap (λ r. replay_from py more r.1) (sym runs))

  -- A replay goes on where an earlier one ended.
  pub replay_transactions-append :
      (txs more : List ComputeTransaction) (state state' : CreditState)
      → replay_transactions py txs ≡ ok state
      → applied (replay_from py more state) ≡ ok state'
      → replay_transactions py (txs ++ more) ≡ ok state'
  unfolding replay_transactions
  replay_transactions-append txs more state state' h after =
      let (ran, left) = replay_transactions-ok py txs state h in
      let whole = replay_from-append txs more fresh_state ran in
      let last = applied-ok (replay_from py more state) state' after in
      let total = whole ∙ (ap (λ s. replay_from py more s) left ∙ last) in
      ap
        (λ (p : Outcome ReplayError (Unit {0}) × CreditState).
          elim p.0 as (λ _. Outcome ReplayError CreditState) [ ok u ↦ ok p.1 | raise e ↦ raise e ])
        total

-- A block that differs in its approvals has the other fields.
fields :
    {approvals : List ValidatorApproval} (block' block : ComputeBlock)
    → block' ≡ record block { approvals = approvals }
    → (block'.height ≡ block.height)
      × (block'.transactions ≡ block.transactions)
      × (block'.id ≡ block.id)
      × (block'.finalized ≡ block.finalized)
fields block' block same = (
  ap (λ b. b.height) same,
  ap (λ b. b.transactions) same,
  ap (λ b. b.id) same,
  ap (λ b. b.finalized) same,
)

module _ (setup : Setup) where
  -- Validation changes the approvals alone.
  pub validate_block-frame :
      (o : BlockOptions) (block block' : ComputeBlock)
      → validate_block setup.hashing setup.verify_signature o block ≡ ok block'
      → (block'.height ≡ block.height)
        × (block'.transactions ≡ block.transactions)
        × (block'.id ≡ block.id)
        × (block'.finalized ≡ block.finalized)
  validate_block-frame o block block' h =
      let (valid, same) =
        validate_block_sound setup.hashing setup.verify_signature o block block' h in
      let frame = ensure_proposer_approval_frame setup.hashing setup.verify_signature block in
      elim (Bool-cases (o.require_quorum || block.finalized)) [
        | inl needed ↦
            let now : block' ≡ ensure_proposer_approval block = rw needed at same in
            fields block' block (now ∙ frame)
        | inr free ↦ let now : block' ≡ block = rw free at same in fields block' block now
      ]

  pub finish_block-frame :
      (validators : List String) (previous_hash : String) (height : ℤ) (block block' : ComputeBlock)
      → finish_block setup validators previous_hash height block ≡ ok block'
      → (block'.height ≡ block.height) × (block'.transactions ≡ block.transactions)
  unfolding finish_block
  finish_block-frame validators previous_hash height block block' h =
      let kept = validate_block-frame _ _ block' h in (kept.0, kept.1)
