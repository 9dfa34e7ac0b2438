-- ===== src/Ledger/Poa/Valid.antt =====
-- deepiri_zepgpu/compute_ledger/poa.py: which blocks `validate_block` accepts, and how
-- `add_approval` brings a block to its quorum.
use deepiri_zepgpu.Ledger.Merkle.{merkle_root}
use deepiri_zepgpu.Ledger.Poa.Quorum.{validate_approvals_iff, IsEndorsed}
use deepiri_zepgpu.Base.Int.{eq_of_parts, ℤ, ◌≤ℤ◌, pos}
use deepiri_zepgpu.Ledger.Block.{
  compute_hash, leaf_hashes, compute_transactions_root, header_for_hash, ComputeBlock,
  ensure_proposer_approval,
}
use deepiri_zepgpu.Ledger.Poa.{
  validate_block, mismatch, int_eq, validate_approvals, LedgerValidationError, BlockOptions,
  validate_transactions, validate_transaction,
}
use deepiri_zepgpu.Ledger.Transaction.{tx_hash, signing_payload, ComputeTransaction, Hashing}
use deepiri_zepgpu.Base.{
  if◌then◌else◌, string_eq, nat_eq, ◌==◌, eq_of_beq, Bool-cases, All, elem, Outcome, >>=-eq-ok,
  guard-ok, ok-injective, ok, String, ◌≡◌, sym, ap, ◌∙◌, ◌≢◌, inl, inr, Bool, true, false, not,
  ◌||◌, Option, none, some, List, [], ◌∷◌, map, arith,
}

pub int_eq_sound : (a b : ℤ) → int_eq a b ≡ true → a ≡ b
int_eq_sound a b h = eq_of_parts a b (ground arith)

mismatch-height :
    (a : ℤ) (expected : Option ℤ)
    → mismatch int_eq a expected ≡ false
    → (h : ℤ) → expected ≡ some h
    → a ≡ h
mismatch-height a none e h q = cc
mismatch-height a (some x) e h q = int_eq_sound a x (ground arith) ∙ cc

pub mismatch-hash :
    (a : String) (expected : Option String)
    → mismatch (λ x y. x == y) a expected ≡ false
    → (h : String) → expected ≡ some h
    → a ≡ h
mismatch-hash a none e h q = cc
mismatch-hash a (some x) e h q = eq_of_beq a x (ground arith) ∙ cc

module _ (hashing : Hashing) (verify_signature : String → String → String → Bool) where
  -- A signed transaction with an id, a sender and no negative nonce.
  pub record IsValidTx (require_signature : Bool) (tx : ComputeTransaction) : Type 0 where
    pub named : tx.id ≢ ""
    pub sent : tx.sender ≢ ""
    pub counted : pos 0 ≤ℤ tx.nonce
    pub signed :
        require_signature ≡ true
        → verify_signature tx.sender (hashing.canonical_json (signing_payload tx)) tx.signature
          ≡ true

  validate_transaction_sound :
      (require_signature : Bool) (tx : ComputeTransaction)
      → validate_transaction hashing verify_signature require_signature tx ≡ ok tt
      → IsValidTx require_signature tx
  unfolding validate_transaction
  validate_transaction_sound require_signature tx h = record {
    named = λ e. ground (arith, string_eq.same_iff tx.id "");
    sent = λ e. ground (arith, string_eq.same_iff tx.sender "");
    counted = ground arith;
    signed = λ e. ground arith;
  }

  validate_transactions_sound :
      (require_signature : Bool) (txs : List ComputeTransaction)
      → validate_transactions hashing verify_signature require_signature txs ≡ ok tt
      → All (IsValidTx require_signature) txs
  unfolding validate_transactions
  validate_transactions_sound require_signature [] h = tt
  validate_transactions_sound require_signature (tx ∷ txs) h =
      let (u, first, rest) =
        >>=-eq-ok (validate_transaction hashing verify_signature require_signature tx) _ h in
      (
        validate_transaction_sound require_signature tx first,
        validate_transactions_sound require_signature txs rest,
      )

  -- A block that extends the expected tip, whose Merkle root and hash are those of its contents,
  -- which its authorized validator signed.
  pub record IsValidBlock (o : BlockOptions) (block : ComputeBlock) : Type 0 where
    pub height : (h : ℤ) → o.expected_height ≡ some h → block.height ≡ h
    pub linked : (p : String) → o.expected_previous_hash ≡ some p → block.previous_hash ≡ p
    pub authorized : elem block.validator o.authorized_validators ≡ true
    pub rooted :
        block.transactions_root
        ≡ merkle_root hashing.sha256_hex (map (tx_hash hashing) block.transactions)
    pub hashed : block.hash ≡ hashing.sha256_hex (hashing.canonical_json (header_for_hash block))
    pub signed : verify_signature block.validator block.hash block.validator_signature ≡ true
    pub endorsed :
        (o.require_quorum || block.finalized) ≡ true
        → IsEndorsed verify_signature o.authorized_validators o.quorum_threshold
            (ensure_proposer_approval block)
    pub transactions : All (IsValidTx o.require_tx_signatures) block.transactions

  -- The proposer's approval changes the approvals alone.
  pub ensure_proposer_approval_frame :
      (block : ComputeBlock)
      → ensure_proposer_approval block
        ≡ record block { approvals = (ensure_proposer_approval block).approvals }
  unfolding ensure_proposer_approval
  ensure_proposer_approval_frame block = ground arith

  transactions-ensure_proposer_approval :
      (block : ComputeBlock) → (ensure_proposer_approval block).transactions ≡ block.transactions
  unfolding ensure_proposer_approval
  transactions-ensure_proposer_approval block = ground arith

  -- What `validate_block` checks of the approvals, and the block that it leaves.
  abbrev pub endorsement : BlockOptions → ComputeBlock → Outcome LedgerValidationError ComputeBlock
  endorsement o block =
      if o.require_quorum || block.finalized
      then validate_approvals verify_signature o.authorized_validators o.quorum_threshold block
      else ok block

  -- The block that is left: with the proposer's approval, where approvals are checked.
  abbrev pub checked_block : BlockOptions → ComputeBlock → ComputeBlock
  checked_block o block =
      if o.require_quorum || block.finalized then ensure_proposer_approval block else block

  endorsement_sound :
      (o : BlockOptions) (block block' : ComputeBlock)
      → endorsement o block ≡ ok block'
      → (block' ≡ checked_block o block)
        × (block'.transactions ≡ block.transactions)
        × ((o.require_quorum || block.finalized) ≡ true
            → IsEndorsed verify_signature o.authorized_validators o.quorum_threshold
                (ensure_proposer_approval block))
  endorsement_sound o block block' h = elim (Bool-cases (o.require_quorum || block.finalized)) [
    | inl needed ↦
        let (same, endorsed) =
          (validate_approvals_iff verify_signature o.authorized_validators o.quorum_threshold block
              block').0
            (rw needed at h) in
        (
          rw needed same,
          ap (λ (b : ComputeBlock). b.transactions) same
              ∙ transactions-ensure_proposer_approval block,
          λ _. rw same at endorsed,
        )
    | inr free ↦
        let same : block' ≡ block = sym (ok-injective (rw free at h)) in
        (rw free same, ap (λ (b : ComputeBlock). b.transactions) same, λ e. cc)
  ]

  -- A block that `validate_block` accepts is valid: it has the expected height and predecessor, its
  -- validator is authorized and signed its hash, its root and hash are computed from its contents,
  -- its transactions are well-formed and, where a quorum is asked for or the block is finalized,
  -- its approvals with the proposer's own are a quorum; and the block that is left is this one, with
  -- the proposer's approval in the latter case.
  pub validate_block_sound :
      (o : BlockOptions) (block block' : ComputeBlock)
      → validate_block hashing verify_signature o block ≡ ok block'
      → IsValidBlock o block × (block' ≡ checked_block o block)
  unfolding validate_block compute_transactions_root leaf_hashes compute_hash
  validate_block_sound o block block' h =
      let (height, h1) = guard-ok (mismatch int_eq block.height o.expected_height) _ _ h in
      let (linked, h2) =
        guard-ok (mismatch (λ x y. x == y) block.previous_hash o.expected_previous_hash) _ _ h1 in
      let (authorized, h3) = guard-ok (not (elem block.validator o.authorized_validators)) _ _ h2 in
      let (rooted, h4) =
        guard-ok (not (block.transactions_root == compute_transactions_root hashing block)) _ _
          h3 in
      let (hashed, h5) = guard-ok (not (block.hash == compute_hash hashing block)) _ _ h4 in
      let (_, h6) = guard-ok (block.validator_signature == "") _ _ h5 in
      let (signed, h7) =
        guard-ok (not (verify_signature block.validator block.hash block.validator_signature)) _ _
          h6 in
      let (b, endorses, h8) = >>=-eq-ok (endorsement o block) _ h7 in
      let (left, same, endorsed) = endorsement_sound o block b endorses in
      let (u, txs, ends) =
        >>=-eq-ok
          (validate_transactions hashing verify_signature o.require_tx_signatures b.transactions) _
          h8 in
      (
        record {
          height = mismatch-height block.height o.expected_height height;
          linked = mismatch-hash block.previous_hash o.expected_previous_hash linked;
          authorized = ground arith;
          rooted = eq_of_beq block.transactions_root _ (ground arith);
          hashed = eq_of_beq block.hash _ (ground arith);
          signed = ground arith;
          endorsed = endorsed;
          transactions =
              rw same at (validate_transactions_sound o.require_tx_signatures b.transactions txs);
        },
        sym (ok-injective ends) ∙ left,
      )
