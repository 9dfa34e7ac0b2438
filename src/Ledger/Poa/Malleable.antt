-- ===== src/Ledger/Poa/Malleable.antt =====
-- deepiri_zepgpu/compute_ledger/poa.py with merkle.py: a block whose transactions the validator did
-- not all put there, and which passes as that validator's.
use deepiri_zepgpu.Ledger.Poa.Quorum.{validate_approvals_iff}
use deepiri_zepgpu.Ledger.Merkle.Duplicate.{merkle_root-append_last}
use deepiri_zepgpu.Ledger.Poa.{
  int_eq, mismatch, validate_approvals, validate_transaction, BlockOptions, validate_block,
  validate_transactions,
}
use deepiri_zepgpu.Ledger.Transaction.{tx_hash, ComputeTransaction, Hashing}
use deepiri_zepgpu.Ledger.Block.{
  header_for_hash, compute_hash, ensure_proposer_approval, leaf_hashes, compute_transactions_root,
  ComputeBlock,
}
use deepiri_zepgpu.Ledger.Merkle.Levels.{append_last}
use deepiri_zepgpu.Ledger.Poa.Valid.{endorsement}
use deepiri_zepgpu.Base.{
  string_eq, nat_eq, ◌==◌, Bool-cases, length, elem, >>=-eq-ok, guard-ok, ok-injective, ok, ℕ, suc,
  ◌%◌, ◌<◌, String, ◌≡◌, refl, sym, ap, inl, inr, Bool, not, ◌||◌, List, [], ◌∷◌, map, arith,
}

map-append_last {ℓ κ} :
    {A : Type ℓ} {B : Type κ} (f : A → B) (xs : List A)
    → map f (append_last xs) ≡ append_last (map f xs)
unfolding append_last
map-append_last f [] = refl
map-append_last f (x ∷ []) = refl
map-append_last f (x ∷ y ∷ rest) = rw (map-append_last f (y ∷ rest))

length-map {ℓ κ} :
    {A : Type ℓ} {B : Type κ} (f : A → B) (xs : List A) → length (map f xs) ≡ length xs
length-map f [] = refl
length-map f (x ∷ xs) = ap suc (length-map f xs)

-- The block with its last transaction once more, and nothing else changed.
abbrev pub repeat_last : ComputeBlock → ComputeBlock
repeat_last block = record block { transactions = append_last block.transactions }

module _ (hashing : Hashing) (verify_signature : String → String → String → Bool) where
  root-repeat_last :
      (block : ComputeBlock)
      → length block.transactions % 2 ≡ 1
      → 1 < length block.transactions
      → compute_transactions_root hashing (repeat_last block)
        ≡ compute_transactions_root hashing block
  unfolding compute_transactions_root leaf_hashes
  root-repeat_last block odd more =
      let f = tx_hash hashing in
      let txs = block.transactions in
      rw (map-append_last f txs) (
        merkle_root-append_last hashing.sha256_hex (map f txs) (rw (length-map f txs) odd)
          (rw (length-map f txs) more))

  validate_transactions-append_last :
      (require_signature : Bool) (txs : List ComputeTransaction)
      → validate_transactions hashing verify_signature require_signature txs ≡ ok tt
      → validate_transactions hashing verify_signature require_signature (append_last txs) ≡ ok tt
  unfolding validate_transactions append_last
  validate_transactions-append_last r [] h = h
  validate_transactions-append_last r (x ∷ []) h =
      let (u, first, rest) = >>=-eq-ok (validate_transaction hashing verify_signature r x) _ h in
      rw first
  validate_transactions-append_last r (x ∷ y ∷ rest) h =
      let (u, first, more) = >>=-eq-ok (validate_transaction hashing verify_signature r x) _ h in
      rw first (validate_transactions-append_last r (y ∷ rest) more)

  ensure_proposer_approval-repeat_last :
      (block : ComputeBlock)
      → ensure_proposer_approval (repeat_last block) ≡ repeat_last (ensure_proposer_approval block)
  unfolding ensure_proposer_approval
  ensure_proposer_approval-repeat_last block = ground arith

  validate_approvals-repeat_last :
      (authorized : List String) (q : ℕ) (block block' : ComputeBlock)
      → validate_approvals verify_signature authorized q block ≡ ok block'
      → validate_approvals verify_signature authorized q (repeat_last block)
        ≡ ok (repeat_last block')
  validate_approvals-repeat_last authorized q block block' h =
      let spec = validate_approvals_iff verify_signature authorized q in
      let (same, e) = (spec block block').0 h in
      (spec (repeat_last block) (repeat_last block')).1 (
        rw same (sym (ensure_proposer_approval-repeat_last block)),
        record {
          threshold = e.threshold;
          signed = e.signed;
          distinct = e.distinct;
          proposer = e.proposer;
          quorum = e.quorum;
        },
      )

  endorsement-repeat_last :
      (o : BlockOptions) (block block' : ComputeBlock)
      → endorsement hashing verify_signature o block ≡ ok block'
      → endorsement hashing verify_signature o (repeat_last block) ≡ ok (repeat_last block')
  endorsement-repeat_last o block block' h =
      elim (Bool-cases (o.require_quorum || block.finalized)) [
        | inl needed ↦ rw needed (
            validate_approvals-repeat_last o.authorized_validators o.quorum_threshold block block'
              (rw needed at h))
        | inr free ↦ rw free (ap (λ b. ok (repeat_last b)) (ok-injective (rw free at h)))
      ]

  -- A block of an odd number of transactions, three or more, that `validate_block` accepts is also
  -- accepted with its last transaction once more: same root, hash, signature and approvals.
  pub validate_block-repeat_last :
      (o : BlockOptions) (block block' : ComputeBlock)
      → length block.transactions % 2 ≡ 1
      → 1 < length block.transactions
      → validate_block hashing verify_signature o block ≡ ok block'
      → validate_block hashing verify_signature o (repeat_last block) ≡ ok (repeat_last block')
  unfolding validate_block compute_hash header_for_hash
  validate_block-repeat_last o block block' odd more h =
      let (height, h1) = guard-ok (mismatch int_eq block.height o.expected_height) _ _ h in
      let (linked, h2) =
        guard-ok (mismatch (λ x y. x == y) block.previous_hash o.expected_previous_hash) _ _ h1 in
      let (authorized, h3) = guard-ok (not (elem block.validator o.authorized_validators)) _ _ h2 in
      let (rooted, h4) =
        guard-ok (not (block.transactions_root == compute_transactions_root hashing block)) _ _
          h3 in
      let (hashed, h5) = guard-ok (not (block.hash == compute_hash hashing block)) _ _ h4 in
      let (present, h6) = guard-ok (block.validator_signature == "") _ _ h5 in
      let (signed, h7) =
        guard-ok (not (verify_signature block.validator block.hash block.validator_signature)) _ _
          h6 in
      let (b, endorses, h8) = >>=-eq-ok (endorsement hashing verify_signature o block) _ h7 in
      rw
        (
          height,
          linked,
          authorized,
          root-repeat_last block odd more,
          rooted,
          hashed,
          present,
          signed,
        )
        (let (u, txs, ends) =
            >>=-eq-ok
              (validate_transactions hashing verify_signature o.require_tx_signatures
                b.transactions)
              _ h8 in
          let again =
            validate_transactions-append_last o.require_tx_signatures b.transactions txs in
          rw (endorsement-repeat_last o block b endorses, again)
            (ap (λ b. ok (repeat_last b)) (ok-injective ends)))
