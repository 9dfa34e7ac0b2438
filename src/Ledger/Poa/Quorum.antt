-- ===== src/Ledger/Poa/Quorum.antt =====
-- deepiri_zepgpu/compute_ledger/poa.py: which sets of approvals `validate_approvals` and
-- `add_approval` let through.
use deepiri_zepgpu.Ledger.Poa.{
  already_approved, invalid_signature, validator_not_authorized, add_approval, quorum_not_met,
  proposer_missing, bad_threshold, validate_approvals, approvals_loop,
}
use deepiri_zepgpu.Ledger.Block.{ensure_proposer_approval, ComputeBlock, ValidatorApproval}
use deepiri_zepgpu.Base.{
  ltb, string_eq, nat_eq, ◌==◌, beq_self, length, length-append, All, any, elem, >>=-eq-ok,
  guard-ok, ok, ℕ, ◌+◌, ◌≤◌, String, ◌≡◌, refl, sym, ap, ◌∙◌, ◌↔◌, Bool, true, false, not, ◌||◌,
  List, [], ◌∷◌, ◌++◌, arith,
}

-- No entry stands twice.
abbrev pub Distinct : List String → Type 0
Distinct [] = Unit
Distinct (v ∷ vs) = (elem v vs ≡ false) × Distinct vs

abbrev pub approvers : List ValidatorApproval → List String
approvers [] = []
approvers (a ∷ rest) = a.validator ∷ approvers rest

module _ (verify_signature : String → String → String → Bool) where
  -- Every approval is an authorized validator's valid signature over the hash.
  abbrev pub Signed : List String → String → List ValidatorApproval → Type 0
  Signed authorized hash = All λ a.
      (elem a.validator authorized ≡ true) × (verify_signature a.validator hash a.signature ≡ true)

  -- What a quorum of `q` over a block is.
  pub record IsEndorsed (authorized : List String) (q : ℕ) (block : ComputeBlock) : Type 0 where
    pub threshold : 1 ≤ q
    pub signed : Signed authorized block.hash block.approvals
    pub distinct : Distinct (approvers block.approvals)
    pub proposer : elem block.validator (approvers block.approvals) ≡ true
    pub quorum : q ≤ length block.approvals

module _ (verify_signature : String → String → String → Bool) (authorized : List String) where
  -- No approval is by one of `seen`, and no two are by the same validator.
  abbrev pub Fresh : List String → List ValidatorApproval → Type 0
  Fresh seen [] = Unit
  Fresh seen (a ∷ rest) = (elem a.validator seen ≡ false) × Fresh (a.validator ∷ seen) rest

  approvals_loop-step :
      (hash : String) (seen : List String) (a : ValidatorApproval) (rest : List ValidatorApproval)
      (out : List String)
      → approvals_loop verify_signature authorized hash seen (a ∷ rest) ≡ ok out
      → (elem a.validator authorized ≡ true)
        × (elem a.validator seen ≡ false)
        × (verify_signature a.validator hash a.signature ≡ true)
        × (approvals_loop verify_signature authorized hash (a.validator ∷ seen) rest ≡ ok out)
  unfolding approvals_loop
  approvals_loop-step hash seen a rest out h = ground arith

  pub approvals_loop_sound :
      (hash : String) (seen : List String) (approvals : List ValidatorApproval) (out : List String)
      → approvals_loop verify_signature authorized hash seen approvals ≡ ok out
      → Signed verify_signature authorized hash approvals
        × Fresh seen approvals
        × (length out ≡ length approvals + length seen)
        × ((v : String) → elem v out ≡ (elem v seen || elem v (approvers approvals)))
  unfolding approvals_loop
  approvals_loop_sound hash seen [] out h =
      let same : seen ≡ out = cc in
      (tt, tt, rw (← same) (omega arith), λ v. rw (← same) (ground arith))
  approvals_loop_sound hash seen (a ∷ rest) out h =
      let (allowed, new, genuine, more) = approvals_loop-step hash seen a rest out h in
      let (signed, fresh, size, holds) =
        approvals_loop_sound hash (a.validator ∷ seen) rest out more in
      (((allowed, genuine), signed), (new, fresh), omega arith, λ v. ground (arith, holds v))

  pub approvals_loop_complete :
      (hash : String) (seen : List String) (approvals : List ValidatorApproval)
      → Signed verify_signature authorized hash approvals
      → Fresh seen approvals
      → (out : List String) × (approvals_loop verify_signature authorized hash seen approvals
          ≡ ok out)
  unfolding approvals_loop
  approvals_loop_complete hash seen [] signed fresh = (seen, refl)
  approvals_loop_complete hash seen (a ∷ rest) signed fresh =
      let (out, ends) = approvals_loop_complete hash (a.validator ∷ seen) rest signed.1 fresh.1 in
      (out, ground arith)

  Fresh-absent :
      (v : String) (seen : List String) (approvals : List ValidatorApproval)
      → Fresh seen approvals
      → elem v seen ≡ true
      → elem v (approvers approvals) ≡ false
  Fresh-absent v seen [] fresh h = refl
  Fresh-absent v seen (a ∷ rest) fresh h =
      ground
        (arith, string_eq.same_iff a.validator v, Fresh-absent v (a.validator ∷ seen) rest fresh.1)

  pub Fresh-Distinct :
      (seen : List String) (approvals : List ValidatorApproval)
      → Fresh seen approvals
      → Distinct (approvers approvals)
  Fresh-Distinct seen [] fresh = tt
  Fresh-Distinct seen (a ∷ rest) fresh = (
    Fresh-absent a.validator (a.validator ∷ seen) rest fresh.1 (rw (beq_self a.validator)),
    Fresh-Distinct (a.validator ∷ seen) rest fresh.1,
  )

  abbrev pub Outside : List String → List ValidatorApproval → Type 0
  Outside seen approvals = (v : String) → elem v (approvers approvals) ≡ true → elem v seen ≡ false

  pub Distinct-Fresh :
      (seen : List String) (approvals : List ValidatorApproval)
      → Distinct (approvers approvals)
      → Outside seen approvals
      → Fresh seen approvals
  Distinct-Fresh seen [] distinct outside = tt
  Distinct-Fresh seen (a ∷ rest) distinct outside = (
    outside a.validator (rw (beq_self a.validator)),
    Distinct-Fresh (a.validator ∷ seen) rest distinct.1
        (λ v h. ground (arith, string_eq.same_iff a.validator v, outside v)),
  )

  validate_approvals_sound :
      (q : ℕ) (block block' : ComputeBlock)
      → validate_approvals verify_signature authorized q block ≡ ok block'
      → (block' ≡ ensure_proposer_approval block) × IsEndorsed verify_signature authorized q block'
  unfolding validate_approvals
  validate_approvals_sound q block block' h =
      let b = ensure_proposer_approval block in
      let loop = approvals_loop verify_signature authorized b.hash [] b.approvals in
      let (enough, h1) = guard-ok (ltb q 1) bad_threshold _ h in
      let (seen, looped, h2) = >>=-eq-ok loop _ h1 in
      let (signed, fresh, size, holds) = approvals_loop_sound b.hash [] b.approvals seen looped in
      let (proposed, h3) = guard-ok (not (elem b.validator seen)) proposer_missing _ h2 in
      let (many, h4) = guard-ok (ltb (length seen) q) quorum_not_met (ok b) h3 in
      let same : block' ≡ b = cc in
      (
        same,
        rw same (record {
          threshold = ground arith;
          signed = signed;
          distinct = Fresh-Distinct [] b.approvals fresh;
          proposer = ground (arith, holds b.validator);
          quorum = ground arith;
        }),
      )

  validate_approvals_complete :
      (q : ℕ) (block : ComputeBlock)
      → IsEndorsed verify_signature authorized q (ensure_proposer_approval block)
      → validate_approvals verify_signature authorized q block ≡ ok (ensure_proposer_approval block)
  unfolding validate_approvals
  validate_approvals_complete q block e =
      let b = ensure_proposer_approval block in
      let fresh = Distinct-Fresh [] b.approvals e.distinct (λ v h. refl) in
      let (out, ends) = approvals_loop_complete b.hash [] b.approvals e.signed fresh in
      let (signed, _, size, holds) = approvals_loop_sound b.hash [] b.approvals out ends in
      let enough : ltb q 1 ≡ false = let t = e.threshold in ground arith in
      let proposed : elem b.validator out ≡ true = holds b.validator ∙ e.proposer in
      let many : ltb (length out) q ≡ false = let n = e.quorum in ground arith in
      rw (enough, ends, proposed, many)

  -- `validate_approvals` returns exactly if, once the proposer's own signature counts as an
  -- approval, the approvals are valid signatures of distinct authorized validators, the proposer
  -- among them, and at least the threshold in number, which is positive; and what it leaves is the
  -- block with that approval.
  pub validate_approvals_iff :
      (q : ℕ) (block block' : ComputeBlock)
      → (validate_approvals verify_signature authorized q block ≡ ok block') ↔ (
          (block' ≡ ensure_proposer_approval block)
          × IsEndorsed verify_signature authorized q block')
  validate_approvals_iff q block block' = (
    validate_approvals_sound q block block',
    λ (same, e). validate_approvals_complete q block (rw same at e) ∙ ap ok (sym same),
  )

  Signed-snoc :
      (hash : String) (approvals : List ValidatorApproval) (a : ValidatorApproval)
      → Signed verify_signature authorized hash approvals
      → elem a.validator authorized ≡ true
      → verify_signature a.validator hash a.signature ≡ true
      → Signed verify_signature authorized hash (approvals ++ a ∷ [])
  Signed-snoc hash [] a signed allowed genuine = ((allowed, genuine), tt)
  Signed-snoc hash (x ∷ rest) a signed allowed genuine =
      (signed.0, Signed-snoc hash rest a signed.1 allowed genuine)

  elem-approvers-snoc :
      (v : String) (approvals : List ValidatorApproval) (a : ValidatorApproval)
      → elem v (approvers (approvals ++ a ∷ []))
        ≡ (elem v (approvers approvals) || a.validator == v)
  elem-approvers-snoc v [] a = ground arith
  elem-approvers-snoc v (x ∷ rest) a = ground (arith, elem-approvers-snoc v rest a)

  pub any-approvers :
      (v : String) (approvals : List ValidatorApproval)
      → any (λ a. a.validator == v) approvals ≡ elem v (approvers approvals)
  any-approvers v [] = refl
  any-approvers v (x ∷ rest) = rw (any-approvers v rest)

  Distinct-snoc :
      (approvals : List ValidatorApproval) (a : ValidatorApproval)
      → Distinct (approvers approvals)
      → elem a.validator (approvers approvals) ≡ false
      → Distinct (approvers (approvals ++ a ∷ []))
  Distinct-snoc [] a distinct new = (refl, tt)
  Distinct-snoc (x ∷ rest) a distinct new = (
    ground (
      arith,
      elem-approvers-snoc x.validator rest a,
      string_eq.same_iff a.validator x.validator,
      string_eq.same_iff x.validator a.validator,
    ),
    Distinct-snoc rest a distinct.1 (ground arith),
  )

  -- An approval that `add_approval` takes is a valid signature of an authorized validator that had
  -- not approved; the block's approvals stay valid and distinct, there is one more of them, and
  -- they alone change.
  pub add_approval-extends :
      (key signature : String) (block block' : ComputeBlock)
      → Signed verify_signature authorized block.hash block.approvals
      → Distinct (approvers block.approvals)
      → add_approval verify_signature key signature authorized block ≡ ok block'
      → Signed verify_signature authorized block'.hash block'.approvals
        × Distinct (approvers block'.approvals)
        × (length block'.approvals ≡ length block.approvals + 1)
        × (elem key (approvers block.approvals) ≡ false)
        × (block' ≡ record block { approvals = block'.approvals })
  unfolding add_approval
  add_approval-extends key signature block block' signed distinct h =
      let a : ValidatorApproval = record { validator = key; signature = signature } in
      let (allowed, h1) = guard-ok (not (elem key authorized)) validator_not_authorized _ h in
      let (genuine, h2) =
        guard-ok (not (verify_signature key block.hash signature)) invalid_signature _ h1 in
      let (new, h3) =
        guard-ok (any (λ x. x.validator == key) block.approvals) already_approved _ h2 in
      let absent = sym (any-approvers key block.approvals) ∙ new in
      let b : ComputeBlock = record block { approvals = block.approvals ++ a ∷ [] } in
      let same : block' ≡ b = cc in
      (
        rw same (Signed-snoc block.hash block.approvals a signed (ground arith) (ground arith)),
        rw same (Distinct-snoc block.approvals a distinct absent),
        rw same (omega (arith, length-append block.approvals (a ∷ []))),
        absent,
        rw same,
      )
