-- ===== src/Ledger/LightClient/Agree.antt =====
-- deepiri_zepgpu/compute_ledger/light_client.py with poa.py: a light client accepts the headers of
-- the blocks that a full node accepts.
use deepiri_zepgpu.Ledger.Poa.Quorum.{
  any-approvers, approvals_loop_sound, approvals_loop_complete, Distinct-Fresh, IsEndorsed,
}
use deepiri_zepgpu.Ledger.Poa.Valid.{ensure_proposer_approval_frame, validate_block_sound}
use deepiri_zepgpu.Ledger.Transaction.{Hashing}
use deepiri_zepgpu.Ledger.Poa.{validate_block, BlockOptions, approvals_loop}
use deepiri_zepgpu.Ledger.Block.{ensure_proposer_approval, ComputeBlock, ValidatorApproval}
use deepiri_zepgpu.Ledger.LightClient.{
  from_block, is_by, to_dict, or_empty, verify_header_signatures, header_loop, HeaderApproval,
}
use deepiri_zepgpu.Base.{
  ltb, string_eq, nat_eq, ◌==◌, length, any, elem, ok, String, ◌≡◌, refl, ap, ◌∙◌, Bool, true,
  false, ◌||◌, List, [], ◌∷◌, map, arith,
}

-- The approvals as the loop of `verify_header_signatures` reads them.
abbrev pub plain : List HeaderApproval → List ValidatorApproval
plain [] = []
plain (a ∷ rest) =
    record { validator = or_empty a.validator; signature = or_empty a.signature } ∷ plain rest

pub header_loop-eq :
    (verify_signature : String → String → String → Bool) (authorized : List String) (hash : String)
    (seen : List String) (approvals : List HeaderApproval)
    → header_loop verify_signature authorized hash seen approvals
      ≡ approvals_loop verify_signature authorized hash seen (plain approvals)
unfolding header_loop approvals_loop
header_loop-eq verify_signature authorized hash seen [] = refl
header_loop-eq verify_signature authorized hash seen (a ∷ rest) =
    rw (header_loop-eq verify_signature authorized hash (or_empty a.validator ∷ seen) rest)

plain-to_dict : (approvals : List ValidatorApproval) → plain (map to_dict approvals) ≡ approvals
plain-to_dict [] = refl
plain-to_dict (a ∷ rest) = rw (plain-to_dict rest)

any-to_dict :
    (v : String) (approvals : List ValidatorApproval)
    → any (is_by v) (map to_dict approvals) ≡ any (λ a. a.validator == v) approvals
any-to_dict v [] = refl
any-to_dict v (a ∷ rest) = rw (any-to_dict v rest)

-- A block that passed `validate_block` with a quorum: its header passes the checks of the light
-- client for the same validators and threshold.
pub verify_header_signatures-from_block :
    (hashing : Hashing) (verify_signature : String → String → String → Bool) (o : BlockOptions)
    (block block' : ComputeBlock)
    → (o.require_quorum || block.finalized) ≡ true
    → validate_block hashing verify_signature o block ≡ ok block'
    → verify_header_signatures verify_signature o.authorized_validators o.quorum_threshold
        (from_block block')
      ≡ ok tt
unfolding verify_header_signatures from_block
verify_header_signatures-from_block hashing verify_signature o block block' needed h =
    let authorized = o.authorized_validators in
    let (valid, left) = validate_block_sound hashing verify_signature o block block' h in
    let same : block' ≡ ensure_proposer_approval block = left ∙ (rw needed) in
    let e : IsEndorsed verify_signature authorized o.quorum_threshold block' =
      rw same (valid.endorsed needed) in
    let fresh =
      Distinct-Fresh verify_signature authorized [] block'.approvals e.distinct (λ v q. refl) in
    let (out, ends) =
      approvals_loop_complete verify_signature authorized block'.hash [] block'.approvals e.signed
        fresh in
    let (_, _, size, _) =
      approvals_loop_sound verify_signature authorized block'.hash [] block'.approvals out ends in
    let frame = same ∙ ensure_proposer_approval_frame hashing verify_signature block in
    let by : block'.validator ≡ block.validator = ap (λ (b : ComputeBlock). b.validator) frame in
    let hashed : block'.hash ≡ block.hash = ap (λ (b : ComputeBlock). b.hash) frame in
    let signature : block'.validator_signature ≡ block.validator_signature =
      ap (λ (b : ComputeBlock). b.validator_signature) frame in
    let allowed : elem block'.validator authorized ≡ true = rw by valid.authorized in
    let genuine : verify_signature block'.validator block'.hash block'.validator_signature ≡ true =
      rw (by, hashed, signature) valid.signed in
    let proposed : any (is_by block'.validator) (map to_dict block'.approvals) ≡ true =
      any-to_dict block'.validator block'.approvals
      ∙ any-approvers verify_signature authorized block'.validator block'.approvals
      ∙ e.proposer in
    let ends' : header_loop verify_signature authorized block'.hash []
          (map to_dict block'.approvals)
        ≡ ok out =
      header_loop-eq verify_signature authorized block'.hash [] (map to_dict block'.approvals)
      ∙ (rw plain-to_dict ends) in
    let many : ltb (length out) o.quorum_threshold ≡ false = let q = e.quorum in ground arith in
    rw (allowed, genuine, proposed, ends', many) (ground arith)
