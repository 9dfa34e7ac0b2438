-- ===== src/Ledger/LightClient/Chain.antt =====
-- deepiri_zepgpu/compute_ledger/light_client.py: the header chains that are reported valid.
use deepiri_zepgpu.Ledger.Poa.Valid.{mismatch-hash, int_eq_sound}
use deepiri_zepgpu.Ledger.Poa.{Check, mismatch, int_eq}
use deepiri_zepgpu.Ledger.LightClient.Agree.{header_loop-eq, plain}
use deepiri_zepgpu.Ledger.Poa.Quorum.{
  Fresh-Distinct, approvals_loop_complete, approvals_loop_sound, approvers, Distinct-Fresh,
  Distinct, Signed,
}
use deepiri_zepgpu.Base.Int.{pos, ◌+ℤ◌, ℤ}
use deepiri_zepgpu.Ledger.LightClient.{
  header_invalid, sort_by_height, error_if, verify_header_chain, verify_sorted, chain_loop,
  signature_errors, ChainError, header_loop, header_approvals, verify_header_signatures,
  BlockHeader,
}
use deepiri_zepgpu.Base.{
  ltb, if◌then◌else◌, string_eq, nat_eq, ◌==◌, beq_self, Bool-cases, length, elem, >>=-eq-ok,
  guard-ok, ok, raise, ℕ, ◌≤◌, String, ◌≡◌, refl, sym, ◌∙◌, ◌↔◌, inl, inr, Bool, true, false, not,
  ◌&&◌, Option, none, some, List, [], ◌∷◌, ◌++◌, arith,
}

int_eq_self : (a : ℤ) → int_eq a a ≡ true
int_eq_self a = ground arith

mismatch-hash_complete :
    (a : String) (expected : Option String)
    → ((p : String) → expected ≡ some p → a ≡ p)
    → mismatch (λ x y. x == y) a expected ≡ false
mismatch-hash_complete a none h = refl
mismatch-hash_complete a (some p) h = rw (h p refl, beq_self p)

length-zero : {A : Type 0} (xs : List A) → (length xs == 0) ≡ true → xs ≡ []
length-zero [] h = refl
length-zero (x ∷ xs) h = absurd (ground arith)

module _ (verify_signature : String → String → String → Bool) (authorized : List String)
    (quorum_threshold : ℕ) where
  -- What the signatures of a header show: its authorized validator signed the hash, and with it
  -- the approvals are valid signatures of distinct authorized validators, as many as the threshold
  -- if the header is finalized.
  pub record IsEndorsedHeader (q : ℕ) (header : BlockHeader) : Type 0 where
    pub allowed : elem header.validator authorized ≡ true
    pub genuine : verify_signature header.validator header.hash header.validator_signature ≡ true
    pub signed : Signed verify_signature authorized header.hash (plain (header_approvals header))
    pub distinct : Distinct (approvers (plain (header_approvals header)))
    pub quorum : header.finalized ≡ true → q ≤ length (plain (header_approvals header))

  verify_header_signatures_sound :
      (q : ℕ) (header : BlockHeader)
      → verify_header_signatures verify_signature authorized q header ≡ ok tt
      → IsEndorsedHeader q header
  unfolding verify_header_signatures
  verify_header_signatures_sound q header h =
      let approvals = plain (header_approvals header) in
      let (allowed, h1) = guard-ok (not (elem header.validator authorized)) _ _ h in
      let (genuine, h2) =
        guard-ok (not (verify_signature header.validator header.hash header.validator_signature)) _
          _ h1 in
      let (seen, loops, h3) =
        >>=-eq-ok (header_loop verify_signature authorized header.hash [] (header_approvals header))
          _ h2 in
      let (enough, _) = guard-ok (header.finalized && ltb (length seen) q) _ _ h3 in
      let (signed, fresh, size, _) =
        approvals_loop_sound verify_signature authorized header.hash [] approvals seen (
          sym (header_loop-eq verify_signature authorized header.hash [] (header_approvals header))
          ∙ loops) in
      record {
        allowed = ground arith;
        genuine = ground arith;
        signed = signed;
        distinct = Fresh-Distinct verify_signature authorized [] approvals fresh;
        quorum = λ f. ground arith;
      }

  verify_header_signatures_complete :
      (q : ℕ) (header : BlockHeader)
      → IsEndorsedHeader q header
      → verify_header_signatures verify_signature authorized q header ≡ ok tt
  unfolding verify_header_signatures
  verify_header_signatures_complete q header e =
      let approvals = plain (header_approvals header) in
      let fresh =
        Distinct-Fresh verify_signature authorized [] approvals e.distinct (λ v k. refl) in
      let (out, ends) =
        approvals_loop_complete verify_signature authorized header.hash [] approvals e.signed
          fresh in
      let (_, _, size, _) =
        approvals_loop_sound verify_signature authorized header.hash [] approvals out ends in
      let loops =
        header_loop-eq verify_signature authorized header.hash [] (header_approvals header)
        ∙ ends in
      let enough : (header.finalized && ltb (length out) q) ≡ false =
        elim (Bool-cases header.finalized) [
          | inl f ↦ let many = e.quorum f in rw f (ground arith)
          | inr f ↦ rw f
        ] in
      rw (e.allowed, e.genuine, loops, enough)

  -- Heights count up from `expected`, each header names the hash of the one before it, and each is
  -- endorsed; the first names `prev`, if that is given.
  abbrev pub IsChain : ℤ → Option String → List BlockHeader → Type 0
  IsChain expected prev [] = Unit
  IsChain expected prev (header ∷ headers) =
      (header.height ≡ expected)
      × ((p : String) → prev ≡ some p → header.previous_hash ≡ p)
      × IsEndorsedHeader (if header.finalized then quorum_threshold else 1) header
      × IsChain (expected +ℤ pos 1) (some header.hash) headers

  append-nil_iff : {A : Type 0} (xs ys : List A) → xs ++ ys ≡ [] → (xs ≡ []) × (ys ≡ [])
  append-nil_iff [] ys h = (refl, h)
  append-nil_iff (x ∷ xs) ys h = cc

  error_if-nil : (b : Bool) (e : ChainError) → error_if b e ≡ [] → b ≡ false
  error_if-nil true e h = cc
  error_if-nil false e h = refl

  signature_errors-nil :
      (header : BlockHeader)
      → signature_errors verify_signature authorized quorum_threshold header ≡ []
      → verify_header_signatures verify_signature authorized
          (if header.finalized then quorum_threshold else 1)
          header
        ≡ ok tt
  unfolding signature_errors
  signature_errors-nil header = by_outcome _
    where
      by_outcome :
          (r : Check)
          → (elim r [ ok u ↦ [] | raise e ↦ header_invalid header.height e ∷ [] ]) ≡ []
          → r ≡ ok tt
      by_outcome (ok u) h = refl
      by_outcome (raise e) h = cc

  chain_loop_sound :
      (expected : ℤ) (prev : Option String) (headers : List BlockHeader)
      → chain_loop verify_signature authorized quorum_threshold expected prev headers ≡ []
      → IsChain expected prev headers
  unfolding chain_loop
  chain_loop_sound expected prev [] h = tt
  chain_loop_sound expected prev (header ∷ headers) h =
      let (height, h1) = append-nil_iff _ _ h in
      let (linked, h2) = append-nil_iff _ _ h1 in
      let (signed, h3) =
        append-nil_iff (signature_errors verify_signature authorized quorum_threshold header) _
          h2 in
      let counted = error_if-nil (not (int_eq header.height expected)) _ height in
      (
        int_eq_sound header.height expected (ground arith),
        mismatch-hash header.previous_hash prev (error_if-nil _ _ linked),
        verify_header_signatures_sound (if header.finalized then quorum_threshold else 1) header
            (signature_errors-nil header signed),
        chain_loop_sound (expected +ℤ pos 1) (some header.hash) headers h3,
      )

  chain_loop_complete :
      (expected : ℤ) (prev : Option String) (headers : List BlockHeader)
      → IsChain expected prev headers
      → chain_loop verify_signature authorized quorum_threshold expected prev headers ≡ []
  unfolding chain_loop signature_errors
  chain_loop_complete expected prev [] c = refl
  chain_loop_complete expected prev (header ∷ headers) c =
      let counted : int_eq header.height expected ≡ true = rw c.0 (int_eq_self expected) in
      let linked = mismatch-hash_complete header.previous_hash prev c.1 in
      let signed =
        verify_header_signatures_complete (if header.finalized then quorum_threshold else 1) header
          c.2 in
      rw (
        counted,
        linked,
        signature_errors,
        signed,
        chain_loop_complete (expected +ℤ pos 1) (some header.hash) headers c.3,
      )

  -- The chain that headers in order must form: it starts at `from_height`, or at the first height
  -- where none is given, and with the genesis predecessor where that is zero.
  abbrev pub Verifies : String → Option ℤ → List BlockHeader → Type 0
  Verifies genesis from_height [] = Unit
  Verifies genesis from_height (first ∷ rest) =
      let start : ℤ = elim from_height [ none ↦ first.height | some h ↦ h ] in
      IsChain start (if int_eq start (pos 0) then some genesis else none) (first ∷ rest)

  verify_sorted_iff :
      (genesis : String) (from_height : Option ℤ) (headers : List BlockHeader)
      → ((verify_sorted verify_signature authorized quorum_threshold genesis from_height
            headers).valid
          ≡ true)
        ↔ Verifies genesis from_height headers
  unfolding verify_sorted
  verify_sorted_iff genesis from_height [] = (λ h. tt, λ h. refl)
  verify_sorted_iff genesis from_height (first ∷ rest) =
      let start : ℤ = elim from_height [ none ↦ first.height | some h ↦ h ] in
      let prev = if int_eq start (pos 0) then some genesis else none in
      (
        λ h. chain_loop_sound start prev (first ∷ rest) (length-zero _ h),
        λ c. rw (chain_loop_complete start prev (first ∷ rest) c),
      )

  -- A report says `valid` exactly if the headers, in the order of their heights, form an unbroken
  -- chain of endorsed headers from the height asked for.
  pub verify_header_chain_iff :
      (genesis : String) (from_height : Option ℤ) (headers : List BlockHeader)
      → ((verify_header_chain verify_signature authorized quorum_threshold genesis from_height
            headers).valid
          ≡ true)
        ↔ Verifies genesis from_height (sort_by_height headers)
  unfolding verify_header_chain
  verify_header_chain_iff genesis from_height headers =
      verify_sorted_iff genesis from_height (sort_by_height headers)
