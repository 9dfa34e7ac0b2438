-- ===== src/Ledger/Merkle/Sound.antt =====
-- deepiri_zepgpu/compute_ledger/merkle.py: what an accepted proof shows. That `sha256_hex` returns
-- 64 characters is what hashlib documents of `hexdigest`. Nobody is assumed unable to find a
-- collision: the theorems exhibit one.
use deepiri_zepgpu.Ledger.Merkle.Complete.{merkle_proof-verifies}
use Prim.Native.String.{count, ◌++◌ as ◌+ₛ◌}
use text.Mathlib.TextLemmas.{append_inj, length-append as count-append}
use text.Mathlib.Text.{◌==◌ as str_eq}
use text.Mathlib.TextEquality.{eq_iff}
use deepiri_zepgpu.Base.{
  if◌then◌else◌, string_eq, nat_eq, ◌==◌, beq_self, Bool-cases, Option-cases, length, get_elem?,
  All, elem, ok, ℕ, zero, suc, ◌<◌, String, ◌≡◌, refl, sym, ap, ◌∙◌, ◌≢◌, ◌⊎◌, inl, inr, true,
  false, some, List, [], ◌∷◌, arith,
}
use deepiri_zepgpu.Ledger.Merkle.{
  merkle_root, merkle_proof, MerkleProof, verify_merkle_proof, MerkleProofStep, run_steps,
}
use deepiri_zepgpu.Ledger.Merkle.Levels.{hash_pair}

-- The texts that the check of a proof hashes, from a running digest on.
abbrev pub hashed : (String → String) → String → List MerkleProofStep → List String
hashed sha256_hex running [] = []
hashed sha256_hex running (s ∷ ss) =
    if s.position == "right"
    then (running +ₛ s.hash) ∷ hashed sha256_hex (hash_pair sha256_hex running s.hash) ss
    else (s.hash +ₛ running) ∷ hashed sha256_hex (hash_pair sha256_hex s.hash running) ss

-- Two different texts, one of each list, with one digest.
pub record Collision (sha256_hex : String → String) (xs ys : List String) : Type 0 where
  pub first : String
  pub second : String
  pub in_first : elem first xs ≡ true
  pub in_second : elem second ys ≡ true
  pub differ : first ≢ second
  pub same_digest : sha256_hex first ≡ sha256_hex second

-- The steps have the same positions, one by one.
abbrev pub SamePositions : List MerkleProofStep → List MerkleProofStep → Type 0
SamePositions [] [] = Unit
SamePositions [] (t ∷ ts) = ⊥
SamePositions (s ∷ ss) [] = ⊥
SamePositions (s ∷ ss) (t ∷ ts) = (s.position ≡ t.position) × SamePositions ss ts

All-get_elem? :
    (xs : List String) (i : ℕ) {x : String}
    → All (λ y. count y ≡ 64) xs
    → get_elem? xs i ≡ some x
    → count x ≡ 64
All-get_elem? [] i h e = cc
All-get_elem? (y ∷ ys) zero h e = cc
All-get_elem? (y ∷ ys) (suc i) h e = All-get_elem? ys i h.1 e

elem-head : (x : String) (xs : List String) → elem x (x ∷ xs) ≡ true
elem-head x xs = rw (beq_self x) refl

elem-tail : (x y : String) (xs : List String) → elem x xs ≡ true → elem x (y ∷ xs) ≡ true
elem-tail x y xs h = ground (arith, h)

module _ (sha256_hex : String → String)
    (digest_length : (s : String) → count (sha256_hex s) ≡ 64) where
  -- One digest of two pairs whose left, or right, parts are equally long: the pairs are equal,
  -- part by part, or collide.
  hash_pair_left :
      (a b c d : String) (xs ys : List String)
      → count a ≡ count c
      → hash_pair sha256_hex a b ≡ hash_pair sha256_hex c d
      → (a ≡ c) ⊎ Collision sha256_hex ((a +ₛ b) ∷ xs) ((c +ₛ d) ∷ ys)
  unfolding hash_pair
  hash_pair_left a b c d xs ys n h = elim (Bool-cases (str_eq (a +ₛ b) (c +ₛ d))) [
    | inl e ↦ inl (append_inj ((eq_iff _ _).0 e) n).0
    | inr e ↦ inr (record {
      first = a +ₛ b;
      second = c +ₛ d;
      in_first = elem-head (a +ₛ b) xs;
      in_second = elem-head (c +ₛ d) ys;
      differ = λ q. cc ((eq_iff (a +ₛ b) (c +ₛ d)).1 q);
      same_digest = h;
    })
  ]

  hash_pair_right :
      (a b c d : String) (xs ys : List String)
      → count b ≡ count d
      → hash_pair sha256_hex a b ≡ hash_pair sha256_hex c d
      → (b ≡ d) ⊎ Collision sha256_hex ((a +ₛ b) ∷ xs) ((c +ₛ d) ∷ ys)
  unfolding hash_pair
  hash_pair_right a b c d xs ys n h = elim (Bool-cases (str_eq (a +ₛ b) (c +ₛ d))) [
    | inl e ↦
        let q = (eq_iff (a +ₛ b) (c +ₛ d)).0 e in
        inl (append_inj q (omega (arith, ap count q, count-append a b, count-append c d))).1
    | inr e ↦ inr (record {
      first = a +ₛ b;
      second = c +ₛ d;
      in_first = elem-head (a +ₛ b) xs;
      in_second = elem-head (c +ₛ d) ys;
      differ = λ q. cc ((eq_iff (a +ₛ b) (c +ₛ d)).1 q);
      same_digest = h;
    })
  ]

  Collision-tail :
      (x y : String) (xs ys : List String)
      → Collision sha256_hex xs ys
      → Collision sha256_hex (x ∷ xs) (y ∷ ys)
  Collision-tail x y xs ys c = record {
    first = c.first;
    second = c.second;
    in_first = elem-tail c.first x xs c.in_first;
    in_second = elem-tail c.second y ys c.in_second;
    differ = c.differ;
    same_digest = c.same_digest;
  }

  count-hash_pair :
      (a b c d : String) → count (hash_pair sha256_hex a b) ≡ count (hash_pair sha256_hex c d)
  unfolding hash_pair
  count-hash_pair a b c d = digest_length (a +ₛ b) ∙ sym (digest_length (c +ₛ d))

  run_steps_right :
      (x r : String) (s : MerkleProofStep) (ss : List MerkleProofStep)
      → (s.position == "right") ≡ true
      → run_steps sha256_hex x (s ∷ ss) ≡ some r
      → run_steps sha256_hex (hash_pair sha256_hex x s.hash) ss ≡ some r
  unfolding run_steps
  run_steps_right x r s ss e h = rw e at h

  run_steps_left :
      (x r : String) (s : MerkleProofStep) (ss : List MerkleProofStep)
      → (s.position == "right") ≡ false
      → run_steps sha256_hex x (s ∷ ss) ≡ some r
      → run_steps sha256_hex (hash_pair sha256_hex s.hash x) ss ≡ some r
  unfolding run_steps
  run_steps_left x r s ss e h = ground arith

  run_steps_binding :
      (x y : String) (ss ts : List MerkleProofStep) (r : String)
      → count x ≡ count y
      → SamePositions ss ts
      → run_steps sha256_hex x ss ≡ some r
      → run_steps sha256_hex y ts ≡ some r
      → (x ≡ y) ⊎ Collision sha256_hex (hashed sha256_hex x ss) (hashed sha256_hex y ts)
  unfolding run_steps
  run_steps_binding x y [] [] r n p h k = inl cc
  run_steps_binding x y [] (t ∷ ts) r n p h k = absurd p
  run_steps_binding x y (s ∷ ss) [] r n p h k = absurd p
  run_steps_binding x y (s ∷ ss) (t ∷ ts) r n p h k = elim (Bool-cases (s.position == "right")) [
    | inl e ↦
        let e' : (t.position == "right") ≡ true = rw p.0 at e in
        let xs = hashed sha256_hex (hash_pair sha256_hex x s.hash) ss in
        let ys = hashed sha256_hex (hash_pair sha256_hex y t.hash) ts in
        rw (e, e')
          (elim (run_steps_binding (hash_pair sha256_hex x s.hash) (hash_pair sha256_hex y t.hash)
            ss ts r (count-hash_pair x s.hash y t.hash) p.1 (run_steps_right x r s ss e h)
            (run_steps_right y r t ts e' k)) [
              | inl same ↦ hash_pair_left x s.hash y t.hash xs ys n same
              | inr found ↦ inr (Collision-tail _ _ xs ys found)
            ])
    | inr e ↦
        let e' : (t.position == "right") ≡ false = rw p.0 at e in
        let xs = hashed sha256_hex (hash_pair sha256_hex s.hash x) ss in
        let ys = hashed sha256_hex (hash_pair sha256_hex t.hash y) ts in
        rw (e, e')
          (elim (run_steps_binding (hash_pair sha256_hex s.hash x) (hash_pair sha256_hex t.hash y)
            ss ts r (count-hash_pair s.hash x t.hash y) p.1 (run_steps_left x r s ss e h)
            (run_steps_left y r t ts e' k)) [
              | inl same ↦ hash_pair_right s.hash x t.hash y xs ys n same
              | inr found ↦ inr (Collision-tail _ _ xs ys found)
            ])
  ]

  verify-runs :
      (proof : MerkleProof)
      → verify_merkle_proof sha256_hex proof ≡ true
      → run_steps sha256_hex proof.leaf proof.steps ≡ some proof.root
  unfolding verify_merkle_proof
  verify-runs proof h = elim (Option-cases (run_steps sha256_hex proof.leaf proof.steps)) [
    | inl e ↦ cc (rw (e, verify_merkle_proof) at h)
    | inr (r, e) ↦ e ∙ ap some ((eq_iff r proof.root).0 (rw (e, verify_merkle_proof) at h))
  ]

  -- A proof that is accepted for the root of `leaves`, with the positions of the proof that
  -- `merkle_proof` builds for `index`, is a proof of the leaf at `index`; or two different texts
  -- have one digest, of which the check of the accepted proof hashes the first and the check of
  -- the built proof the second. Leaves are digests, of 64 characters.
  pub verify_merkle_proof_sound :
      (leaves : List String) (index : ℕ) (genuine claimed : MerkleProof)
      → All (λ x. count x ≡ 64) leaves
      → merkle_proof sha256_hex leaves index ≡ ok genuine
      → index < length leaves
      → SamePositions claimed.steps genuine.steps
      → count claimed.leaf ≡ 64
      → claimed.root ≡ merkle_root sha256_hex leaves
      → verify_merkle_proof sha256_hex claimed ≡ true
      → (get_elem? leaves index ≡ some claimed.leaf)
        ⊎ Collision sha256_hex
            (hashed sha256_hex claimed.leaf claimed.steps)
            (hashed sha256_hex genuine.leaf genuine.steps)
  verify_merkle_proof_sound leaves index genuine claimed sized built inside p n root h =
      let (proof, builds, at_index, rooted, accepted) =
        merkle_proof-verifies sha256_hex leaves index inside in
      let same : genuine ≡ proof = cc in
      let leaf : get_elem? leaves index ≡ some genuine.leaf = rw same at_index in
      elim (run_steps_binding claimed.leaf genuine.leaf claimed.steps genuine.steps claimed.root
        (n ∙ sym (All-get_elem? leaves index sized leaf)) p (verify-runs claimed h)
        (verify-runs genuine (rw same accepted) ∙ ap some cc)) [
          | inl e ↦ inl (leaf ∙ ap some (sym e))
          | inr found ↦ inr found
        ]
