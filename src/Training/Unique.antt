-- ===== src/Training/Unique.antt =====
-- deepiri_zepgpu/training/integrity.py: of the updates that a room accepts, each worker's in a round.
use deepiri_zepgpu.Base.Dict.{lookup-insert_self, lookup-insert, lookup, insert}
use deepiri_zepgpu.Base.{
  if◌then◌else◌, string_eq, nat_eq, ◌==◌, eq_of_beq, Bool-cases, get_elem?, All, Outcome, raise_if,
  >>=-eq-ok, guard-ok, Outcome-cases, ok, raise, ℕ, zero, suc, String, ◌≡◌, refl, sym, ap, subst,
  ◌∙◌, inl, inr, not, Option, none, some, List, [], ◌∷◌, arith,
}
use deepiri_zepgpu.Training.Integrity.{
  accept_all, sign_update, verify_update_mac, NeutralOuterUpdate, Digests, Triple, triple_eq,
  triple_of, ReplayGuard, UpdateIntegrityError, check, Submission, accept_outer_update,
}

-- Entries stay.
abbrev Grows : ReplayGuard → ReplayGuard → Type 0
Grows seen seen' =
    (k : Triple) (mac : String) → lookup k seen ≡ some mac → lookup k seen' ≡ some mac

check-Grows :
    (update : NeutralOuterUpdate) (mac_hex : String) (seen seen' : ReplayGuard)
    → check update mac_hex seen ≡ ok seen'
    → (lookup (triple_of update) seen' ≡ some mac_hex) × Grows seen seen'
unfolding check
check-Grows update mac_hex seen seen' h = by_entry (lookup (triple_of update) seen) refl h
  where
    k : Triple
    k = triple_of update

    by_entry :
        (o : Option String)
        → lookup k seen ≡ o
        → Path
            (Outcome UpdateIntegrityError ReplayGuard)
            (elim o [
              | none ↦ ok (insert k mac_hex seen)
              | some previous ↦
                  if previous == mac_hex
                  then ok seen
                  else raise UpdateIntegrityError.conflicting_replay
            ])
            (ok seen')
        → (lookup k seen' ≡ some mac_hex) × Grows seen seen'
    by_entry none e h = (
      ap (lookup k) (sym written) ∙ lookup-insert_self k mac_hex seen,
      λ j mac found. ap (lookup j) (sym written) ∙ kept j mac found,
    )
      where
        written : insert k mac_hex seen ≡ seen'
        written = ground arith

        kept :
            (j : Triple) (mac : String)
            → lookup j seen ≡ some mac
            → lookup j (insert k mac_hex seen) ≡ some mac
        kept j mac found = elim (Bool-cases (k == j)) [
          | inl same ↦ absurd (ground (arith, eq_of_beq k j same, e, found))
          | inr other ↦ rw (lookup-insert j k mac_hex seen, other) found
        ]
    by_entry (some previous) e h = elim (Bool-cases (previous == mac_hex)) [
      | inl same ↦
          let unchanged : seen ≡ seen' = ground arith in
          (
            ap (lookup k) (sym unchanged) ∙ (e ∙ ap some (eq_of_beq previous mac_hex same)),
            λ j mac found. ap (lookup j) (sym unchanged) ∙ found,
          )
      | inr other ↦ absurd (ground arith)
    ]

module _ (digests : Digests) (room_mac_key : String) where
  -- What was accepted carries the MAC of its update.
  accept_outer_update-ok :
      (s : Submission) (seen seen' : ReplayGuard)
      → accept_outer_update digests room_mac_key s seen ≡ ok seen'
      → (digests.hmac_hex room_mac_key (digests.canonical_update_bytes s.update) ≡ s.mac_hex)
        × (check s.update s.mac_hex seen ≡ ok seen')
  unfolding accept_outer_update verify_update_mac sign_update
  accept_outer_update-ok s seen seen' h =
      let (_, before, checked) = >>=-eq-ok _ (λ _. check s.update s.mac_hex seen) h in
      let (_, _, verified) =
        >>=-eq-ok _ (λ _. verify_update_mac digests room_mac_key s.update s.mac_hex) before in
      let (expected, signed, compared) =
        >>=-eq-ok (sign_update digests room_mac_key s.update)
          (λ expected. raise_if (not (expected == s.mac_hex)) UpdateIntegrityError.mac_mismatch)
          verified in
      (same_mac expected signed compared, checked)
    where
      mac : String
      mac = digests.hmac_hex room_mac_key (digests.canonical_update_bytes s.update)

      same_mac :
          (expected : String) {u : Unit {0}}
          → sign_update digests room_mac_key s.update ≡ ok expected
          → raise_if (not (expected == s.mac_hex)) UpdateIntegrityError.mac_mismatch ≡ ok u
          → mac ≡ s.mac_hex
      same_mac expected signed compared =
          let (_, signed') =
            guard-ok (digests.strip room_mac_key == "") UpdateIntegrityError.empty_key (ok mac)
              signed in
          elim (Bool-cases (expected == s.mac_hex)) [
            | inl same ↦ let e = eq_of_beq expected s.mac_hex same in ground (arith, signed', e)
            | inr other ↦ absurd (ground (arith, other, compared))
          ]

  -- The MAC is the update's, and the guard has it.
  abbrev Recorded : ReplayGuard → Submission → Type 0
  Recorded seen s =
      (digests.hmac_hex room_mac_key (digests.canonical_update_bytes s.update) ≡ s.mac_hex)
      × (lookup (triple_of s.update) seen ≡ some s.mac_hex)

  accept_all-Recorded :
      (submissions : List Submission) (seen : ReplayGuard)
      → Grows seen (accept_all digests room_mac_key submissions seen).1
        × All
            (Recorded (accept_all digests room_mac_key submissions seen).1)
            (accept_all digests room_mac_key submissions seen).0
  unfolding accept_all
  accept_all-Recorded [] seen = (λ k mac found. found, tt)
  accept_all-Recorded (s ∷ rest) seen =
      elim (Outcome-cases (accept_outer_update digests room_mac_key s seen)) [
        | inl (seen', e) ↦
            let (made, checked) = accept_outer_update-ok s seen seen' e in
            let (entered, grows) = check-Grows s.update s.mac_hex seen seen' checked in
            let (more, recorded) = accept_all-Recorded rest seen' in
            rw (accept_all, e)
              (
                λ k mac found. more k mac (grows k mac found),
                ((made, more (triple_of s.update) s.mac_hex entered), recorded),
              )
        | inr (error, e) ↦ rw (accept_all, e) (accept_all-Recorded rest seen)
      ]

All-get :
    {A : Type 0} (P : A → Type 0) (xs : List A) (i : ℕ) (x : A)
    → All P xs
    → get_elem? xs i ≡ some x
    → P x
All-get P [] i x each h = absurd cc
All-get P (y ∷ ys) zero x each h = subst P (ground (arith, h)) each.0
All-get P (y ∷ ys) (suc i) x each h = All-get P ys i x each.1 h

-- Of the submissions that a guard lets through, in any order and with any others between them, two of
-- the same run, round and worker carry updates with the same MAC under the key of the room.
pub accept_all_unique :
    (digests : Digests) (room_mac_key : String) (submissions : List Submission) (seen : ReplayGuard)
    (i j : ℕ) (p q : Submission)
    → get_elem? (accept_all digests room_mac_key submissions seen).0 i ≡ some p
    → get_elem? (accept_all digests room_mac_key submissions seen).0 j ≡ some q
    → triple_of p.update ≡ triple_of q.update
    → digests.hmac_hex room_mac_key (digests.canonical_update_bytes p.update)
      ≡ digests.hmac_hex room_mac_key (digests.canonical_update_bytes q.update)
accept_all_unique digests room_mac_key submissions seen i j p q at_i at_j same =
    let recorded = (accept_all-Recorded digests room_mac_key submissions seen).1 in
    let final = (accept_all digests room_mac_key submissions seen).1 in
    let (made_p, entry_p) = All-get (Recorded digests room_mac_key final) _ i p recorded at_i in
    let (made_q, entry_q) = All-get (Recorded digests room_mac_key final) _ j q recorded at_j in
    let macs : p.mac_hex ≡ q.mac_hex =
      ground (arith, sym entry_p ∙ (ap (λ k. lookup k final) same ∙ entry_q)) in
    made_p ∙ (macs ∙ sym made_q)
