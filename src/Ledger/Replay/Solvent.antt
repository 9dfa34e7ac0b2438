-- ===== src/Ledger/Replay/Solvent.antt =====
-- deepiri_zepgpu/compute_ledger/replay.py: the balances that a replay reaches.
use deepiri_zepgpu.Ledger.Transaction.{
  bridge_mint, bridge_burn, credit_settled, job_completed, TxType, ComputeTransaction,
}
use deepiri_zepgpu.Ledger.Json.{float_field, str_field, Payload, Conversions}
use deepiri_zepgpu.Ledger.Replay.{
  net_seconds, apply_bridge_mint, replay_transactions-ok, last_nonce, apply_credit_settled,
  replay_transactions, apply_job_completed, apply_bridge_burn, replay_from, apply_transaction,
  apply_effect, add_debit, add_credit, get_or_create,
}
use deepiri_zepgpu.Ledger.Replay.Monad.{fresh_state, >>-ok, CreditState, CreditBalance}
use deepiri_zepgpu.Base.{
  string_eq, nat_eq, ◌==◌, eq_of_beq, Bool-cases, Option-cases, ok, String, ◌≡◌, refl, sym, ◌∙◌,
  ◌≢◌, inl, inr, none, some, List, [], ◌∷◌, arith,
}
use deepiri_zepgpu.Base.Int.{◌+ℤ◌, leb_ℤ, ℤ, pos, ◌≤ℤ◌, int_laws}
use deepiri_zepgpu.Base.Dict.{lookup-insert_self, lookup-insert_ne, Dict, lookup, insert}

-- No account is listed twice, each stands under its own name, and no counter is negative.
abbrev pub IsSound : Dict String CreditBalance → Type 0
IsSound [] = Unit
IsSound ((k, b) ∷ d) =
    (b.account ≡ k)
    × (pos 0 ≤ℤ b.credit_seconds)
    × (pos 0 ≤ℤ b.debit_seconds)
    × (lookup k d ≡ none)
    × IsSound d

insert-IsSound :
    (k : String) (b : CreditBalance) (d : Dict String CreditBalance)
    → IsSound d
    → b.account ≡ k
    → pos 0 ≤ℤ b.credit_seconds
    → pos 0 ≤ℤ b.debit_seconds
    → IsSound (insert k b d)
insert-IsSound k b [] h named c e = (named, c, e, refl, tt)
insert-IsSound k b ((j, a) ∷ d) h named c e = elim (Bool-cases (j == k)) [
  | inl same ↦ let q = eq_of_beq j k same in rw same (cc, c, e, h.3, h.4)
  | inr other ↦
      let ne : k ≢ j = λ q. cc ((string_eq.same_iff j k).0 (sym q)) in
      rw other
        (h.0, h.1, h.2, lookup-insert_ne j k b d ne ∙ h.3, insert-IsSound k b d h.4 named c e)
]

lookup-IsSound :
    (k : String) (b : CreditBalance) (d : Dict String CreditBalance)
    → IsSound d
    → lookup k d ≡ some b
    → (b.account ≡ k) × (pos 0 ≤ℤ b.credit_seconds) × (pos 0 ≤ℤ b.debit_seconds)
lookup-IsSound k b [] h e = cc
lookup-IsSound k b ((j, a) ∷ d) h e = elim (Bool-cases (j == k)) [
  | inl same ↦
      let q = eq_of_beq j k same in
      let r : a ≡ b = cc (rw same at e) in rw (← r, ← q) (h.0, h.1, h.2)
  | inr other ↦ lookup-IsSound k b d h.4 (rw other at e)
]

get_or_create-IsSound :
    (k : String) (s : CreditState)
    → IsSound s.balances
    → let (b, s') = get_or_create k s in
      IsSound s'.balances
      × (b.account ≡ k)
      × (pos 0 ≤ℤ b.credit_seconds)
      × (pos 0 ≤ℤ b.debit_seconds)
unfolding get_or_create
get_or_create-IsSound k s h = elim (Option-cases (lookup k s.balances)) [
  | inl new ↦
      rw (new, get_or_create)
        (
          insert-IsSound k (record { account = k; credit_seconds = pos 0; debit_seconds = pos 0 })
              s.balances h refl (omega arith) (omega arith),
          refl,
          omega arith,
          omega arith,
        )
  | inr (b, old) ↦
      let (named, c, d) = lookup-IsSound k b s.balances h old in
      rw (old, get_or_create) (h, named, c, d)
]

add_credit-IsSound :
    (k : String) (x : ℤ) (s : CreditState)
    → pos 0 ≤ℤ x
    → IsSound s.balances
    → IsSound (add_credit k x s).balances
unfolding add_credit
add_credit-IsSound k x s p h =
    let (sound, named, c, d) = get_or_create-IsSound k s h in
    insert-IsSound k _ _ sound named (omega int_laws) d

add_debit-IsSound :
    (k : String) (x : ℤ) (s : CreditState)
    → pos 0 ≤ℤ x
    → IsSound s.balances
    → IsSound (add_debit k x s).balances
unfolding add_debit
add_debit-IsSound k x s p h =
    let (sound, named, c, d) = get_or_create-IsSound k s h in
    insert-IsSound k _ _ sound named c (omega int_laws)

module _ (py : Conversions) where
  apply_effect-IsSound :
      (t : TxType) (sender : String) (payload : Payload) (s : CreditState)
      → IsSound s.balances
      → IsSound (apply_effect py t sender payload s).1.balances
  unfolding apply_effect apply_job_completed apply_credit_settled apply_bridge_burn
      apply_bridge_mint
  apply_effect-IsSound job_completed sender payload s h =
      grind (arith, add_credit-IsSound, add_debit-IsSound)
  apply_effect-IsSound credit_settled sender payload s h =
      grind (arith, add_credit-IsSound, add_debit-IsSound)
  apply_effect-IsSound bridge_burn sender payload s h =
      grind (arith, get_or_create-IsSound, add_debit-IsSound)
  apply_effect-IsSound bridge_mint sender payload s h = grind (arith, add_credit-IsSound)
  apply_effect-IsSound _ sender payload s h = h

  -- A transaction, applied or refused, keeps the balances sound.
  pub apply_transaction-IsSound :
      (tx : ComputeTransaction) (s : CreditState)
      → IsSound s.balances
      → IsSound (apply_transaction py tx s).1.balances
  unfolding apply_transaction
  apply_transaction-IsSound tx s h =
      elim (Bool-cases (leb_ℤ tx.nonce (last_nonce py s tx.sender))) [
        | inl stale ↦ rw stale h
        | inr new ↦ rw new (
            apply_effect-IsSound tx.tx_type tx.sender tx.payload
              (record s { nonces = insert tx.sender tx.nonce s.nonces }) h)
      ]

  replay_from-IsSound :
      (txs : List ComputeTransaction) (s : CreditState)
      → IsSound s.balances
      → (replay_from py txs s).0 ≡ ok tt
      → IsSound (replay_from py txs s).1.balances
  unfolding replay_from
  replay_from-IsSound [] s h done = h
  replay_from-IsSound (tx ∷ txs) s h done =
      let (first, rest) = >>-ok (apply_transaction py tx) (replay_from py txs) s tt done in
      rw rest (
        replay_from-IsSound txs (apply_transaction py tx s).1 (apply_transaction-IsSound tx s h)
          (rw rest at done))

  -- In the balances of a replay no account is listed twice, and no counter is negative.
  pub replay_transactions-IsSound :
      (txs : List ComputeTransaction) (s : CreditState)
      → replay_transactions py txs ≡ ok s
      → IsSound s.balances
  replay_transactions-IsSound txs s h =
      let (done, same) = replay_transactions-ok py txs s h in
      rw (← same) (replay_from-IsSound txs fresh_state tt done)

  lookup-get_or_create :
      (account : String) (s : CreditState)
      → lookup account (get_or_create account s).1.balances ≡ some (get_or_create account s).0
  unfolding get_or_create
  lookup-get_or_create account s = elim (Option-cases (lookup account s.balances)) [
    | inl new ↦ rw (new, get_or_create) (lookup-insert_self account _ s.balances)
    | inr (b, old) ↦ rw (old, get_or_create) old
  ]

  lookup-add_debit :
      (account : String) (x : ℤ) (s : CreditState) (b : CreditBalance)
      → lookup account s.balances ≡ some b
      → lookup account (add_debit account x s).balances
        ≡ some (record b { debit_seconds = b.debit_seconds +ℤ x })
  unfolding add_debit
  lookup-add_debit account x s b old =
      rw (old, get_or_create) (lookup-insert_self account _ s.balances)

  -- A burn that is applied leaves its account, which is named and positive in amount, with no
  -- more debit than credit.
  pub apply_bridge_burn-solvent :
      (payload : Payload) (s : CreditState)
      → (apply_bridge_burn py payload s).0 ≡ ok tt
      → (b : CreditBalance) × (lookup
            (str_field py payload "account" "")
            (apply_bridge_burn py payload s).1.balances
          ≡ some b)
        × (b.debit_seconds ≤ℤ b.credit_seconds)
  unfolding apply_bridge_burn net_seconds
  apply_bridge_burn-solvent payload s h =
      let account = str_field py payload "account" "" in
      let amount : ℤ = elim (float_field py payload "amount_seconds") [
        | none ↦ pos 0
        | some x ↦ x
      ] in
      let (b, s') = get_or_create account s in
      let found = lookup-add_debit account amount s' b (lookup-get_or_create account s) in
      (
        record b { debit_seconds = b.debit_seconds +ℤ amount },
        grind (arith, found),
        grind (int_laws),
      )
