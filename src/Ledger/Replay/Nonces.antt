-- ===== src/Ledger/Replay/Nonces.antt =====
-- deepiri_zepgpu/compute_ledger/replay.py: nonces, and that no transaction is replayed twice.
use deepiri_zepgpu.Ledger.Replay.Monad.{fresh_state, >>-ok, stale_nonce, CreditState}
use deepiri_zepgpu.Ledger.Transaction.{
  bridge_mint, bridge_burn, credit_settled, job_completed, TxType, ComputeTransaction,
}
use deepiri_zepgpu.Ledger.Replay.{
  replay_transactions-ok, get_or_create, replay_transactions, add_debit, add_credit,
  apply_bridge_mint, apply_bridge_burn, replay_from, apply_credit_settled, apply_job_completed,
  last_nonce, apply_transaction, apply_effect,
}
use deepiri_zepgpu.Ledger.Json.{Payload, Conversions}
use deepiri_zepgpu.Base.{
  leb→le, string_eq, nat_eq, ◌==◌, eq_of_beq, Bool-cases, All, ok, raise, String, ◌≡◌, refl, ◌≢◌,
  ◌⊎◌, inl, inr, List, [], ◌∷◌, arith,
}
use deepiri_zepgpu.Base.Int.{ℤ, ◌<ℤ◌, ◌≤ℤ◌, leb_ℤ}
use deepiri_zepgpu.Base.Dict.{lookup-insert_ne, lookup-insert_self, Dict, insert}

module _ (py : Conversions) where
  -- Handlers touch balances alone.
  nonces-apply_effect :
      (t : TxType) (sender : String) (payload : Payload) (s : CreditState)
      → (apply_effect py t sender payload s).1.nonces ≡ s.nonces
  unfolding apply_effect apply_job_completed apply_credit_settled apply_bridge_burn
      apply_bridge_mint add_credit add_debit get_or_create
  nonces-apply_effect job_completed sender payload s = ground arith
  nonces-apply_effect credit_settled sender payload s = ground arith
  nonces-apply_effect bridge_burn sender payload s = ground arith
  nonces-apply_effect bridge_mint sender payload s = ground arith
  nonces-apply_effect _ sender payload s = refl

  -- What a transaction does to the nonces: a stale one changes nothing at all, and every other
  -- one, also one that raises for its payload, records its nonce for its sender alone.
  pub apply_transaction-nonces :
      (tx : ComputeTransaction) (s : CreditState)
      → ((tx.nonce ≤ℤ last_nonce py s tx.sender)
          × (apply_transaction py tx s ≡ (raise stale_nonce, s)))
        ⊎ ((last_nonce py s tx.sender <ℤ tx.nonce)
            × ((apply_transaction py tx s).1.nonces ≡ insert tx.sender tx.nonce s.nonces))
  unfolding apply_transaction
  apply_transaction-nonces tx s = elim (Bool-cases (leb_ℤ tx.nonce (last_nonce py s tx.sender))) [
    | inl stale ↦ inl (leb→le _ _ stale, rw stale)
    | inr new ↦ inr (
      ground arith,
      rw new (
          nonces-apply_effect tx.tx_type tx.sender tx.payload
            (record s { nonces = insert tx.sender tx.nonce s.nonces })),
    )
  ]

  last_nonce-insert_self :
      (s : CreditState) (k : String) (n : ℤ) (d : Dict String ℤ)
      → s.nonces ≡ insert k n d
      → last_nonce py s k ≡ n
  unfolding last_nonce
  last_nonce-insert_self s k n d e = rw (e, last_nonce, lookup-insert_self k n d)

  last_nonce-insert_ne :
      (s t : CreditState) (k j : String) (n : ℤ)
      → t.nonces ≡ insert k n s.nonces
      → k ≢ j
      → last_nonce py t j ≡ last_nonce py s j
  unfolding last_nonce
  last_nonce-insert_ne s t k j n e h = rw (e, last_nonce, lookup-insert_ne j k n s.nonces h)

  -- Behind a transaction, its sender's later transactions have larger nonces.
  abbrev pub NoncesIncrease : List ComputeTransaction → Type 0
  NoncesIncrease [] = Unit
  NoncesIncrease (tx ∷ txs) =
      All (λ u. u.sender ≡ tx.sender → tx.nonce <ℤ u.nonce) txs × NoncesIncrease txs

  last_nonce-grows :
      (tx : ComputeTransaction) (s t : CreditState) (sender : String) (n : ℤ)
      → last_nonce py s tx.sender <ℤ tx.nonce
      → t.nonces ≡ insert tx.sender tx.nonce s.nonces
      → n ≤ℤ last_nonce py s sender
      → n ≤ℤ last_nonce py t sender
  last_nonce-grows tx s t sender n new e le = elim (Bool-cases (tx.sender == sender)) [
    | inl same ↦
        let q : tx.sender ≡ sender = eq_of_beq tx.sender sender same in
        rw (← q, last_nonce-insert_self t tx.sender tx.nonce s.nonces e)
          (let le' : n ≤ℤ last_nonce py s tx.sender = rw (← q) at le in omega arith)
    | inr other ↦
        let ne : tx.sender ≢ sender = λ q. cc ((string_eq.same_iff tx.sender sender).0 q) in
        rw (last_nonce-insert_ne s t tx.sender sender tx.nonce e ne) le
  ]

  later_nonces :
      (txs : List ComputeTransaction) (sender : String) (n : ℤ) (s : CreditState)
      → (replay_from py txs s).0 ≡ ok tt
      → n ≤ℤ last_nonce py s sender
      → All (λ u. u.sender ≡ sender → n <ℤ u.nonce) txs
  unfolding replay_from
  later_nonces [] sender n s h le = tt
  later_nonces (tx ∷ txs) sender n s h le =
      let (first, rest) = >>-ok (apply_transaction py tx) (replay_from py txs) s tt h in
      let s' = (apply_transaction py tx s).1 in
      elim (apply_transaction-nonces tx s) [
        | inl (_, stale) ↦ cc
        | inr (new, e) ↦ (
          λ q. let new' : last_nonce py s sender <ℤ tx.nonce = rw q at new in omega arith,
          later_nonces txs sender n s' (rw rest at h) (last_nonce-grows tx s s' sender n new e le),
        )
      ]

  replay_from-NoncesIncrease :
      (txs : List ComputeTransaction) (s : CreditState)
      → (replay_from py txs s).0 ≡ ok tt
      → NoncesIncrease txs
  unfolding replay_from
  replay_from-NoncesIncrease [] s h = tt
  replay_from-NoncesIncrease (tx ∷ txs) s h =
      let (first, rest) = >>-ok (apply_transaction py tx) (replay_from py txs) s tt h in
      let s' = (apply_transaction py tx s).1 in
      elim (apply_transaction-nonces tx s) [
        | inl (_, stale) ↦ cc
        | inr (_, e) ↦ (
          later_nonces txs tx.sender tx.nonce s' (rw rest at h)
              (rw (last_nonce-insert_self s' tx.sender tx.nonce s.nonces e) (omega arith)),
          replay_from-NoncesIncrease txs s' (rw rest at h),
        )
      ]

  -- A replay that returns had, for each sender, strictly increasing nonces; so no transaction
  -- stands in it twice.
  pub replay_transactions-NoncesIncrease :
      (txs : List ComputeTransaction) (s : CreditState)
      → replay_transactions py txs ≡ ok s
      → NoncesIncrease txs
  replay_transactions-NoncesIncrease txs s h =
      replay_from-NoncesIncrease txs fresh_state (replay_transactions-ok py txs s h).0
