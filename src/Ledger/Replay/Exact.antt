-- ===== src/Ledger/Replay/Exact.antt =====
-- deepiri_zepgpu/compute_ledger/replay.py: the largest counter that a replay can reach. Python's
-- floats hold every whole number up to 2 ^ 53, so below it the integers here are what the source computes.
use deepiri_zepgpu.Ledger.Transaction.{
  validator_registered, job_assigned, job_submitted, credit_settled, TxType, ComputeTransaction,
}
use deepiri_zepgpu.Ledger.Transaction.{job_completed, bridge_burn, bridge_mint}
use deepiri_zepgpu.Ledger.Json.{str_field, Payload, Conversions}
use deepiri_zepgpu.Ledger.Replay.{
  replay_transactions-ok, replay_transactions, last_nonce, replay_from, apply_transaction,
  apply_effect, apply_bridge_burn, apply_credit_settled, apply_bridge_mint, apply_job_completed,
  get_or_create, add_debit, add_credit,
}
use deepiri_zepgpu.Ledger.Replay.Monad.{fresh_state, >>-ok, CreditState}
use deepiri_zepgpu.Ledger.Replay.Supply.{
  replay_transactions-supply, amount_of, net_total, total_issued,
}
use deepiri_zepgpu.Base.{
  string_eq, nat_eq, Bool-cases, ok, ◌^◌, String, ◌≡◌, inl, inr, List, [], ◌∷◌, arith,
}
use deepiri_zepgpu.Base.Int.{leb_ℤ, ◌+ℤ◌, ℤ, pos, ◌≤ℤ◌, int_laws}
use deepiri_zepgpu.Base.Dict.{insert}
use deepiri_zepgpu.Ledger.Replay.Bounded.{
  Bounded, Bounded-weaken, get_or_create-Bounded, add_credit-Bounded, add_debit-Bounded,
}

module _ (py : Conversions) where
  -- The seconds that a transaction names; each moves at most these onto one counter.
  abbrev gross_by : TxType → Payload → ℤ
  gross_by job_completed payload = amount_of py payload "gpu_seconds"
  gross_by credit_settled payload = amount_of py payload "amount_seconds"
  gross_by bridge_burn payload = amount_of py payload "amount_seconds"
  gross_by bridge_mint payload = amount_of py payload "amount_seconds"
  gross_by job_submitted payload = pos 0
  gross_by job_assigned payload = pos 0
  gross_by validator_registered payload = pos 0

  abbrev pub gross_total : List ComputeTransaction → ℤ
  gross_total [] = pos 0
  gross_total (tx ∷ txs) = gross_by tx.tx_type tx.payload +ℤ gross_total txs

  -- What is applied names no negative amount.
  apply_effect-gross :
      (t : TxType) (sender : String) (payload : Payload) (s : CreditState)
      → (apply_effect py t sender payload s).0 ≡ ok tt
      → pos 0 ≤ℤ gross_by t payload
  unfolding apply_effect apply_job_completed apply_credit_settled apply_bridge_burn
      apply_bridge_mint
  apply_effect-gross job_completed sender payload s h = grind (int_laws)
  apply_effect-gross credit_settled sender payload s h = grind (int_laws)
  apply_effect-gross bridge_burn sender payload s h = grind (int_laws)
  apply_effect-gross bridge_mint sender payload s h = grind (int_laws)
  apply_effect-gross _ sender payload s h = omega arith

  apply_job_completed-Bounded :
      (n : ℤ) (sender : String) (payload : Payload) (s : CreditState)
      → pos 0 ≤ℤ n
      → pos 0 ≤ℤ amount_of py payload "gpu_seconds"
      → Bounded n n s.balances
      → (apply_job_completed py sender payload s).0 ≡ ok tt
      → let m = n +ℤ amount_of py payload "gpu_seconds" in
        Bounded m m (apply_job_completed py sender payload s).1.balances
  unfolding apply_job_completed
  apply_job_completed-Bounded n sender payload s p q h done =
      let provider = str_field py payload "provider_account" sender in
      let consumer = str_field py payload "consumer_account" "" in
      let x = amount_of py payload "gpu_seconds" in
      let paid = add_credit-Bounded n n provider x s p p q h in
      let alone =
        Bounded-weaken (n +ℤ x) n (n +ℤ x) (n +ℤ x) _ (omega int_laws) (omega (int_laws, q)) paid in
      let both =
        add_debit-Bounded (n +ℤ x) n consumer x (add_credit provider x s) (omega (int_laws, p, q)) p
          q paid in
      grind (arith, alone, both)

  apply_credit_settled-Bounded :
      (n : ℤ) (sender : String) (payload : Payload) (s : CreditState)
      → pos 0 ≤ℤ n
      → pos 0 ≤ℤ amount_of py payload "amount_seconds"
      → Bounded n n s.balances
      → (apply_credit_settled py sender payload s).0 ≡ ok tt
      → let m = n +ℤ amount_of py payload "amount_seconds" in
        Bounded m m (apply_credit_settled py sender payload s).1.balances
  unfolding apply_credit_settled
  apply_credit_settled-Bounded n sender payload s p q h done =
      let from_account = str_field py payload "from_account" sender in
      let x = amount_of py payload "amount_seconds" in
      let taken = add_debit-Bounded n n from_account x s p p q h in
      let both =
        add_credit-Bounded n (n +ℤ x) (str_field py payload "to_account" "") x
          (add_debit from_account x s) p (omega (int_laws, p, q)) q taken in
      grind (arith, both)

  apply_bridge_burn-Bounded :
      (n : ℤ) (payload : Payload) (s : CreditState)
      → pos 0 ≤ℤ n
      → pos 0 ≤ℤ amount_of py payload "amount_seconds"
      → Bounded n n s.balances
      → (apply_bridge_burn py payload s).0 ≡ ok tt
      → let m = n +ℤ amount_of py payload "amount_seconds" in
        Bounded m m (apply_bridge_burn py payload s).1.balances
  unfolding apply_bridge_burn
  apply_bridge_burn-Bounded n payload s p q h done =
      let account = str_field py payload "account" "" in
      let x = amount_of py payload "amount_seconds" in
      let (known, low) = get_or_create-Bounded n n account s p p h in
      let taken = add_debit-Bounded n n account x (get_or_create account s).1 p p q known in
      let wide =
        Bounded-weaken n (n +ℤ x) (n +ℤ x) (n +ℤ x) _ (omega (int_laws, q)) (omega int_laws)
          taken in
      grind (arith, wide)

  apply_bridge_mint-Bounded :
      (n : ℤ) (payload : Payload) (s : CreditState)
      → pos 0 ≤ℤ n
      → pos 0 ≤ℤ amount_of py payload "amount_seconds"
      → Bounded n n s.balances
      → (apply_bridge_mint py payload s).0 ≡ ok tt
      → let m = n +ℤ amount_of py payload "amount_seconds" in
        Bounded m m (apply_bridge_mint py payload s).1.balances
  unfolding apply_bridge_mint
  apply_bridge_mint-Bounded n payload s p q h done =
      let x = amount_of py payload "amount_seconds" in
      let paid = add_credit-Bounded n n (str_field py payload "account" "") x s p p q h in
      let wide =
        Bounded-weaken (n +ℤ x) n (n +ℤ x) (n +ℤ x) _ (omega int_laws) (omega (int_laws, q)) paid in
      grind (arith, wide)

  apply_effect-Bounded :
      (n : ℤ) (t : TxType) (sender : String) (payload : Payload) (s : CreditState)
      → pos 0 ≤ℤ n
      → Bounded n n s.balances
      → (apply_effect py t sender payload s).0 ≡ ok tt
      → let m = n +ℤ gross_by t payload in
        (pos 0 ≤ℤ m) × Bounded m m (apply_effect py t sender payload s).1.balances
  unfolding apply_effect
  apply_effect-Bounded n t sender payload s p h done =
      let q = apply_effect-gross t sender payload s done in
      (omega (int_laws, p, q), by_type t q done)
    where
      by_type :
          (t : TxType)
          → pos 0 ≤ℤ gross_by t payload
          → (apply_effect py t sender payload s).0 ≡ ok tt
          → let m = n +ℤ gross_by t payload in
            Bounded m m (apply_effect py t sender payload s).1.balances
      by_type job_completed q e = apply_job_completed-Bounded n sender payload s p q h e
      by_type credit_settled q e = apply_credit_settled-Bounded n sender payload s p q h e
      by_type bridge_burn q e = apply_bridge_burn-Bounded n payload s p q h e
      by_type bridge_mint q e = apply_bridge_mint-Bounded n payload s p q h e
      by_type _ q e =
          Bounded-weaken n n (n +ℤ pos 0) (n +ℤ pos 0) s.balances (omega int_laws) (omega int_laws)
            h

  apply_transaction-Bounded :
      (n : ℤ) (tx : ComputeTransaction) (s : CreditState)
      → pos 0 ≤ℤ n
      → Bounded n n s.balances
      → (apply_transaction py tx s).0 ≡ ok tt
      → let m = n +ℤ gross_by tx.tx_type tx.payload in
        (pos 0 ≤ℤ m) × Bounded m m (apply_transaction py tx s).1.balances
  unfolding apply_transaction
  apply_transaction-Bounded n tx s p h done =
      elim (Bool-cases (leb_ℤ tx.nonce (last_nonce py s tx.sender))) [
        | inl stale ↦ cc (rw stale at done)
        | inr new ↦ rw new (
            apply_effect-Bounded n tx.tx_type tx.sender tx.payload
              (record s { nonces = insert tx.sender tx.nonce s.nonces }) p h (rw new at done))
      ]

  replay_from-Bounded :
      (n : ℤ) (txs : List ComputeTransaction) (s : CreditState)
      → pos 0 ≤ℤ n
      → Bounded n n s.balances
      → (replay_from py txs s).0 ≡ ok tt
      → let m = n +ℤ gross_total txs in Bounded m m (replay_from py txs s).1.balances
  unfolding replay_from
  replay_from-Bounded n [] s p h done =
      Bounded-weaken n n (n +ℤ pos 0) (n +ℤ pos 0) s.balances (omega int_laws) (omega int_laws) h
  replay_from-Bounded n (tx ∷ txs) s p h done =
      let (first, rest) = >>-ok (apply_transaction py tx) (replay_from py txs) s tt done in
      let s' = (apply_transaction py tx s).1 in
      let g = gross_by tx.tx_type tx.payload in
      let (q, h') = apply_transaction-Bounded n tx s p h first in
      let kept = replay_from-Bounded (n +ℤ g) txs s' q h' (rw rest at done) in
      let m = n +ℤ (g +ℤ gross_total txs) in
      rw rest (
        Bounded-weaken ((n +ℤ g) +ℤ gross_total txs) ((n +ℤ g) +ℤ gross_total txs) m m _
          (omega int_laws) (omega int_laws) kept)

  -- For whole seconds: where a replay succeeds and the amounts of its transactions come to at most
  -- `2 ^ 53`, every counter of its balances lies between 0 and `2 ^ 53`, where floats hold every
  -- whole number, and the sum of all balances is what the transactions issued.
  pub replay_transactions-exact :
      (txs : List ComputeTransaction) (s : CreditState)
      → replay_transactions py txs ≡ ok s
      → gross_total txs ≤ℤ pos (2 ^ 53)
      → Bounded (pos (2 ^ 53)) (pos (2 ^ 53)) s.balances
        × (net_total s.balances ≡ total_issued py txs)
  replay_transactions-exact txs s h low =
      let (done, same) = replay_transactions-ok py txs s h in
      let kept = replay_from-Bounded (pos 0) txs fresh_state (omega arith) tt done in
      let m = pos 0 +ℤ gross_total txs in
      (
        Bounded-weaken m m (pos (2 ^ 53)) (pos (2 ^ 53)) s.balances (omega (int_laws, low))
            (omega (int_laws, low)) (rw same at kept),
        replay_transactions-supply py txs s h,
      )
