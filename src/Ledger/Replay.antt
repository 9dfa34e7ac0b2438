-- ===== src/Ledger/Replay.antt =====
-- deepiri_zepgpu/compute_ledger/replay.py: credit state by replaying transactions.
pub mod Monad
pub mod Listing
pub mod Supply
pub mod Bounded
pub mod Exact
pub mod Nonces
pub mod Solvent
mod Tests
use deepiri_zepgpu.Base.{
  if◌then◌else◌, string_eq, nat_eq, ◌==◌, Outcome, ok, raise, String, ◌≡◌, refl, not, none, some,
  List, [], ◌∷◌,
}
use deepiri_zepgpu.Base.Int.{ℤ, pos, negsuc, ◌+ℤ◌, ◌-ℤ◌, ltb_ℤ, leb_ℤ}
use deepiri_zepgpu.Base.Dict.{lookup, insert}
use deepiri_zepgpu.Ledger.Json.{
  Payload, Conversions, null, truthy, get_or_default, str_field, float_field,
}
use deepiri_zepgpu.Ledger.Transaction.{
  TxType, job_submitted, job_assigned, job_completed, credit_settled, validator_registered,
  bridge_burn, bridge_mint, ComputeTransaction,
}
use deepiri_zepgpu.Ledger.Replay.Monad.{
  ReplayError, stale_nonce, bad_number, negative_amount, non_positive_amount, missing_account,
  missing_receipt, insufficient_balance, CreditBalance, CreditState, fresh_state, Action, pure,
  or_throw, modify, throw_if, ◌>>=◌, ◌>>◌,
}

-- `CreditBalance.net_seconds`
unfoldable pub net_seconds : CreditBalance → ℤ
net_seconds b = b.credit_seconds -ℤ b.debit_seconds

unfoldable pub get_or_create : String → CreditState → CreditBalance × CreditState
get_or_create account s = elim (lookup account s.balances) [
  | none ↦
      let b : CreditBalance = record {
        account = account;
        credit_seconds = pos 0;
        debit_seconds = pos 0;
      } in
      (b, record s { balances = insert account b s.balances })
  | some b ↦ (b, s)
]

-- `state.get_or_create(account).credit_seconds += amount`
unfoldable pub add_credit : String → ℤ → CreditState → CreditState
unfolding get_or_create
add_credit account amount s =
    let (b, s') = get_or_create account s in
    record s' {
      balances =
          insert account (record b { credit_seconds = b.credit_seconds +ℤ amount }) s'.balances;
    }

-- `state.get_or_create(account).debit_seconds += amount`
unfoldable pub add_debit : String → ℤ → CreditState → CreditState
unfolding get_or_create
add_debit account amount s =
    let (b, s') = get_or_create account s in
    record s' {
      balances =
          insert account (record b { debit_seconds = b.debit_seconds +ℤ amount }) s'.balances;
    }

-- `bal = state.get_or_create(account)`
abbrev pub balance_of : String → Action CreditBalance
balance_of account s = let (b, s') = get_or_create account s in (ok b, s')

module _ (py : Conversions) where
  unfoldable pub apply_job_completed : String → Payload → Action (Unit {0})
  apply_job_completed sender payload = do
    let provider = str_field py payload "provider_account" sender
    let consumer = str_field py payload "consumer_account" ""
    gpu_seconds ← or_throw (float_field py payload "gpu_seconds") bad_number
    throw_if (ltb_ℤ gpu_seconds (pos 0)) negative_amount
    modify (add_credit provider gpu_seconds)
    if consumer == "" then pure tt else modify (add_debit consumer gpu_seconds)

  unfoldable pub apply_credit_settled : String → Payload → Action (Unit {0})
  apply_credit_settled sender payload = do
    let from_account = str_field py payload "from_account" sender
    let to_account = str_field py payload "to_account" ""
    amount ← or_throw (float_field py payload "amount_seconds") bad_number
    throw_if (ltb_ℤ amount (pos 0)) negative_amount
    throw_if (to_account == "") missing_account
    modify (add_debit from_account amount)
    modify (add_credit to_account amount)

  unfoldable pub apply_bridge_burn : Payload → Action (Unit {0})
  apply_bridge_burn payload = do
    let account = str_field py payload "account" ""
    amount ← or_throw (float_field py payload "amount_seconds") bad_number
    throw_if (account == "") missing_account
    throw_if (leb_ℤ amount (pos 0)) non_positive_amount
    bal ← balance_of account
    throw_if (ltb_ℤ (net_seconds bal) amount) insufficient_balance
    modify (add_debit account amount)

  unfoldable pub apply_bridge_mint : Payload → Action (Unit {0})
  apply_bridge_mint payload = do
    let account = str_field py payload "account" ""
    amount ← or_throw (float_field py payload "amount_seconds") bad_number
    throw_if (account == "") missing_account
    throw_if (leb_ℤ amount (pos 0)) non_positive_amount
    throw_if (not (truthy (get_or_default payload "receipt_id" null))) missing_receipt
    modify (add_credit account amount)

  -- The ladder of `if tx_type == …`. The type is a `TxType`, so none is unsupported.
  unfoldable pub apply_effect : TxType → String → Payload → Action (Unit {0})
  apply_effect job_completed sender payload = apply_job_completed sender payload
  apply_effect credit_settled sender payload = apply_credit_settled sender payload
  apply_effect bridge_burn sender payload = apply_bridge_burn payload
  apply_effect bridge_mint sender payload = apply_bridge_mint payload
  apply_effect job_submitted sender payload = pure tt
  apply_effect job_assigned sender payload = pure tt
  apply_effect validator_registered sender payload = pure tt

  -- `state.nonces.get(sender, -1)`
  unfoldable pub last_nonce : CreditState → String → ℤ
  last_nonce s sender = elim (lookup sender s.nonces) [ none ↦ negsuc 0 | some n ↦ n ]

  -- The nonce is written before the payload is looked at.
  unfoldable pub apply_transaction : ComputeTransaction → Action (Unit {0})
  unfolding last_nonce
  apply_transaction tx s =
      if leb_ℤ tx.nonce (last_nonce s tx.sender)
      then (raise stale_nonce, s)
      else apply_effect tx.tx_type tx.sender tx.payload
          (record s { nonces = insert tx.sender tx.nonce s.nonces })

  -- The `for` loop of `replay_transactions`; a raise ends it.
  unfoldable pub replay_from : List ComputeTransaction → Action (Unit {0})
  replay_from [] = pure tt
  replay_from (tx ∷ txs) = apply_transaction tx >> replay_from txs

  unfoldable pub replay_transactions : List ComputeTransaction → Outcome ReplayError CreditState
  unfolding replay_from
  replay_transactions txs =
      let (r, s) = replay_from txs fresh_state in elim r [ ok u ↦ ok s | raise e ↦ raise e ]

  pub replay_transactions-ok :
      (txs : List ComputeTransaction) (s : CreditState)
      → replay_transactions txs ≡ ok s
      → ((replay_from txs fresh_state).0 ≡ ok tt) × ((replay_from txs fresh_state).1 ≡ s)
  unfolding replay_transactions
  replay_transactions-ok txs s =
      by_outcome (replay_from txs fresh_state).0 (replay_from txs fresh_state).1
    where
      by_outcome :
          (r : Outcome ReplayError (Unit {0})) (s' : CreditState)
          → (elim r [ ok u ↦ ok s' | raise e ↦ raise e ]) ≡ ok s
          → (r ≡ ok tt) × (s' ≡ s)
      by_outcome (ok u) s' e = (refl, cc)
      by_outcome (raise x) s' e = cc
