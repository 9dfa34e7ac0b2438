-- ===== src/Ledger/Replay/Tests.antt =====
-- A small history of the credit ledger.
use deepiri_zepgpu.Base.Dict.{insert}
use deepiri_zepgpu.Ledger.Replay.Solvent.{replay_transactions-IsSound, IsSound}
use deepiri_zepgpu.Ledger.Replay.Nonces.{
  apply_transaction-nonces, replay_transactions-NoncesIncrease, NoncesIncrease,
}
use deepiri_zepgpu.Ledger.Replay.Supply.{total_issued, net_total}
use deepiri_zepgpu.Ledger.Replay.Exact.{replay_transactions-exact}
use deepiri_zepgpu.Ledger.Replay.Bounded.{Bounded}
use deepiri_zepgpu.Ledger.Replay.{
  net_seconds, add_credit, get_or_create, apply_job_completed, add_debit, last_nonce, apply_effect,
  apply_bridge_burn, apply_transaction, replay_transactions,
}
use deepiri_zepgpu.Ledger.Replay.Monad.{
  insufficient_balance, stale_nonce, CreditState, CreditBalance,
}
use deepiri_zepgpu.Ledger.Transaction.{bridge_burn, job_completed, ComputeTransaction, TxType}
use deepiri_zepgpu.Ledger.Json.{num, str, Payload, Conversions}
use deepiri_zepgpu.Base.{
  string_eq, nat_eq, ok, raise, ◌^◌, String, ◌≡◌, refl, ◌⊎◌, none, List, [], ◌∷◌, arith,
}
use deepiri_zepgpu.Base.Int.{◌-ℤ◌, ◌+ℤ◌, ◌<ℤ◌, ◌≤ℤ◌, ℤ, pos}

abbrev py : Conversions
py = record { text_of = λ v. ""; parse_float = λ s. none }

abbrev transaction : TxType → ℤ → Payload → ComputeTransaction
transaction t n p = record {
  tx_type = t;
  sender = "relay";
  nonce = n;
  payload = p;
  timestamp = "";
  id = "id";
  signature = "relay";
}

abbrev job : ComputeTransaction
job = transaction job_completed (pos 0) (
    ("provider_account", str "ann")
    ∷ ("consumer_account", str "bob")
    ∷ ("gpu_seconds", num (pos 9))
    ∷ [])

abbrev burn : ComputeTransaction
burn =
    transaction bridge_burn (pos 1) (("account", str "ann") ∷ ("amount_seconds", num (pos 4)) ∷ [])

abbrev overdraft : ComputeTransaction
overdraft =
    transaction bridge_burn (pos 2) (("account", str "ann") ∷ ("amount_seconds", num (pos 6)) ∷ [])

abbrev balance : String → ℤ → ℤ → CreditBalance
balance account credit debit = record {
  account = account;
  credit_seconds = credit;
  debit_seconds = debit;
}

abbrev history : List ComputeTransaction
history = job ∷ burn ∷ []

abbrev settled : CreditState
settled = record {
  balances = ("ann", balance "ann" (pos 9) (pos 4)) ∷ ("bob", balance "bob" (pos 0) (pos 9)) ∷ [];
  nonces = ("relay", pos 1) ∷ [];
}

replays : replay_transactions py history ≡ ok settled
unfolding replay_transactions apply_transaction apply_effect apply_job_completed apply_bridge_burn
    add_credit add_debit get_or_create net_seconds ◌+ℤ◌ ◌-ℤ◌
replays = refl

-- The account has 5 left of 9, and cannot burn 6; its nonce is used all the same.
overdraft_refused :
    apply_transaction py overdraft settled
    ≡ (raise insufficient_balance, record settled { nonces = ("relay", pos 2) ∷ [] })
unfolding apply_transaction apply_effect apply_bridge_burn get_or_create net_seconds ◌-ℤ◌
overdraft_refused = refl

replay_transactions-exact_example :
    Bounded (pos (2 ^ 53)) (pos (2 ^ 53)) settled.balances
    × (net_total settled.balances ≡ total_issued py history)
unfolding ◌+ℤ◌
replay_transactions-exact_example =
    replay_transactions-exact py history settled replays (omega arith)

replay_transactions-NoncesIncrease_example : NoncesIncrease py history
replay_transactions-NoncesIncrease_example =
    replay_transactions-NoncesIncrease py history settled replays

replay_transactions-IsSound_example : IsSound settled.balances
replay_transactions-IsSound_example = replay_transactions-IsSound py history settled replays

apply_transaction-nonces_example :
    ((pos 2 ≤ℤ last_nonce py settled "relay")
      × (apply_transaction py overdraft settled ≡ (raise stale_nonce, settled)))
    ⊎ ((last_nonce py settled "relay" <ℤ pos 2)
        × ((apply_transaction py overdraft settled).1.nonces
            ≡ insert "relay" (pos 2) settled.nonces))
apply_transaction-nonces_example = apply_transaction-nonces py overdraft settled

abbrev earned : CreditState
earned = record {
  balances = ("ann", balance "ann" (pos 9) (pos 0)) ∷ ("bob", balance "bob" (pos 0) (pos 9)) ∷ [];
  nonces = ("relay", pos 0) ∷ [];
}

burns : (apply_bridge_burn py burn.payload earned).0 ≡ ok tt
unfolding apply_bridge_burn add_debit get_or_create net_seconds ◌+ℤ◌ ◌-ℤ◌
burns = refl
