-- ===== src/Ledger/Replay/Supply.antt =====
-- deepiri_zepgpu/compute_ledger/replay.py: what transactions do to the sum of all balances.
use deepiri_zepgpu.Ledger.Transaction.{
  validator_registered, job_assigned, job_submitted, credit_settled, TxType, ComputeTransaction,
}
use deepiri_zepgpu.Ledger.Transaction.{job_completed, bridge_burn, bridge_mint}
use deepiri_zepgpu.Ledger.Json.{str_field, float_field, Payload, Conversions}
use deepiri_zepgpu.Ledger.Replay.{
  replay_transactions-ok, replay_transactions, last_nonce, replay_from, apply_transaction,
  apply_effect, apply_bridge_burn, apply_credit_settled, apply_bridge_mint, apply_job_completed,
  get_or_create, add_debit, add_credit,
}
use deepiri_zepgpu.Ledger.Replay.Monad.{fresh_state, >>-ok, CreditState, CreditBalance}
use deepiri_zepgpu.Base.{
  if◌then◌else◌, string_eq, nat_eq, ◌==◌, Bool-cases, Option-cases, ok, String, ◌≡◌, ap, ◌∙◌, inl,
  inr, none, some, List, [], ◌∷◌, arith,
}
use deepiri_zepgpu.Base.Int.{leb_ℤ, eq_of_parts, neg_part, pos_part, ℤ, pos, ◌+ℤ◌, ◌-ℤ◌, int_laws}
use deepiri_zepgpu.Base.Dict.{lookup-insert_self, Dict, lookup, insert}

-- The net seconds of all accounts together.
abbrev pub net_total : Dict String CreditBalance → ℤ
net_total [] = pos 0
net_total ((k, b) ∷ d) = (b.credit_seconds -ℤ b.debit_seconds) +ℤ net_total d

-- An equation of integers, as equations of numbers that `omega` reads.
parts : {a b : ℤ} → a ≡ b → (pos_part a ≡ pos_part b) × (neg_part a ≡ neg_part b)
parts e = (ap pos_part e, ap neg_part e)

net_total-insert_new :
    (k : String) (b : CreditBalance) (d : Dict String CreditBalance)
    → lookup k d ≡ none
    → net_total (insert k b d) ≡ net_total d +ℤ (b.credit_seconds -ℤ b.debit_seconds)
net_total-insert_new k b [] h = omega int_laws
net_total-insert_new k b ((j, c) ∷ d) h = elim (Bool-cases (j == k)) [
  | inl e ↦ cc (rw e at h)
  | inr e ↦ rw e (omega (int_laws, parts (net_total-insert_new k b d (rw e at h))))
]

net_total-insert_old :
    (k : String) (b c : CreditBalance) (d : Dict String CreditBalance)
    → lookup k d ≡ some c
    → net_total (insert k b d) +ℤ (c.credit_seconds -ℤ c.debit_seconds)
      ≡ net_total d +ℤ (b.credit_seconds -ℤ b.debit_seconds)
net_total-insert_old k b c [] h = cc
net_total-insert_old k b c ((j, a) ∷ d) h = elim (Bool-cases (j == k)) [
  | inl e ↦ let same : a ≡ c = cc (rw e at h) in rw (e, same) (omega int_laws)
  | inr e ↦ rw e (omega (int_laws, parts (net_total-insert_old k b c d (rw e at h))))
]

-- A change of one balance by `x` is a change of the total by `x`.
net_total-update :
    (account : String) (f : CreditBalance → CreditBalance) (x : ℤ) (s : CreditState)
    → ((b : CreditBalance)
        → (f b).credit_seconds -ℤ (f b).debit_seconds ≡ (b.credit_seconds -ℤ b.debit_seconds) +ℤ x)
    → let (b, s') = get_or_create account s in
      net_total (insert account (f b) s'.balances) ≡ net_total s.balances +ℤ x
unfolding get_or_create
net_total-update account f x s h = elim (Option-cases (lookup account s.balances)) [
  | inl new ↦
      let b : CreditBalance = record {
        account = account;
        credit_seconds = pos 0;
        debit_seconds = pos 0;
      } in
      let d = insert account b s.balances in
      rw (new, get_or_create)
        (omega (
          int_laws,
          parts (h b),
          parts (net_total-insert_new account b s.balances new),
          parts (net_total-insert_old account (f b) b d (lookup-insert_self account b s.balances)),
        ))
  | inr (b, old) ↦
      rw (old, get_or_create)
        (omega (int_laws, parts (h b), parts (net_total-insert_old account (f b) b s.balances old)))
]

net_total-add_credit :
    (account : String) (amount : ℤ) (s : CreditState)
    → net_total (add_credit account amount s).balances ≡ net_total s.balances +ℤ amount
unfolding add_credit
net_total-add_credit account amount s =
    net_total-update account (λ b. record b { credit_seconds = b.credit_seconds +ℤ amount }) amount
      s (λ b. omega int_laws)

net_total-add_debit :
    (account : String) (amount : ℤ) (s : CreditState)
    → net_total (add_debit account amount s).balances ≡ net_total s.balances -ℤ amount
unfolding add_debit
net_total-add_debit account amount s =
    net_total-update account (λ b. record b { debit_seconds = b.debit_seconds +ℤ amount })
      (pos 0 -ℤ amount) s (λ b. omega int_laws)
    ∙ eq_of_parts _ _ (omega int_laws)

net_total-get_or_create :
    (account : String) (s : CreditState)
    → net_total (get_or_create account s).1.balances ≡ net_total s.balances
unfolding get_or_create
net_total-get_or_create account s = elim (Option-cases (lookup account s.balances)) [
  | inl new ↦
      rw (new, get_or_create)
        (omega (
          int_laws,
          parts (
              net_total-insert_new account
                (record { account = account; credit_seconds = pos 0; debit_seconds = pos 0 })
                s.balances new),
        ))
  | inr (b, old) ↦ rw (old, get_or_create)
]

module _ (py : Conversions) where
  -- The amount of a payload, where it has one.
  abbrev pub amount_of : Payload → String → ℤ
  amount_of payload k = elim (float_field py payload k) [ none ↦ pos 0 | some x ↦ x ]

  -- The seconds that a transaction brings into being, negative where it takes them out: a mint
  -- brings its amount, a burn takes its amount, a job without a consumer pays its provider from
  -- nothing, and every other transaction only moves seconds.
  abbrev issued_by : TxType → Payload → ℤ
  issued_by bridge_mint payload = amount_of payload "amount_seconds"
  issued_by bridge_burn payload = pos 0 -ℤ amount_of payload "amount_seconds"
  issued_by job_completed payload =
      if str_field py payload "consumer_account" "" == ""
      then amount_of payload "gpu_seconds"
      else pos 0
  issued_by credit_settled payload = pos 0
  issued_by job_submitted payload = pos 0
  issued_by job_assigned payload = pos 0
  issued_by validator_registered payload = pos 0

  abbrev pub issued : ComputeTransaction → ℤ
  issued tx = issued_by tx.tx_type tx.payload

  apply_job_completed-supply :
      (sender : String) (payload : Payload) (s : CreditState)
      → (apply_job_completed py sender payload s).0 ≡ ok tt
      → net_total (apply_job_completed py sender payload s).1.balances
        ≡ net_total s.balances
          +ℤ (if str_field py payload "consumer_account" "" == ""
              then amount_of payload "gpu_seconds"
              else pos 0)
  unfolding apply_job_completed
  apply_job_completed-supply sender payload s h =
      let provider = str_field py payload "provider_account" sender in
      let amount = amount_of payload "gpu_seconds" in
      grind (
        int_laws,
        net_total-add_credit provider amount s,
        net_total-add_debit (str_field py payload "consumer_account" "") amount
            (add_credit provider amount s),
      )

  apply_credit_settled-supply :
      (sender : String) (payload : Payload) (s : CreditState)
      → (apply_credit_settled py sender payload s).0 ≡ ok tt
      → net_total (apply_credit_settled py sender payload s).1.balances
        ≡ net_total s.balances +ℤ pos 0
  unfolding apply_credit_settled
  apply_credit_settled-supply sender payload s h =
      let from_account = str_field py payload "from_account" sender in
      let amount = amount_of payload "amount_seconds" in
      grind (
        int_laws,
        net_total-add_debit from_account amount s,
        net_total-add_credit (str_field py payload "to_account" "") amount
            (add_debit from_account amount s),
      )

  apply_bridge_burn-supply :
      (payload : Payload) (s : CreditState)
      → (apply_bridge_burn py payload s).0 ≡ ok tt
      → net_total (apply_bridge_burn py payload s).1.balances
        ≡ net_total s.balances +ℤ (pos 0 -ℤ amount_of payload "amount_seconds")
  unfolding apply_bridge_burn
  apply_bridge_burn-supply payload s h =
      let account = str_field py payload "account" "" in
      grind (
        int_laws,
        net_total-get_or_create account s,
        net_total-add_debit account (amount_of payload "amount_seconds")
            (get_or_create account s).1,
      )

  apply_bridge_mint-supply :
      (payload : Payload) (s : CreditState)
      → (apply_bridge_mint py payload s).0 ≡ ok tt
      → net_total (apply_bridge_mint py payload s).1.balances
        ≡ net_total s.balances +ℤ amount_of payload "amount_seconds"
  unfolding apply_bridge_mint
  apply_bridge_mint-supply payload s h = ground (
    arith,
    net_total-add_credit (str_field py payload "account" "") (amount_of payload "amount_seconds") s,
  )

  apply_effect-supply :
      (t : TxType) (sender : String) (payload : Payload) (s : CreditState)
      → (apply_effect py t sender payload s).0 ≡ ok tt
      → net_total (apply_effect py t sender payload s).1.balances
        ≡ net_total s.balances +ℤ issued_by t payload
  unfolding apply_effect
  apply_effect-supply job_completed sender payload s h =
      apply_job_completed-supply sender payload s h
  apply_effect-supply credit_settled sender payload s h =
      apply_credit_settled-supply sender payload s h
  apply_effect-supply bridge_burn sender payload s h = apply_bridge_burn-supply payload s h
  apply_effect-supply bridge_mint sender payload s h = apply_bridge_mint-supply payload s h
  apply_effect-supply _ sender payload s h = omega int_laws

  -- A transaction that is applied changes the sum of all balances by exactly what its type issues:
  -- settlements, and jobs with a consumer, conserve it.
  pub apply_transaction-supply :
      (tx : ComputeTransaction) (s : CreditState)
      → (apply_transaction py tx s).0 ≡ ok tt
      → net_total (apply_transaction py tx s).1.balances ≡ net_total s.balances +ℤ issued tx
  unfolding apply_transaction
  apply_transaction-supply tx s h = elim (Bool-cases (leb_ℤ tx.nonce (last_nonce py s tx.sender))) [
    | inl stale ↦ cc (rw stale at h)
    | inr new ↦ rw new (
        apply_effect-supply tx.tx_type tx.sender tx.payload
          (record s { nonces = insert tx.sender tx.nonce s.nonces }) (rw new at h))
  ]

  abbrev pub total_issued : List ComputeTransaction → ℤ
  total_issued [] = pos 0
  total_issued (tx ∷ txs) = issued tx +ℤ total_issued txs

  replay_from-supply :
      (txs : List ComputeTransaction) (s : CreditState)
      → (replay_from py txs s).0 ≡ ok tt
      → net_total (replay_from py txs s).1.balances ≡ net_total s.balances +ℤ total_issued txs
  unfolding replay_from
  replay_from-supply [] s h = omega int_laws
  replay_from-supply (tx ∷ txs) s h =
      let (first, rest) = >>-ok (apply_transaction py tx) (replay_from py txs) s tt h in
      let s' = (apply_transaction py tx s).1 in
      rw rest (
        omega (
          int_laws,
          parts (apply_transaction-supply tx s first),
          parts (replay_from-supply txs s' (rw rest at h)),
        ))

  -- The sum of all balances after a replay is what its transactions issued together.
  pub replay_transactions-supply :
      (txs : List ComputeTransaction) (s : CreditState)
      → replay_transactions py txs ≡ ok s
      → net_total s.balances ≡ total_issued txs
  replay_transactions-supply txs s h =
      let (done, same) = replay_transactions-ok py txs s h in
      rw (← same) (omega (int_laws, parts (replay_from-supply txs fresh_state done)))
