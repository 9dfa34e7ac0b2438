-- ===== src/Ledger/Replay/Bounded.antt =====
-- deepiri_zepgpu/compute_ledger/replay.py: balances whose counters lie under a bound, and what the
-- operations on one account do to it.
use deepiri_zepgpu.Ledger.Replay.{get_or_create, add_debit, add_credit}
use deepiri_zepgpu.Ledger.Replay.Monad.{CreditState, CreditBalance}
use deepiri_zepgpu.Base.{
  string_eq, nat_eq, ◌==◌, Bool-cases, Option-cases, String, ◌≡◌, inl, inr, some, [], ◌∷◌, arith,
}
use deepiri_zepgpu.Base.Int.{◌+ℤ◌, ℤ, pos, ◌≤ℤ◌, int_laws}
use deepiri_zepgpu.Base.Dict.{Dict, lookup, insert}

-- Every credit is at most `c` and every debit at most `d`, and none is negative.
abbrev pub Bounded : ℤ → ℤ → Dict String CreditBalance → Type 0
Bounded c d [] = Unit
Bounded c d ((k, b) ∷ rest) =
    (pos 0 ≤ℤ b.credit_seconds)
    × (b.credit_seconds ≤ℤ c)
    × (pos 0 ≤ℤ b.debit_seconds)
    × (b.debit_seconds ≤ℤ d)
    × Bounded c d rest

abbrev pub IsBelow : ℤ → ℤ → CreditBalance → Type 0
IsBelow c d b =
    (pos 0 ≤ℤ b.credit_seconds)
    × (b.credit_seconds ≤ℤ c)
    × (pos 0 ≤ℤ b.debit_seconds)
    × (b.debit_seconds ≤ℤ d)

pub Bounded-weaken :
    (c d c' d' : ℤ) (balances : Dict String CreditBalance)
    → c ≤ℤ c'
    → d ≤ℤ d'
    → Bounded c d balances
    → Bounded c' d' balances
Bounded-weaken c d c' d' [] p q h = tt
Bounded-weaken c d c' d' ((k, b) ∷ rest) p q (h0, h1, h2, h3, h) =
    (h0, omega (int_laws, p, h1), h2, omega (int_laws, q, h3), Bounded-weaken c d c' d' rest p q h)

insert-Bounded :
    (c d : ℤ) (k : String) (b : CreditBalance) (balances : Dict String CreditBalance)
    → Bounded c d balances
    → IsBelow c d b
    → Bounded c d (insert k b balances)
insert-Bounded c d k b [] h (b0, b1, b2, b3) = (b0, b1, b2, b3, tt)
insert-Bounded c d k b ((j, a) ∷ rest) (h0, h1, h2, h3, h) (b0, b1, b2, b3) =
    elim (Bool-cases (j == k)) [
      | inl same ↦ rw same (b0, b1, b2, b3, h)
      | inr other ↦ rw other (h0, h1, h2, h3, insert-Bounded c d k b rest h (b0, b1, b2, b3))
    ]

lookup-Bounded :
    (c d : ℤ) (k : String) (b : CreditBalance) (balances : Dict String CreditBalance)
    → Bounded c d balances
    → lookup k balances ≡ some b
    → IsBelow c d b
lookup-Bounded c d k b [] h e = cc
lookup-Bounded c d k b ((j, a) ∷ rest) (h0, h1, h2, h3, h) e = elim (Bool-cases (j == k)) [
  | inl same ↦ let r : a ≡ b = cc (rw same at e) in rw (← r) (h0, h1, h2, h3)
  | inr other ↦ lookup-Bounded c d k b rest h (rw other at e)
]

pub get_or_create-Bounded :
    (c d : ℤ) (k : String) (s : CreditState)
    → pos 0 ≤ℤ c
    → pos 0 ≤ℤ d
    → Bounded c d s.balances
    → Bounded c d (get_or_create k s).1.balances × IsBelow c d (get_or_create k s).0
unfolding get_or_create
get_or_create-Bounded c d k s p q h = elim (Option-cases (lookup k s.balances)) [
  | inl new ↦
      let fresh : CreditBalance = record {
        account = k;
        credit_seconds = pos 0;
        debit_seconds = pos 0;
      } in
      let low : IsBelow c d fresh = (omega arith, p, omega arith, q) in
      rw (new, get_or_create) (insert-Bounded c d k fresh s.balances h low, low)
  | inr (b, old) ↦ rw (old, get_or_create) (h, lookup-Bounded c d k b s.balances h old)
]

pub add_credit-Bounded :
    (c d : ℤ) (k : String) (x : ℤ) (s : CreditState)
    → pos 0 ≤ℤ c
    → pos 0 ≤ℤ d
    → pos 0 ≤ℤ x
    → Bounded c d s.balances
    → Bounded (c +ℤ x) d (add_credit k x s).balances
unfolding add_credit
add_credit-Bounded c d k x s p q r h =
    let (kept, (b0, b1, b2, b3)) = get_or_create-Bounded c d k s p q h in
    insert-Bounded (c +ℤ x) d k _ _
      (Bounded-weaken c d (c +ℤ x) d _ (omega (int_laws, r)) (omega int_laws) kept)
      (omega (int_laws, b0, r), omega (int_laws, b1), b2, b3)

pub add_debit-Bounded :
    (c d : ℤ) (k : String) (x : ℤ) (s : CreditState)
    → pos 0 ≤ℤ c
    → pos 0 ≤ℤ d
    → pos 0 ≤ℤ x
    → Bounded c d s.balances
    → Bounded c (d +ℤ x) (add_debit k x s).balances
unfolding add_debit
add_debit-Bounded c d k x s p q r h =
    let (kept, (b0, b1, b2, b3)) = get_or_create-Bounded c d k s p q h in
    insert-Bounded c (d +ℤ x) k _ _
      (Bounded-weaken c d c (d +ℤ x) _ (omega int_laws) (omega (int_laws, r)) kept)
      (b0, b1, omega (int_laws, b2, r), omega (int_laws, b3))
