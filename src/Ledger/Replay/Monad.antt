-- ===== src/Ledger/Replay/Monad.antt =====
-- deepiri_zepgpu/compute_ledger/replay.py: the credit state, and statements that mutate it and may
-- raise. What was written before a raise stays written.
use deepiri_zepgpu.Base.{
  if◌then◌else◌, string_eq, nat_eq, Outcome, ok, raise, String, ◌≡◌, refl, Bool, Option, none, some,
  [],
}
use deepiri_zepgpu.Base.Int.{ℤ}
use deepiri_zepgpu.Base.Dict.{Dict}

pub data ReplayError : Type 0 where
  stale_nonce bad_number negative_amount non_positive_amount : ReplayError
  missing_account missing_receipt insufficient_balance : ReplayError

pub record CreditBalance : Type 0 where
  pub account : String
  pub credit_seconds : ℤ
  pub debit_seconds : ℤ

pub record CreditState : Type 0 where
  pub balances : Dict String CreditBalance
  pub nonces : Dict String ℤ

-- `CreditState()`
abbrev pub fresh_state : CreditState
fresh_state = record { balances = []; nonces = [] }

abbrev pub Action : Type 0 → Type 0
Action A = CreditState → Outcome ReplayError A × CreditState

module _ {A : Type 0} where
  abbrev pub pure : A → Action A
  pure a s = (ok a, s)

  abbrev pub throw : ReplayError → Action A
  throw e s = (raise e, s)

  abbrev pub or_throw : Option A → ReplayError → Action A
  or_throw none e = throw e
  or_throw (some a) e = pure a

abbrev pub modify : (CreditState → CreditState) → Action (Unit {0})
modify f s = (ok tt, f s)

abbrev pub throw_if : Bool → ReplayError → Action (Unit {0})
throw_if b e s = (if b then raise e else ok tt, s)

module _ {A B : Type 0} where
  infixl 5 ◌>>=◌ ◌>>◌
  abbrev pub ◌>>=◌ : Action A → (A → Action B) → Action B
  ◌>>=◌ m f s = let (r, s') = m s in elim r [ ok a ↦ f a s' | raise e ↦ (raise e, s') ]

  abbrev pub ◌>>◌ : Action A → Action B → Action B
  m >> k = m >>= λ _. k

-- A sequence that ends well ran its first part well, and its second part from there.
pub >>-ok :
    {B : Type 0} (m : Action (Unit {0})) (k : Action B) (s : CreditState) (b : B)
    → ((m >> k) s).0 ≡ ok b
    → ((m s).0 ≡ ok tt) × ((m >> k) s ≡ k (m s).1)
>>-ok m k s b h = by_outcome (m s).0 (m s).1 h
  where
    by_outcome :
        (r : Outcome ReplayError (Unit {0})) (s' : CreditState)
        → (((λ _. (r, s')) >> k) s).0 ≡ ok b
        → (r ≡ ok tt) × (((λ _. (r, s')) >> k) s ≡ k s')
    by_outcome (ok u) s' e = (refl, refl)
    by_outcome (raise x) s' e = cc

-- After a first part that ends well, a sequence goes on from the state that it left.
pub after-ok :
    (m k : Action (Unit {0})) (s : CreditState) → (m s).0 ≡ ok tt → (m >> k) s ≡ k (m s).1
after-ok m k s h = by_outcome (m s).0 (m s).1 h
  where
    by_outcome :
        (r : Outcome ReplayError (Unit {0})) (s' : CreditState)
        → r ≡ ok tt
        → ((λ _. (r, s')) >> k) s ≡ k s'
    by_outcome (ok u) s' e = refl
    by_outcome (raise x) s' e = absurd cc
