-- ===== src/Ledger/Service/Books/Triples.antt =====
-- The session of deepiri_zepgpu/compute_ledger/service.py: what holds after a statement that may
-- raise. A raise rolls the session back, so then only the committed rows matter.
use deepiri_zepgpu.Base.{Outcome, ok, raise, ◌≡◌, refl, Bool, true, false, Option, none, some}
use deepiri_zepgpu.Ledger.Store.{Store, StoreError}
use deepiri_zepgpu.Ledger.Service.Session.{
  written, Action, Session, ServiceError, lift, or_raise, throw_if, try_write, ◌>>=◌, ◌>>◌,
}

module _ (Kept : Store → Type 0) where
  -- What a statement leaves: `Q` of its result, or committed rows that are kept.
  abbrev pub Ends :
      {A : Type 0} → (A → Session → Type 0) → Outcome ServiceError A → Session → Type 0
  Ends Q (ok a) s = Q a s
  Ends Q (raise e) s = Kept s.committed

  module _ {A B : Type 0} (R : B → Session → Type 0) (s : Session) where
    -- The statement `m`, then `f` from what it left.
    pub Ends-bind :
        (Q : A → Session → Type 0) (m : Action A) (f : A → Action B)
        → Ends Q (m s).0 (m s).1
        → ((a : A) (s' : Session) → Q a s' → Ends R (f a s').0 (f a s').1)
        → Ends R ((m >>= f) s).0 ((m >>= f) s).1
    Ends-bind Q m f first next = by_outcome (m s).0 (m s).1 first
      where
        by_outcome :
            (r : Outcome ServiceError A) (s' : Session)
            → Ends Q r s'
            → Ends R (((λ _. (r, s')) >>= f) s).0 (((λ _. (r, s')) >>= f) s).1
        by_outcome (ok a) s' q = next a s' q
        by_outcome (raise e) s' kept = kept

    pub Ends-lift :
        {E : Type 0} (wrap : E → ServiceError) (r : Outcome E A) (f : A → Action B)
        → Kept s.committed
        → ((a : A) → r ≡ ok a → Ends R (f a s).0 (f a s).1)
        → Ends R ((lift wrap r >>= f) s).0 ((lift wrap r >>= f) s).1
    Ends-lift wrap (ok a) f kept next = next a refl
    Ends-lift wrap (raise e) f kept next = kept

    pub Ends-or_raise :
        (o : Option A) (e : ServiceError) (f : A → Action B)
        → Kept s.committed
        → ((a : A) → o ≡ some a → Ends R (f a s).0 (f a s).1)
        → Ends R ((or_raise o e >>= f) s).0 ((or_raise o e >>= f) s).1
    Ends-or_raise none e f kept next = kept
    Ends-or_raise (some a) e f kept next = next a refl

  module _ {B : Type 0} (R : B → Session → Type 0) (s : Session) (k : Action B) where
    pub Ends-throw_if :
        (t : Bool) (e : ServiceError)
        → Kept s.committed
        → (t ≡ false → Ends R (k s).0 (k s).1)
        → Ends R ((throw_if t e >> k) s).0 ((throw_if t e >> k) s).1
    Ends-throw_if true e kept next = kept
    Ends-throw_if false e kept next = next refl

    pub Ends-try_write :
        (f : Store → Outcome StoreError Store)
        → Kept s.committed
        → ((store : Store)
            → f s.store ≡ ok store
            → Ends R (k (record s { store = store })).0 (k (record s { store = store })).1)
        → Ends R ((try_write f >> k) s).0 ((try_write f >> k) s).1
    Ends-try_write f kept next = by_outcome (f s.store) refl
      where
        by_outcome :
            (r : Outcome StoreError Store)
            → f s.store ≡ r
            → Ends R ((written r >> k) s).0 ((written r >> k) s).1
        by_outcome (ok store) same = next store same
        by_outcome (raise e) same = kept
