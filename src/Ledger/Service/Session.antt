-- ===== src/Ledger/Service/Session.antt =====
-- The database session of deepiri_zepgpu/compute_ledger/service.py: statements that write rows, may
-- raise, and commit. `get_db` of database/session.py runs a request in one: it commits at the end
-- and rolls back after a raise.
use deepiri_zepgpu.Base.{if◌then◌else◌, Outcome, ok, raise, ℕ, ◌+◌, Bool, Option, none, some}
use deepiri_zepgpu.Ledger.Store.{Store, StoreError}
use deepiri_zepgpu.Ledger.Poa.{LedgerValidationError}
use deepiri_zepgpu.Ledger.Replay.Monad.{ReplayError}
use deepiri_zepgpu.Ledger.Merkle.{MerkleError}

-- What the service raises; the first four come from the parts that it calls.
pub data ServiceError : Type 0 where
  refused : LedgerValidationError → ServiceError
  replay_failed : ReplayError → ServiceError
  store_failed : StoreError → ServiceError
  proof_failed : MerkleError → ServiceError
  nonce_not_greater awaits_quorum no_finalized_tip block_not_found : ServiceError
  already_finalized transaction_not_in_block key_required : ServiceError
  sender_mismatch not_job_completed : ServiceError

-- The rows as the session sees them and as they were last committed, and how many ids and times
-- were drawn.
pub record Session : Type 0 where
  pub store : Store
  pub committed : Store
  pub draws : ℕ

abbrev pub Action : Type 0 → Type 0
Action A = Session → Outcome ServiceError A × Session

module _ {A : Type 0} where
  abbrev pub pure : A → Action A
  pure a s = (ok a, s)

  -- A result of a part that raises its own errors.
  abbrev pub lift : {E : Type 0} → (E → ServiceError) → Outcome E A → Action A
  lift wrap (ok a) s = (ok a, s)
  lift wrap (raise e) s = (raise (wrap e), s)

  -- `if not x: raise e`, where `x` is a row or None.
  abbrev pub or_raise : Option A → ServiceError → Action A
  or_raise none e s = (raise e, s)
  or_raise (some a) e s = (ok a, s)

  -- A query.
  abbrev pub query : (Store → A) → Action A
  query f s = (ok (f s.store), s)

abbrev pub throw_if : Bool → ServiceError → Action (Unit {0})
throw_if b e s = (if b then raise e else ok tt, s)

-- A write that cannot fail.
abbrev pub write : (Store → Store) → Action (Unit {0})
write f s = (ok tt, record s { store = f s.store })

-- A write that a constraint may refuse; then nothing is written.
abbrev pub written : Outcome StoreError Store → Action (Unit {0})
written (ok store) s = (ok tt, record s { store = store })
written (raise e) s = (raise (store_failed e), s)

abbrev pub try_write : (Store → Outcome StoreError Store) → Action (Unit {0})
try_write f s = written (f s.store) s

-- `await self.db.commit()`
abbrev pub commit : Action (Unit {0})
commit s = (ok tt, record s { committed = s.store })

-- A fresh number, for `uuid4()` and `datetime.now(UTC)`.
abbrev pub draw : Action ℕ
draw s = (ok s.draws, record s { draws = s.draws + 1 })

module _ {A B : Type 0} where
  infixl 5 ◌>>=◌ ◌>>◌
  abbrev pub ◌>>=◌ : Action A → (A → Action B) → Action B
  ◌>>=◌ m f s = let (r, s') = m s in elim r [ ok a ↦ f a s' | raise e ↦ (raise e, s') ]

  abbrev pub ◌>>◌ : Action A → Action B → Action B
  m >> k = m >>= λ _. k

-- `get_db`: the request, then a commit or a rollback.
unfoldable pub run_request : {A : Type 0} → Action A → Session → Outcome ServiceError A × Session
run_request m s =
    let (r, s') = m s in
    elim r [
      | ok a ↦ (ok a, record s' { committed = s'.store })
      | raise e ↦ (raise e, record s' { store = s'.committed })
    ]
