-- ===== src/Ledger/Service/Books/Added.antt =====
-- deepiri_zepgpu/compute_ledger/service.py: a new pending transaction, a validator or the balances
-- of a replay keep the books; so does the first block.
use deepiri_zepgpu.Base.{
  string_eq, nat_eq, ◌==◌, any, >>=-eq-ok, guard-ok, ok-injective, ok, String, ◌≡◌, refl, sym, ap,
  subst, ◌∙◌, true, false, Option, none, some, List, [], ◌∷◌, ◌++◌, arith,
}
use deepiri_zepgpu.Base.Sorting.{filter}
use deepiri_zepgpu.Ledger.Transaction.{ComputeTransaction, tx_hash}
use deepiri_zepgpu.Ledger.Replay.{replay_transactions}
use deepiri_zepgpu.Ledger.Replay.Listing.{to_list}
use deepiri_zepgpu.Ledger.Replay.Monad.{CreditState}
use deepiri_zepgpu.Ledger.Store.{
  Store, TxRow, ValidatorRow, add_pending_transaction, stored, clashes, list_sealed_transactions,
  replace_balances,
}
use deepiri_zepgpu.Ledger.Store.Sealed.{tx_of, join_rows-pending}
use deepiri_zepgpu.Ledger.Store.Chain.{All-append, is_final}
use deepiri_zepgpu.Ledger.Service.Setup.{Setup}
use deepiri_zepgpu.Ledger.Service.Books.{IsBooked, PrintsIds, list_sealed_transactions-final}
use deepiri_zepgpu.Ledger.Service.Books.Rows.{IsKeyed-append}

pub stored-ok : (o : Option String) (x : String) → stored o ≡ ok x → o ≡ some x
stored-ok none x h = absurd cc
stored-ok (some y) x h = ap (λ z. some z) (ok-injective h)

module _ (setup : Setup) where
  -- The row that `add_pending_transaction` makes.
  abbrev pub pending_row : ComputeTransaction → String → String → TxRow
  pending_row tx id timestamp = record {
    tx = record tx { id = id; timestamp = timestamp };
    hash = tx_hash setup.hashing tx;
    block_id = none;
    position = none;
  }

  abbrev pub with_row : TxRow → Store → Store
  with_row row s = record s { transactions = s.transactions ++ row ∷ [] }

  no_clash-new_id :
      (row : TxRow) (rows : List TxRow)
      → any (clashes row) rows ≡ false
      → any (λ r. r.tx.id == row.tx.id) rows ≡ false
  unfolding clashes
  no_clash-new_id row [] h = refl
  no_clash-new_id row (r ∷ rows) h =
      let rest = no_clash-new_id row rows (ground arith) in ground arith

  pub add_pending_transaction-steps :
      (tx : ComputeTransaction) (s s' : Store)
      → add_pending_transaction setup.columns setup.hashing tx s ≡ ok s'
      → (id : String) × (timestamp : String) × (setup.columns.uuid_text tx.id ≡ some id)
        × (any (λ r. r.tx.id == id) s.transactions ≡ false)
        × (s' ≡ with_row (pending_row tx id timestamp) s)
  unfolding add_pending_transaction
  add_pending_transaction-steps tx s s' h =
      let (id, e1, h1) = >>=-eq-ok (stored (setup.columns.uuid_text tx.id)) _ h in
      let (time, e2, h2) = >>=-eq-ok (stored (setup.columns.time_text tx.timestamp)) _ h1 in
      let (free, h3) = guard-ok (any (clashes (pending_row tx id time)) s.transactions) _ _ h2 in
      (
        id,
        time,
        stored-ok _ id e1,
        no_clash-new_id (pending_row tx id time) s.transactions free,
        sym (ok-injective h3),
      )

  with_row-IsBooked :
      (row : TxRow) (s : Store)
      → IsBooked setup.columns setup.py s
      → setup.columns.uuid_text row.tx.id ≡ some row.tx.id
      → any (λ r. r.tx.id == row.tx.id) s.transactions ≡ false
      → row.block_id ≡ none
      → IsBooked setup.columns setup.py (with_row row s)
  with_row-IsBooked row s booked canonical new pending =
      let sealed : list_sealed_transactions true (with_row row s)
          ≡ list_sealed_transactions true s =
        list_sealed_transactions-final (with_row row s) booked.ascending
        ∙ (join_rows-pending (filter is_final s.blocks) s.transactions row pending
            ∙ sym (list_sealed_transactions-final s booked.ascending)) in
      record {
        keyed = IsKeyed-append setup.columns s.transactions row booked.keyed canonical new;
        ascending = booked.ascending;
        one_open = booked.one_open;
        distinct = booked.distinct;
        canonical = booked.canonical;
        placed =
            All-append
              (λ r. (i : String) → r.block_id ≡ some i → any (λ b. b.id == i) s.blocks ≡ true)
              s.transactions row booked.placed (λ i h. absurd cc);
        replayed = booked.replayed;
        replays = ap (λ rows. replay_transactions setup.py (tx_of rows)) sealed ∙ booked.replays;
        balanced = booked.balanced;
      }

  pub add_pending_transaction-IsBooked :
      (tx : ComputeTransaction) (s s' : Store)
      → PrintsIds setup.columns
      → IsBooked setup.columns setup.py s
      → add_pending_transaction setup.columns setup.hashing tx s ≡ ok s'
      → IsBooked setup.columns setup.py s' × (s'.blocks ≡ s.blocks)
  add_pending_transaction-IsBooked tx s s' prints booked h =
      let (id, time, canonical, new, made) = add_pending_transaction-steps tx s s' h in
      let row = pending_row tx id time in
      (
        subst (IsBooked setup.columns setup.py) (sym made)
            (with_row-IsBooked row s booked (prints tx.id id canonical) new refl),
        ap (λ t. t.blocks) made,
      )

  pub validators-IsBooked :
      (validators : List ValidatorRow) (s : Store)
      → IsBooked setup.columns setup.py s
      → IsBooked setup.columns setup.py (record s { validators = validators })
  unfolding list_sealed_transactions
  validators-IsBooked validators s booked = record {
    keyed = booked.keyed;
    ascending = booked.ascending;
    one_open = booked.one_open;
    distinct = booked.distinct;
    canonical = booked.canonical;
    placed = booked.placed;
    replayed = booked.replayed;
    replays = booked.replays;
    balanced = booked.balanced;
  }

  pub replace_balances-IsBooked :
      (state : CreditState) (s : Store)
      → IsBooked setup.columns setup.py s
      → replay_transactions setup.py (tx_of (list_sealed_transactions true s)) ≡ ok state
      → IsBooked setup.columns setup.py (replace_balances (to_list state) s)
  unfolding replace_balances list_sealed_transactions
  replace_balances-IsBooked state s booked replays = record {
    keyed = booked.keyed;
    ascending = booked.ascending;
    one_open = booked.one_open;
    distinct = booked.distinct;
    canonical = booked.canonical;
    placed = booked.placed;
    replayed = state;
    replays = replays;
    balanced = refl;
  }
