-- ===== src/Ledger/Service/Books/Persisted.antt =====
-- deepiri_zepgpu/compute_ledger/service.py: `_persist_block` on a proposal of the pending
-- transactions keeps the books.
use deepiri_zepgpu.Ledger.Replay.Listing.{to_list}
use deepiri_zepgpu.Ledger.Replay.{replay_transactions}
use deepiri_zepgpu.Ledger.Service.Handlers.{state_if}
use deepiri_zepgpu.Ledger.Replay.Monad.{CreditBalance, CreditState}
use deepiri_zepgpu.Ledger.Block.{ComputeBlock}
use deepiri_zepgpu.Ledger.Poa.{int_eq}
use deepiri_zepgpu.Base.{
  if◌then◌else◌, string_eq, nat_eq, ◌==◌, beq_self, All, any, elem, >>=-eq-ok, guard-ok,
  ok-injective, ok, String, ◌≡◌, refl, sym, ap, subst, ◌∙◌, ◌≢◌, Bool, true, false, ◌||◌, Option,
  none, some, List, [], ◌∷◌, ◌++◌, map, arith,
}
use deepiri_zepgpu.Base.Sorting.{filter-append, filter}
use deepiri_zepgpu.Ledger.Store.{
  replace_balances, stored, join_rows, Store, BlockRow, TxRow, create_block,
  list_sealed_transactions,
}
use deepiri_zepgpu.Ledger.Store.Sealing.{
  pending_ids-canonical, is_pending, number, ids, IsKeyed, seal_rows-number,
}
use deepiri_zepgpu.Ledger.Store.Sealed.{
  join_rows-number_other, ++-nil, join_rows-new_block, tx_of, Misses,
}
use deepiri_zepgpu.Ledger.Store.Chain.{
  All-append, AllFinal-OneOpen, is_final, SortedBy-append, filter-AllFinal, AllFinal, Below,
}
use deepiri_zepgpu.Ledger.Service.Setup.{Setup}
use deepiri_zepgpu.Ledger.Service.Persist.{with_balances, persist_block, persist_transactions}
use deepiri_zepgpu.Ledger.Service.Books.{PrintsIds, list_sealed_transactions-final, IsBooked}
use deepiri_zepgpu.Ledger.Service.Books.Rows.{
  number-Placed, DistinctIds-append, number-IsKeyed, map-ids, pending_ids-there, Placed-away,
  any-ids, any-Misses,
}

module _ (setup : Setup) where
  abbrev uuid : String → Option String
  uuid = setup.columns.uuid_text

  -- Transactions that have rows are not added again.
  persist_transactions-found :
      (rows : List TxRow) (s : Store)
      → All (λ i. uuid i ≡ some i) (ids rows)
      → ((i : String) → elem i (ids rows) ≡ true → elem i (ids s.transactions) ≡ true)
      → persist_transactions setup (tx_of rows) s ≡ ok s
  unfolding persist_transactions
  persist_transactions-found [] s canonical there = refl
  persist_transactions-found (r ∷ rows) s canonical there =
      let here : any (λ q. q.tx.id == r.tx.id) s.transactions ≡ true =
        any-ids r.tx.id s.transactions ∙ there r.tx.id (rw (beq_self r.tx.id) refl) in
      rw (canonical.0, here)
        (persist_transactions-found rows s canonical.1 (λ i h. there i (ground arith)))

  -- The rows after a block with a new id took the pending ones.
  abbrev pub with_block : BlockRow → Store → Store
  with_block b s = record s {
    blocks = s.blocks ++ b ∷ [];
    transactions = number b.id 0 s.transactions;
  }

  pub create_block-pending :
      (b : BlockRow) (s s' : Store)
      → IsKeyed setup.columns s.transactions
      → create_block setup.columns b (ids (filter is_pending s.transactions)) s ≡ ok s'
      → Misses b.id s.blocks × (s' ≡ with_block b s)
  unfolding create_block
  create_block-pending b s s' keyed h =
      let (free, h1) =
        guard-ok
          (any (λ c. (c.id == b.id) || ((c.hash == b.hash) || int_eq c.height b.height)) s.blocks) _
          _ h in
      let rows = seal_rows-number setup.columns b.id 0 s.transactions keyed in
      (any-Misses b s.blocks free, sym (ok-injective (rw rows at h1)))

  -- What the finalized blocks become, by whether the new one is finalized.
  sealed-with_block :
      (b : BlockRow) (s : Store)
      → IsBooked setup.columns setup.py s
      → AllFinal s.blocks
      → Below b.height s.blocks
      → list_sealed_transactions true (with_block b s)
        ≡ join_rows
            (s.blocks ++ (if b.finalized then b ∷ [] else []))
            (number b.id 0 s.transactions)
  sealed-with_block b s booked final below =
      let after =
        list_sealed_transactions-final (with_block b s)
          (SortedBy-append s.blocks b booked.ascending below) in
      after
      ∙ ap (λ bs. join_rows bs (number b.id 0 s.transactions))
          (filter-append is_final s.blocks (b ∷ [])
            ∙ ap (λ bs. bs ++ (if b.finalized then b ∷ [] else []))
                (filter-AllFinal s.blocks final))

  sealed-before :
      (s : Store)
      → IsBooked setup.columns setup.py s
      → AllFinal s.blocks
      → list_sealed_transactions true s ≡ join_rows s.blocks s.transactions
  sealed-before s booked final =
      list_sealed_transactions-final s booked.ascending
      ∙ ap (λ bs. join_rows bs s.transactions) (filter-AllFinal s.blocks final)

  sealed-closed :
      (b : BlockRow) (s : Store)
      → IsBooked setup.columns setup.py s
      → AllFinal s.blocks
      → Misses b.id s.blocks
      → Below b.height s.blocks
      → b.finalized ≡ true
      → tx_of (list_sealed_transactions true (with_block b s))
        ≡ tx_of (list_sealed_transactions true s) ++ tx_of (filter is_pending s.transactions)
  sealed-closed b s booked final misses below closed =
      let rows = number b.id 0 s.transactions in
      let away = Placed-away b.id s.blocks s.transactions misses booked.placed in
      ap tx_of (
        sealed-with_block b s booked final below
        ∙ ap (λ t. join_rows (s.blocks ++ (if t then b ∷ [] else [])) rows) closed)
      ∙ (join_rows-new_block s.blocks b s.transactions misses away
          ∙ ap (λ out. tx_of out ++ tx_of (filter is_pending s.transactions))
              (sym (sealed-before s booked final)))

  sealed-waits :
      (b : BlockRow) (s : Store)
      → IsBooked setup.columns setup.py s
      → AllFinal s.blocks
      → Misses b.id s.blocks
      → Below b.height s.blocks
      → b.finalized ≡ false
      → list_sealed_transactions true (with_block b s) ≡ list_sealed_transactions true s
  sealed-waits b s booked final misses below waits =
      let rows = number b.id 0 s.transactions in
      sealed-with_block b s booked final below
      ∙ (ap (λ t. join_rows (s.blocks ++ (if t then b ∷ [] else [])) rows) waits
          ∙ (ap (λ bs. join_rows bs rows) (++-nil s.blocks)
              ∙ (join_rows-number_other b.id s.blocks s.transactions misses
                  ∙ sym (sealed-before s booked final))))

  -- What a proposal has to be: the pending transactions, on a chain of finalized blocks, above all.
  pub record IsProposal (block : ComputeBlock) (s : Store) : Type 0 where
    pub booked : IsBooked setup.columns setup.py s
    pub final : AllFinal s.blocks
    pub below : Below block.height s.blocks
    pub transactions : block.transactions ≡ tx_of (filter is_pending s.transactions)

  stored-ok : (o : Option String) (x : String) → stored o ≡ ok x → o ≡ some x
  stored-ok none x h = absurd cc
  stored-ok (some y) x h = ap (λ z. some z) (ok-injective h)

  pending-found :
      (block : ComputeBlock) (s : Store)
      → IsProposal block s
      → persist_transactions setup block.transactions s ≡ ok s
  pending-found block s proposal =
      ap (λ txs. persist_transactions setup txs s) proposal.transactions
      ∙ persist_transactions-found (filter is_pending s.transactions) s
          (pending_ids-canonical setup.columns s.transactions proposal.booked.keyed)
          (λ i. pending_ids-there i s.transactions)

  -- The steps of `_persist_block` that succeeded.
  persist_block-steps :
      (prints : PrintsIds setup.columns) (block : ComputeBlock) (state : CreditState) (s s' : Store)
      → IsProposal block s
      → persist_block setup block (state_if block.finalized state) s ≡ ok s'
      → (b : BlockRow) × (uuid b.id ≡ some b.id)
        × (b.height ≡ block.height)
        × (b.finalized ≡ block.finalized)
        × Misses b.id s.blocks
        × (s' ≡ with_balances block.finalized (state_if block.finalized state) (with_block b s))
  unfolding persist_block
  persist_block-steps prints block state s s' proposal h =
      let (s1, e1, h1) = >>=-eq-ok (persist_transactions setup block.transactions s) _ h in
      let (id, e2, h2) = >>=-eq-ok (stored (uuid block.id)) _ h1 in
      let (time, e3, h3) = >>=-eq-ok (stored (setup.columns.time_text block.timestamp)) _ h2 in
      let row : BlockRow = record {
        id = id;
        height = block.height;
        hash = block.hash;
        previous_hash = block.previous_hash;
        timestamp = time;
        transactions_root = block.transactions_root;
        state_root = block.state_root;
        validator_public_key = block.validator;
        validator_signature = block.validator_signature;
        approvals = block.approvals;
        finalized = block.finalized;
      } in
      let (s2, e4, h4) =
        >>=-eq-ok (create_block setup.columns row (map (λ tx. tx.id) block.transactions) s1) _ h3 in
      let same : s1 ≡ s = ok-injective (sym e1 ∙ pending-found block s proposal) in
      let tx_ids : map (λ tx. tx.id) block.transactions ≡ ids (filter is_pending s.transactions) =
        ap (λ txs. map (λ tx. tx.id) txs) proposal.transactions
        ∙ map-ids (filter is_pending s.transactions) in
      let stores : create_block setup.columns row (ids (filter is_pending s.transactions)) s
          ≡ ok s2 =
        ap (λ is. create_block setup.columns row is s) (sym tx_ids)
        ∙ (ap (create_block setup.columns row (map (λ tx. tx.id) block.transactions)) (sym same)
            ∙ e4) in
      let (misses, made) = create_block-pending row s s2 proposal.booked.keyed stores in
      (
        row,
        prints block.id id (stored-ok (uuid block.id) id e2),
        refl,
        refl,
        misses,
        sym (ok-injective h4)
            ∙ ap (with_balances block.finalized (state_if block.finalized state)) made,
      )

  -- The rows with the new block, under the balances of a replay of what is finalized then.
  with_block-IsBooked :
      (b : BlockRow) (s : Store) (balances : List CreditBalance) (state : CreditState)
      → IsBooked setup.columns setup.py s
      → AllFinal s.blocks
      → Below b.height s.blocks
      → uuid b.id ≡ some b.id
      → Misses b.id s.blocks
      → replay_transactions setup.py (tx_of (list_sealed_transactions true (with_block b s)))
        ≡ ok state
      → balances ≡ to_list state
      → IsBooked setup.columns setup.py (record (with_block b s) { balances = balances })
  unfolding list_sealed_transactions
  with_block-IsBooked b s balances state booked final below canonical misses replays balanced =
      record {
        keyed = number-IsKeyed setup.columns b.id 0 s.transactions booked.keyed;
        ascending = SortedBy-append s.blocks b booked.ascending below;
        one_open = AllFinal-OneOpen s.blocks b final;
        distinct = DistinctIds-append s.blocks b booked.distinct misses;
        canonical = All-append (λ c. uuid c.id ≡ some c.id) s.blocks b booked.canonical canonical;
        placed = number-Placed s.blocks b 0 s.transactions booked.placed;
        replayed = state;
        replays = replays;
        balanced = balanced;
      }

  nonempty : (blocks : List BlockRow) (b : BlockRow) → blocks ++ b ∷ [] ≢ []
  nonempty [] b h = absurd cc
  nonempty (x ∷ blocks) b h = absurd cc

  -- The balances that follow the new block, by whether it is finalized.
  pub with_balances-IsBooked :
      (b : BlockRow) (finalized : Bool) (state : CreditState) (s : Store)
      → IsBooked setup.columns setup.py s
      → AllFinal s.blocks
      → Below b.height s.blocks
      → uuid b.id ≡ some b.id
      → Misses b.id s.blocks
      → b.finalized ≡ finalized
      → replay_transactions setup.py
          (tx_of (list_sealed_transactions true s) ++ tx_of (filter is_pending s.transactions))
        ≡ ok state
      → let s' = with_balances finalized (state_if finalized state) (with_block b s) in
        IsBooked setup.columns setup.py s' × (s'.blocks ≢ [])
  unfolding replace_balances
  with_balances-IsBooked b true state s booked final below canonical misses closed replays =
      let sealed = sealed-closed b s booked final misses below closed in
      (
        with_block-IsBooked b s (to_list state) state booked final below canonical misses
            (ap (replay_transactions setup.py) sealed ∙ replays) refl,
        nonempty s.blocks b,
      )
  with_balances-IsBooked b false state s booked final below canonical misses waits replays =
      let sealed = sealed-waits b s booked final misses below waits in
      (
        with_block-IsBooked b s s.balances booked.replayed booked final below canonical misses
            (ap (λ rows. replay_transactions setup.py (tx_of rows)) sealed ∙ booked.replays)
            booked.balanced,
        nonempty s.blocks b,
      )

  -- Its stored block, of the pending transactions, keeps the books.
  pub persist_block-IsBooked :
      (prints : PrintsIds setup.columns) (block : ComputeBlock) (state : CreditState) (s s' : Store)
      → IsProposal block s
      → replay_transactions setup.py
          (tx_of (list_sealed_transactions true s) ++ tx_of (filter is_pending s.transactions))
        ≡ ok state
      → persist_block setup block (state_if block.finalized state) s ≡ ok s'
      → IsBooked setup.columns setup.py s' × (s'.blocks ≢ [])
  persist_block-IsBooked prints block state s s' proposal replays h =
      let (b, canonical, height, closed, misses, made) =
        persist_block-steps prints block state s s' proposal h in
      let below : Below b.height s.blocks =
        subst (λ x. Below x s.blocks) (sym height) proposal.below in
      subst (λ t. IsBooked setup.columns setup.py t × (t.blocks ≢ [])) (sym made)
        (with_balances-IsBooked b block.finalized state s proposal.booked proposal.final below
          canonical misses closed replays)
