-- ===== src/Ledger/Service/Books/Waiting.antt =====
-- deepiri_zepgpu/compute_ledger/service.py: approvals stored on the block that waits keep the books.
use deepiri_zepgpu.Base.{
  if◌then◌else◌, string_eq, nat_eq, beq_self, All, ok, String, ◌≡◌, refl, sym, ap, subst, ◌∙◌, ◌≢◌,
  Bool, true, false, some, List, [], ◌∷◌, ◌++◌, map,
}
use deepiri_zepgpu.Base.Sorting.{filter, filter-append}
use deepiri_zepgpu.Ledger.Block.{ValidatorApproval}
use deepiri_zepgpu.Ledger.Replay.{replay_transactions}
use deepiri_zepgpu.Ledger.Replay.Listing.{to_list}
use deepiri_zepgpu.Ledger.Replay.Monad.{CreditState, CreditBalance}
use deepiri_zepgpu.Ledger.Store.{
  update_block_approvals, Store, BlockRow, TxRow, list_sealed_transactions, join_rows,
  block_transactions, get_block_by_hash,
}
use deepiri_zepgpu.Ledger.Store.Sealed.{tx_of, join_rows-append, Misses, ++-nil, map-append}
use deepiri_zepgpu.Ledger.Store.Chain.{
  All-last, AllFinal, OneOpen, DistinctIds, is_final, AllFinal-OneOpen, filter-AllFinal, find-last,
  DistinctIds-last,
}
use deepiri_zepgpu.Ledger.Service.Setup.{Setup}
use deepiri_zepgpu.Ledger.Service.Books.{IsBooked, list_sealed_transactions-final}
use deepiri_zepgpu.Ledger.Service.Books.Approved.{
  approved_as, approved_as-SortedBy, approved_as-DistinctIds, approved_as-canonical,
  approved_as-Placed, approved_as-Misses,
}

module _ (setup : Setup) where
  -- A stored block that waits, found by its hash.
  pub record IsWaiting (r : BlockRow) (s : Store) : Type 0 where
    pub booked : IsBooked setup.columns setup.py s
    pub block_hash : String
    pub found : get_block_by_hash block_hash s ≡ some r
    pub waits : r.finalized ≡ false

  -- It is the last one, behind finalized blocks with other ids.
  IsWaiting-last :
      (r : BlockRow) (s : Store)
      → IsWaiting r s
      → (init : List BlockRow) × (s.blocks ≡ init ++ r ∷ []) × AllFinal init × Misses r.id init
  unfolding get_block_by_hash
  IsWaiting-last r s w =
      let (init, split, final) =
        find-last w.block_hash s.blocks r w.booked.one_open w.found w.waits in
      (init, split, final, DistinctIds-last init r (subst DistinctIds split w.booked.distinct))

  abbrev pub with_approvals : BlockRow → List ValidatorApproval → Bool → Store → Store
  with_approvals r approvals finalized s = record s {
    blocks = map (approved_as r.id approvals finalized) s.blocks;
  }

  abbrev pub approved_row : BlockRow → List ValidatorApproval → Bool → BlockRow
  approved_row r approvals finalized = record r { approvals = approvals; finalized = finalized }

  blocks-with_approvals :
      (r : BlockRow) (approvals : List ValidatorApproval) (finalized : Bool)
      (init blocks : List BlockRow)
      → blocks ≡ init ++ r ∷ []
      → Misses r.id init
      → map (approved_as r.id approvals finalized) blocks
        ≡ init ++ approved_row r approvals finalized ∷ []
  blocks-with_approvals r approvals finalized init blocks split misses =
      let change = approved_as r.id approvals finalized in
      let last : change r ≡ approved_row r approvals finalized =
        ap (λ t. if t then approved_row r approvals finalized else r) (beq_self r.id) in
      ap (map change) split
      ∙ (map-append change init (r ∷ [])
          ∙ (ap (λ bs. bs ++ change r ∷ [])
                (approved_as-Misses r.id approvals finalized init misses)
              ∙ ap (λ b. init ++ b ∷ []) last))

  -- The finalized blocks before: all but the one that waits.
  final-before :
      (r : BlockRow) (init blocks : List BlockRow)
      → blocks ≡ init ++ r ∷ []
      → AllFinal init
      → r.finalized ≡ false
      → filter is_final blocks ≡ init
  final-before r init blocks split final waits =
      ap (filter is_final) split
      ∙ (filter-append is_final init (r ∷ [])
          ∙ (ap (λ bs. bs ++ (if r.finalized then r ∷ [] else [])) (filter-AllFinal init final)
              ∙ (ap (λ t. init ++ (if t then r ∷ [] else [])) waits ∙ ++-nil init)))

  final-after :
      (r : BlockRow) (approvals : List ValidatorApproval) (finalized : Bool)
      (init blocks : List BlockRow)
      → blocks ≡ init ++ r ∷ []
      → AllFinal init
      → Misses r.id init
      → filter is_final (map (approved_as r.id approvals finalized) blocks)
        ≡ init ++ (if finalized then approved_row r approvals finalized ∷ [] else [])
  final-after r approvals finalized init blocks split final misses =
      let last = approved_row r approvals finalized in
      ap (filter is_final) (blocks-with_approvals r approvals finalized init blocks split misses)
      ∙ (filter-append is_final init (last ∷ [])
          ∙ ap (λ bs. bs ++ (if finalized then last ∷ [] else [])) (filter-AllFinal init final))

  pub approved-IsBooked :
      (r : BlockRow) (approvals : List ValidatorApproval) (finalized : Bool) (s : Store)
      (balances : List CreditBalance) (state : CreditState)
      → IsWaiting r s
      → replay_transactions setup.py
          (tx_of (list_sealed_transactions true (with_approvals r approvals finalized s)))
        ≡ ok state
      → balances ≡ to_list state
      → IsBooked setup.columns setup.py
          (record (with_approvals r approvals finalized s) { balances = balances })
  unfolding list_sealed_transactions
  approved-IsBooked r approvals finalized s balances state w replays balanced =
      let (init, split, final, misses) = IsWaiting-last r s w in
      let booked = w.booked in
      record {
        keyed = booked.keyed;
        ascending = approved_as-SortedBy r.id approvals finalized s.blocks booked.ascending;
        one_open =
            subst OneOpen
              (sym (blocks-with_approvals r approvals finalized init s.blocks split misses))
              (AllFinal-OneOpen init (approved_row r approvals finalized) final);
        distinct = approved_as-DistinctIds r.id approvals finalized s.blocks booked.distinct;
        canonical =
            approved_as-canonical r.id approvals finalized setup.columns.uuid_text s.blocks
              booked.canonical;
        placed = approved_as-Placed r.id approvals finalized s.blocks s.transactions booked.placed;
        replayed = state;
        replays = replays;
        balanced = balanced;
      }

  join_rows-last :
      (r : BlockRow) (approvals : List ValidatorApproval) (finalized : Bool) (init : List BlockRow)
      (rows : List TxRow)
      → join_rows (init ++ (if finalized then approved_row r approvals finalized ∷ [] else [])) rows
        ≡ join_rows init rows ++ (if finalized then block_transactions r.id rows else [])
  unfolding join_rows
  join_rows-last r approvals true init rows =
      join_rows-append init (approved_row r approvals true ∷ []) rows
      ∙ ap (λ more. join_rows init rows ++ more) (++-nil (block_transactions r.id rows))
  join_rows-last r approvals false init rows =
      ap (λ bs. join_rows bs rows) (++-nil init) ∙ sym (++-nil (join_rows init rows))

  pub sealed-approved :
      (r : BlockRow) (approvals : List ValidatorApproval) (finalized : Bool) (s : Store)
      → IsWaiting r s
      → list_sealed_transactions true (with_approvals r approvals finalized s)
        ≡ list_sealed_transactions true s
          ++ (if finalized then block_transactions r.id s.transactions else [])
  unfolding join_rows
  sealed-approved r approvals finalized s w =
      let (init, split, final, misses) = IsWaiting-last r s w in
      let rows = s.transactions in
      let before =
        list_sealed_transactions-final s w.booked.ascending
        ∙ ap (λ bs. join_rows bs rows) (final-before r init s.blocks split final w.waits) in
      let after =
        list_sealed_transactions-final (with_approvals r approvals finalized s)
          (approved_as-SortedBy r.id approvals finalized s.blocks w.booked.ascending)
        ∙ ap (λ bs. join_rows bs rows)
            (final-after r approvals finalized init s.blocks split final misses) in
      after
      ∙ (join_rows-last r approvals finalized init rows
          ∙ ap (λ out. out ++ (if finalized then block_transactions r.id rows else []))
              (sym before))

  -- The write finds its block by the id that the row prints.
  pub update_block_approvals-waiting :
      (r : BlockRow) (id : String) (approvals : List ValidatorApproval) (finalized : Bool)
      (s : Store)
      → IsWaiting r s
      → id ≡ r.id
      → update_block_approvals setup.columns id approvals finalized s
        ≡ ok (with_approvals r approvals finalized s)
  unfolding update_block_approvals
  update_block_approvals-waiting r id approvals finalized s w same =
      let (init, split, final, misses) = IsWaiting-last r s w in
      let canonical : setup.columns.uuid_text r.id ≡ some r.id =
        All-last (λ b. setup.columns.uuid_text b.id ≡ some b.id) init r
          (subst (All (λ b. setup.columns.uuid_text b.id ≡ some b.id)) split w.booked.canonical) in
      rw (same, canonical) refl

  -- A chain with approvals has blocks as before.
  pub with_approvals-nonempty :
      (r : BlockRow) (approvals : List ValidatorApproval) (finalized : Bool) (s : Store)
      → s.blocks ≢ []
      → (with_approvals r approvals finalized s).blocks ≢ []
  with_approvals-nonempty r approvals finalized s some_block = by_blocks s.blocks some_block
    where
      by_blocks :
          (blocks : List BlockRow)
          → blocks ≢ []
          → map (approved_as r.id approvals finalized) blocks ≢ []
      by_blocks [] h e = h refl
      by_blocks (b ∷ blocks) h e = absurd cc
