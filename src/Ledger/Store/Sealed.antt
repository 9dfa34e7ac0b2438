-- ===== src/Ledger/Store/Sealed.antt =====
-- deepiri_zepgpu/database/repositories/ledger_repository.py: what a new block, or a new pending row,
-- does to the list of sealed transactions.
use deepiri_zepgpu.Base.{
  string_eq, nat_eq, ◌==◌, beq_self, Option-cases, All, ℕ, ◌+◌, ◌≤◌, String, ◌≡◌, refl, sym, ap,
  ◌∙◌, inl, inr, true, false, none, some, List, [], ◌∷◌, ◌++◌, map, arith,
}
use deepiri_zepgpu.Base.Sorting.{filter, SortedBy, sort_by-SortedBy, filter-append}
use deepiri_zepgpu.Ledger.Transaction.{ComputeTransaction}
use deepiri_zepgpu.Ledger.Store.{TxRow, BlockRow, is_in, in_position, block_transactions, join_rows}
use deepiri_zepgpu.Ledger.Store.Sealing.{is_pending, number}

abbrev pub tx_of : List TxRow → List ComputeTransaction
tx_of rows = map (λ r. r.tx) rows

pub map-append :
    {A B : Type 0} (f : A → B) (xs ys : List A) → map f (xs ++ ys) ≡ map f xs ++ map f ys
map-append f [] ys = refl
map-append f (x ∷ xs) ys = ap (λ zs. f x ∷ zs) (map-append f xs ys)

pub ++-nil : {A : Type 0} (xs : List A) → xs ++ [] ≡ xs
++-nil [] = refl
++-nil (x ∷ xs) = ap (λ zs. x ∷ zs) (++-nil xs)

pub ++-assoc : {A : Type 0} (xs ys zs : List A) → (xs ++ ys) ++ zs ≡ xs ++ (ys ++ zs)
++-assoc [] ys zs = refl
++-assoc (x ∷ xs) ys zs = ap (λ ws. x ∷ ws) (++-assoc xs ys zs)

-- The rows of another block stay.
filter-number_other :
    (block_id other : String) (position : ℕ) (rows : List TxRow)
    → (block_id == other) ≡ false
    → filter (is_in other) (number block_id position rows) ≡ filter (is_in other) rows
filter-number_other block_id other position [] h = refl
filter-number_other block_id other position (r ∷ rows) h =
    let rest = filter-number_other block_id other (position + 1) rows h in
    let past = filter-number_other block_id other position rows h in
    elim (Option-cases r.block_id) [
      | inl pending ↦ rw (pending, h) rest
      | inr (i, sealed) ↦ rw (sealed, past) refl
    ]

abbrev At : ℕ → TxRow → Type 0
At low r = (i : ℕ) × (r.position ≡ some i) × (low ≤ i)

All-At : (low high : ℕ) (rows : List TxRow) → low ≤ high → All (At high) rows → All (At low) rows
All-At low high [] le h = tt
All-At low high (r ∷ rows) le ((i, at_i, small), h) =
    ((i, at_i, omega (arith, le, small)), All-At low high rows le h)

All-after :
    (r : TxRow) (position : ℕ) (rows : List TxRow)
    → r.position ≡ some position
    → All (At (position + 1)) rows
    → All (λ y. in_position r y ≡ true) rows
unfolding in_position
All-after r position [] h after = tt
All-after r position (y ∷ rows) h ((i, at_i, small), after) =
    (rw (h, at_i) (ground arith), All-after r position rows h after)

-- The rows that the block takes are the pending ones, in their order.
filter-number_own :
    (block_id : String) (position : ℕ) (rows : List TxRow)
    → All (λ r. is_in block_id r ≡ false) rows
    → let taken = filter (is_in block_id) (number block_id position rows) in
      SortedBy in_position taken
      × (tx_of taken ≡ tx_of (filter is_pending rows))
      × All (At position) taken
filter-number_own block_id position [] h = (tt, refl, tt)
filter-number_own block_id position (r ∷ rows) (away, h) = elim (Option-cases r.block_id) [
  | inl pending ↦
      let (sorted, same, after) = filter-number_own block_id (position + 1) rows h in
      let r' : TxRow = record r { block_id = some block_id; position = some position } in
      rw (pending, beq_self block_id)
        (
          (All-after r' position _ refl after, sorted),
          ap (λ txs. r.tx ∷ txs) same,
          ((position, refl, omega arith), All-At position (position + 1) _ (omega arith) after),
        )
  | inr (i, sealed) ↦
      let (sorted, same, after) = filter-number_own block_id position rows h in
      let elsewhere : (i == block_id) ≡ false = rw sealed at away in
      rw (sealed, elsewhere) (sorted, same, after)
]

block_transactions-number_own :
    (block_id : String) (rows : List TxRow)
    → All (λ r. is_in block_id r ≡ false) rows
    → tx_of (block_transactions block_id (number block_id 0 rows)) ≡ tx_of (filter is_pending rows)
unfolding block_transactions
block_transactions-number_own block_id rows h =
    let (sorted, same, after) = filter-number_own block_id 0 rows h in
    ap tx_of (sort_by-SortedBy in_position _ sorted) ∙ same

-- None of the blocks has this id.
abbrev pub Misses : String → List BlockRow → Type 0
Misses block_id = All λ b. (block_id == b.id) ≡ false

pub join_rows-number_other :
    (block_id : String) (blocks : List BlockRow) (rows : List TxRow)
    → Misses block_id blocks
    → join_rows blocks (number block_id 0 rows) ≡ join_rows blocks rows
unfolding join_rows block_transactions
join_rows-number_other block_id [] rows h = refl
join_rows-number_other block_id (b ∷ blocks) rows (other, h) =
    rw
      (
        filter-number_other block_id b.id 0 rows other,
        join_rows-number_other block_id blocks rows h,
      )
      refl

pub join_rows-append :
    (blocks more : List BlockRow) (rows : List TxRow)
    → join_rows (blocks ++ more) rows ≡ join_rows blocks rows ++ join_rows more rows
unfolding join_rows
join_rows-append [] more rows = refl
join_rows-append (b ∷ blocks) more rows =
    ap (λ rest. block_transactions b.id rows ++ rest) (join_rows-append blocks more rows)
    ∙ sym (++-assoc (block_transactions b.id rows) (join_rows blocks rows) (join_rows more rows))

-- A row that is pending is in no block.
pub join_rows-pending :
    (blocks : List BlockRow) (rows : List TxRow) (r : TxRow)
    → r.block_id ≡ none
    → join_rows blocks (rows ++ r ∷ []) ≡ join_rows blocks rows
unfolding join_rows block_transactions
join_rows-pending [] rows r h = refl
join_rows-pending (b ∷ blocks) rows r h =
    let out : filter (is_in b.id) (r ∷ []) ≡ [] = rw h refl in
    let same : filter (is_in b.id) (rows ++ r ∷ []) ≡ filter (is_in b.id) rows =
      filter-append (is_in b.id) rows (r ∷ [])
      ∙ (ap (λ zs. filter (is_in b.id) rows ++ zs) out ∙ ++-nil (filter (is_in b.id) rows)) in
    rw (same, join_rows-pending blocks rows r h) refl

-- A block that takes the pending rows adds their transactions behind those of the others.
pub join_rows-new_block :
    (blocks : List BlockRow) (b : BlockRow) (rows : List TxRow)
    → Misses b.id blocks
    → All (λ r. is_in b.id r ≡ false) rows
    → tx_of (join_rows (blocks ++ b ∷ []) (number b.id 0 rows))
      ≡ tx_of (join_rows blocks rows) ++ tx_of (filter is_pending rows)
unfolding join_rows
join_rows-new_block blocks b rows misses away =
    let rows' = number b.id 0 rows in
    ap tx_of (join_rows-append blocks (b ∷ []) rows')
    ∙ (map-append (λ r. r.tx) (join_rows blocks rows') (block_transactions b.id rows' ++ [])
        ∙ rw
            (join_rows-number_other b.id blocks rows misses, ++-nil (block_transactions b.id rows'))
            (ap (λ txs. tx_of (join_rows blocks rows) ++ txs)
              (block_transactions-number_own b.id rows away)))
