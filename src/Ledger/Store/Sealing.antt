-- ===== src/Ledger/Store/Sealing.antt =====
-- deepiri_zepgpu/database/repositories/ledger_repository.py: which rows the loop of `create_block`
-- gives to a block.
use deepiri_zepgpu.Base.Dict.{is_some}
use deepiri_zepgpu.Base.{
  if◌then◌else◌, string_eq, nat_eq, ◌==◌, beq_self, Bool-cases, All, elem, ok-injective, ok, ℕ, ◌+◌,
  String, ◌≡◌, refl, inl, inr, Bool, false, not, some, List, [], ◌∷◌, arith,
}
use deepiri_zepgpu.Base.Sorting.{filter}
use deepiri_zepgpu.Ledger.Store.{TxRow, Columns, seal_row, seal_rows}

abbrev pub is_pending : TxRow → Bool
is_pending r = not (is_some r.block_id)

abbrev pub ids : List TxRow → List String
ids [] = []
ids (r ∷ rows) = r.tx.id ∷ ids rows

-- No two rows have one id, and ids stand as their column prints them.
abbrev pub IsKeyed : Columns → List TxRow → Type 0
IsKeyed columns [] = Unit
IsKeyed columns (r ∷ rows) =
    (columns.uuid_text r.tx.id ≡ some r.tx.id)
    × (elem r.tx.id (ids rows) ≡ false)
    × IsKeyed columns rows

-- The pending rows become rows of the block, at the positions from `position` on.
abbrev pub number : String → ℕ → List TxRow → List TxRow
number block_id position [] = []
number block_id position (r ∷ rows) =
    let here =
      record r { block_id = some block_id; position = some position }
      ∷ number block_id (position + 1) rows in
    let past = r ∷ number block_id position rows in if is_pending r then here else past

seal_row-absent :
    (block_id : String) (position : ℕ) (tx_id : String) (rows : List TxRow)
    → elem tx_id (ids rows) ≡ false
    → seal_row block_id position tx_id rows ≡ rows
unfolding seal_row
seal_row-absent block_id position tx_id [] h = refl
seal_row-absent block_id position tx_id (r ∷ rows) h =
    let rest = seal_row-absent block_id position tx_id rows (ground arith) in
    let other : (r.tx.id == tx_id) ≡ false = ground arith in rw (other, rest) refl

pending_ids-absent :
    (x : String) (rows : List TxRow)
    → elem x (ids rows) ≡ false
    → elem x (ids (filter is_pending rows)) ≡ false
pending_ids-absent x [] h = refl
pending_ids-absent x (r ∷ rows) h =
    let rest = pending_ids-absent x rows (ground arith) in ground arith

module _ (columns : Columns) where
  pub pending_ids-canonical :
      (rows : List TxRow)
      → IsKeyed columns rows
      → All (λ i. columns.uuid_text i ≡ some i) (ids (filter is_pending rows))
  pending_ids-canonical [] keyed = tt
  pending_ids-canonical (r ∷ rows) (canonical, new, keyed) =
      let rest = pending_ids-canonical rows keyed in ground arith

  -- A head that is not named stays, and the rest is sealed alike.
  seal_rows-past :
      (block_id : String) (position : ℕ) (tx_ids : List String) (r : TxRow) (rows : List TxRow)
      (out : List TxRow)
      → elem r.tx.id tx_ids ≡ false
      → All (λ i. columns.uuid_text i ≡ some i) tx_ids
      → seal_rows columns block_id position tx_ids rows ≡ ok out
      → seal_rows columns block_id position tx_ids (r ∷ rows) ≡ ok (r ∷ out)
  unfolding seal_rows seal_row
  seal_rows-past block_id position [] r rows out absent canonical h = rw (ok-injective h) refl
  seal_rows-past block_id position (i ∷ is) r rows out absent canonical h =
      let other : (r.tx.id == i) ≡ false =
        ground (arith, string_eq.same_iff r.tx.id i, string_eq.same_iff i r.tx.id) in
      let rest =
        seal_rows-past block_id (position + 1) is r (seal_row block_id position i rows) out
          (ground arith) canonical.1 (rw (canonical.0) at h) in
      rw (canonical.0, other) rest

  pub seal_rows-number :
      (block_id : String) (position : ℕ) (rows : List TxRow)
      → IsKeyed columns rows
      → seal_rows columns block_id position (ids (filter is_pending rows)) rows
        ≡ ok (number block_id position rows)
  unfolding seal_rows
  seal_rows-number block_id position [] keyed = refl
  seal_rows-number block_id position (r ∷ rows) (canonical, new, keyed) =
      elim (Bool-cases (is_pending r)) [
        | inl pending ↦
            let r' = record r { block_id = some block_id; position = some position } in
            let rest = seal_rows-number block_id (position + 1) rows keyed in
            let past =
              seal_rows-past block_id (position + 1) (ids (filter is_pending rows)) r' rows _
                (pending_ids-absent r.tx.id rows new) (pending_ids-canonical rows keyed) rest in
            let others = seal_row-absent block_id position r.tx.id rows new in
            rw (pending, canonical, beq_self r.tx.id, others) past
        | inr sealed ↦
            let rest = seal_rows-number block_id position rows keyed in
            let past =
              seal_rows-past block_id position (ids (filter is_pending rows)) r rows _
                (pending_ids-absent r.tx.id rows new) (pending_ids-canonical rows keyed) rest in
            rw sealed past
      ]
