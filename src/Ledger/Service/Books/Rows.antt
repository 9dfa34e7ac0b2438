-- ===== src/Ledger/Service/Books/Rows.antt =====
-- deepiri_zepgpu/database/repositories/ledger_repository.py: what the constraints of the tables and
-- the writes of a block keep of the rows.
use deepiri_zepgpu.Ledger.Store.Chain.{All-append, DistinctIds}
use deepiri_zepgpu.Ledger.Poa.{int_eq}
use deepiri_zepgpu.Base.{
  string_eq, nat_eq, ◌==◌, beq_self, eq_of_beq, Bool-cases, Option-cases, All, any, elem, ℕ, ◌+◌,
  String, ◌≡◌, refl, ap, subst, ◌∙◌, inl, inr, Bool, true, false, ◌||◌, some, List, [], ◌∷◌, ◌++◌,
  map, arith,
}
use deepiri_zepgpu.Ledger.Store.{TxRow, BlockRow, Columns, is_in}
use deepiri_zepgpu.Base.Sorting.{filter}
use deepiri_zepgpu.Ledger.Store.Sealing.{is_pending, number, ids, IsKeyed}
use deepiri_zepgpu.Ledger.Store.Sealed.{tx_of, Misses}

abbrev pub has_id : String → BlockRow → Bool
has_id i b = b.id == i

-- The block of a sealed row is there.
abbrev pub Placed : List BlockRow → List TxRow → Type 0
Placed blocks = All λ r. (i : String) → r.block_id ≡ some i → any (has_id i) blocks ≡ true

pub ids-number :
    (block_id : String) (position : ℕ) (rows : List TxRow)
    → ids (number block_id position rows) ≡ ids rows
ids-number block_id position [] = refl
ids-number block_id position (r ∷ rows) = elim (Bool-cases (is_pending r)) [
  | inl pending ↦ rw (pending, ids-number block_id (position + 1) rows) refl
  | inr sealed ↦ rw (sealed, ids-number block_id position rows) refl
]

pub number-IsKeyed :
    (columns : Columns) (block_id : String) (position : ℕ) (rows : List TxRow)
    → IsKeyed columns rows
    → IsKeyed columns (number block_id position rows)
number-IsKeyed columns block_id position [] keyed = tt
number-IsKeyed columns block_id position (r ∷ rows) (canonical, new, keyed) =
    elim (Bool-cases (is_pending r)) [
      | inl pending ↦
          rw (pending, ids-number block_id (position + 1) rows)
            (canonical, new, number-IsKeyed columns block_id (position + 1) rows keyed)
      | inr sealed ↦
          rw (sealed, ids-number block_id position rows)
            (canonical, new, number-IsKeyed columns block_id position rows keyed)
    ]

any-append_some :
    (i : String) (blocks : List BlockRow) (b : BlockRow)
    → any (has_id i) blocks ≡ true
    → any (has_id i) (blocks ++ b ∷ []) ≡ true
any-append_some i [] b h = absurd cc
any-append_some i (x ∷ blocks) b h = ground (arith, any-append_some i blocks b)

any-append_last :
    (blocks : List BlockRow) (b : BlockRow) → any (has_id b.id) (blocks ++ b ∷ []) ≡ true
any-append_last [] b = rw (beq_self b.id) refl
any-append_last (x ∷ blocks) b = ground (arith, any-append_last blocks b)

pub number-Placed :
    (blocks : List BlockRow) (b : BlockRow) (position : ℕ) (rows : List TxRow)
    → Placed blocks rows
    → Placed (blocks ++ b ∷ []) (number b.id position rows)
number-Placed blocks b position [] placed = tt
number-Placed blocks b position (r ∷ rows) (here, placed) = elim (Option-cases r.block_id) [
  | inl pending ↦ rw pending (
    λ i same.
        let last = any-append_last blocks b in
        let same_id : b.id ≡ i = cc in
        subst (λ j. any (has_id j) (blocks ++ b ∷ []) ≡ true) same_id last,
    number-Placed blocks b (position + 1) rows placed,
  )
  | inr (j, sealed) ↦ rw sealed (
    λ i same. any-append_some i blocks b (here i (sealed ∙ same)),
    number-Placed blocks b position rows placed,
  )
]

Misses-absent :
    (new_id : String) (blocks : List BlockRow)
    → Misses new_id blocks
    → any (has_id new_id) blocks ≡ false
Misses-absent new_id [] m = refl
Misses-absent new_id (b ∷ bs) m = ground (
  arith,
  string_eq.same_iff new_id b.id,
  string_eq.same_iff b.id new_id,
  Misses-absent new_id bs m.1,
)

-- The constraint on block ids, as `create_block` tests it.
pub any-Misses :
    (new : BlockRow) (blocks : List BlockRow)
    → any (λ b. (b.id == new.id) || ((b.hash == new.hash) || int_eq b.height new.height)) blocks
      ≡ false
    → Misses new.id blocks
any-Misses new [] h = tt
any-Misses new (b ∷ bs) h =
    let rest = any-Misses new bs (ground arith) in
    let other : (b.id == new.id) ≡ false = ground arith in
    (ground (arith, string_eq.same_iff new.id b.id, string_eq.same_iff b.id new.id), rest)

pub DistinctIds-append :
    (blocks : List BlockRow) (b : BlockRow)
    → DistinctIds blocks
    → Misses b.id blocks
    → DistinctIds (blocks ++ b ∷ [])
DistinctIds-append [] b distinct misses = (tt, tt)
DistinctIds-append (x ∷ blocks) b distinct misses =
    let apart : (x.id == b.id) ≡ false =
      ground (arith, string_eq.same_iff x.id b.id, string_eq.same_iff b.id x.id) in
    (All-append _ blocks b distinct.0 apart, DistinctIds-append blocks b distinct.1 misses.1)

-- A block with a new id has no row yet.
pub Placed-away :
    (new_id : String) (blocks : List BlockRow) (rows : List TxRow)
    → Misses new_id blocks
    → Placed blocks rows
    → All (λ r. is_in new_id r ≡ false) rows
Placed-away new_id blocks [] misses placed = tt
Placed-away new_id blocks (r ∷ rows) misses (here, placed) = (
  elim (Option-cases r.block_id) [
    | inl pending ↦ rw pending refl
    | inr (i, sealed) ↦ rw sealed (elim (Bool-cases (i == new_id)) [
      | inl same ↦
          let held : any (has_id new_id) blocks ≡ true =
            subst (λ j. any (has_id j) blocks ≡ true) (eq_of_beq i new_id same) (here i sealed) in
          absurd (cc (Misses-absent new_id blocks misses, held))
      | inr other ↦ other
    ])
  ],
  Placed-away new_id blocks rows misses placed,
)

pub any-ids : (i : String) (rows : List TxRow) → any (λ r. r.tx.id == i) rows ≡ elem i (ids rows)
any-ids i [] = refl
any-ids i (r ∷ rows) = rw (any-ids i rows) refl

pub pending_ids-there :
    (i : String) (rows : List TxRow)
    → elem i (ids (filter is_pending rows)) ≡ true
    → elem i (ids rows) ≡ true
pending_ids-there i [] h = absurd cc
pending_ids-there i (r ∷ rows) h = let rest = pending_ids-there i rows in ground arith

pub map-ids : (rows : List TxRow) → map (λ tx. tx.id) (tx_of rows) ≡ ids rows
map-ids [] = refl
map-ids (r ∷ rows) = ap (λ is. r.tx.id ∷ is) (map-ids rows)

-- A new pending row has a new id.
pub IsKeyed-append :
    (columns : Columns) (rows : List TxRow) (new : TxRow)
    → IsKeyed columns rows
    → columns.uuid_text new.tx.id ≡ some new.tx.id
    → any (λ r. r.tx.id == new.tx.id) rows ≡ false
    → IsKeyed columns (rows ++ new ∷ [])
IsKeyed-append columns [] new keyed canonical absent = (canonical, refl, tt)
IsKeyed-append columns (r ∷ rows) new (here, apart, keyed) canonical absent = (
  here,
  ids_last r.tx.id rows apart
      (ground (arith, string_eq.same_iff new.tx.id r.tx.id, string_eq.same_iff r.tx.id new.tx.id)),
  IsKeyed-append columns rows new keyed canonical (ground arith),
)
  where
    ids_last :
        (i : String) (more : List TxRow)
        → elem i (ids more) ≡ false
        → (new.tx.id == i) ≡ false
        → elem i (ids (more ++ new ∷ [])) ≡ false
    ids_last i [] h other = rw other refl
    ids_last i (q ∷ more) h other = let rest = ids_last i more (ground arith) other in ground arith
