-- ===== src/Ledger/Service/Books/Approved.antt =====
-- deepiri_zepgpu/compute_ledger/service.py: the rows of a block as they are read, and what stored
-- approvals keep of the blocks.
use deepiri_zepgpu.Base.Int.{leb_ℤ, ℤ}
use deepiri_zepgpu.Ledger.Service.Books.Rows.{Placed, has_id}
use deepiri_zepgpu.Ledger.Store.Chain.{DistinctIds}
use deepiri_zepgpu.Base.{
  leb, if◌then◌else◌, string_eq, nat_eq, ◌==◌, Bool-cases, All, any, ℕ, String, ◌≡◌, refl, sym, ap,
  subst, ◌∙◌, inl, inr, Bool, true, false, ◌||◌, Option, none, some, List, [], ◌∷◌, map, arith,
}
use deepiri_zepgpu.Base.Sorting.{SortedBy, filter, sort_by-sort_by, IsOrder}
use deepiri_zepgpu.Ledger.Block.{ValidatorApproval}
use deepiri_zepgpu.Ledger.Store.{
  lower_first, is_in, TxRow, position_first, Store, BlockRow, in_position, block_transactions,
}
use deepiri_zepgpu.Ledger.Store.Sealed.{Misses, tx_of}
use deepiri_zepgpu.Ledger.Service.Propose.{block_to_domain, position_or_zero}

-- The block is given new approvals.
abbrev pub approved_as : String → List ValidatorApproval → Bool → BlockRow → BlockRow
approved_as id approvals finalized b =
    if b.id == id then record b { approvals = approvals; finalized = finalized } else b

position_first-total : (a b : Option ℕ) → position_first a b ≡ false → position_first b a ≡ true
position_first-total none b h = absurd cc
position_first-total (some i) none h = refl
position_first-total (some i) (some j) h = ground arith

position_first_trans :
    (a b c : Option ℕ)
    → position_first a b ≡ true
    → position_first b c ≡ true
    → position_first a c ≡ true
position_first_trans none b c h k = refl
position_first_trans (some i) none c h k = absurd cc
position_first_trans (some i) (some j) none h k = absurd cc
position_first_trans (some i) (some j) (some l) h k = ground arith

position_first-weaker :
    (a b : Option ℕ)
    → position_first a b ≡ true
    → leb (position_or_zero a) (position_or_zero b) ≡ true
position_first-weaker none b h = ground arith
position_first-weaker (some i) none h = absurd cc
position_first-weaker (some i) (some j) h = h

-- The transactions of a block as it is read are those of its rows by position.
pub block_to_domain-transactions :
    (s : Store) (r : BlockRow)
    → (block_to_domain s r).transactions ≡ tx_of (block_transactions r.id s.transactions)
unfolding block_to_domain block_transactions in_position
block_to_domain-transactions s r =
    let order : IsOrder in_position = (
      λ x y. position_first-total x.position y.position,
      λ x y z. position_first_trans x.position y.position z.position,
    ) in
    ap tx_of (
      sort_by-sort_by in_position
        (λ a b. leb (position_or_zero a.position) (position_or_zero b.position))
        (filter (is_in r.id) s.transactions) order
        (λ x y. position_first-weaker x.position y.position))

module _ (id : String) (approvals : List ValidatorApproval) (finalized : Bool) where
  abbrev pub changed : BlockRow → BlockRow
  changed = approved_as id approvals finalized

  pub approved_as-frame : (b : BlockRow) → ((changed b).id ≡ b.id) × ((changed b).height ≡ b.height)
  approved_as-frame b = elim (Bool-cases (b.id == id)) [
    | inl hit ↦ rw hit (refl, refl)
    | inr miss ↦ rw miss (refl, refl)
  ]

  pub approved_as-above :
      (x : ℤ) (blocks : List BlockRow)
      → All (λ y. leb_ℤ x y.height ≡ true) blocks
      → All (λ y. leb_ℤ x y.height ≡ true) (map changed blocks)
  approved_as-above x [] h = tt
  approved_as-above x (b ∷ blocks) h = (
    subst (λ y. leb_ℤ x y ≡ true) (sym (approved_as-frame b).1) h.0,
    approved_as-above x blocks h.1,
  )

  pub approved_as-apart :
      (i : String) (blocks : List BlockRow) → Misses i blocks → Misses i (map changed blocks)
  approved_as-apart i [] h = tt
  approved_as-apart i (b ∷ blocks) h = (
    subst (λ j. (i == j) ≡ false) (sym (approved_as-frame b).0) h.0,
    approved_as-apart i blocks h.1,
  )

  pub approved_as-SortedBy :
      (blocks : List BlockRow)
      → SortedBy lower_first blocks
      → SortedBy lower_first (map changed blocks)
  approved_as-SortedBy [] sorted = tt
  approved_as-SortedBy (b ∷ blocks) sorted = (
    subst (λ x. All (λ y. leb_ℤ x y.height ≡ true) (map changed blocks))
        (sym (approved_as-frame b).1) (approved_as-above b.height blocks sorted.0),
    approved_as-SortedBy blocks sorted.1,
  )

  pub approved_as-DistinctIds :
      (blocks : List BlockRow) → DistinctIds blocks → DistinctIds (map changed blocks)
  approved_as-DistinctIds [] distinct = tt
  approved_as-DistinctIds (b ∷ blocks) distinct = (
    subst (λ i. Misses i (map changed blocks)) (sym (approved_as-frame b).0)
        (approved_as-apart b.id blocks distinct.0),
    approved_as-DistinctIds blocks distinct.1,
  )

  pub approved_as-canonical :
      (uuid : String → Option String) (blocks : List BlockRow)
      → All (λ b. uuid b.id ≡ some b.id) blocks
      → All (λ b. uuid b.id ≡ some b.id) (map changed blocks)
  approved_as-canonical uuid [] h = tt
  approved_as-canonical uuid (b ∷ blocks) h =
      let same = (approved_as-frame b).0 in
      (subst (λ i. uuid i ≡ some i) (sym same) h.0, approved_as-canonical uuid blocks h.1)

  pub approved_as-has_id :
      (i : String) (blocks : List BlockRow)
      → any (has_id i) (map changed blocks) ≡ any (has_id i) blocks
  approved_as-has_id i [] = refl
  approved_as-has_id i (b ∷ blocks) =
      let same = (approved_as-frame b).0 in
      ap (λ j. (j == i) || any (has_id i) (map changed blocks)) same
      ∙ ap (λ t. (b.id == i) || t) (approved_as-has_id i blocks)

  pub approved_as-Placed :
      (blocks : List BlockRow) (rows : List TxRow)
      → Placed blocks rows
      → Placed (map changed blocks) rows
  approved_as-Placed blocks [] placed = tt
  approved_as-Placed blocks (r ∷ rows) (here, placed) =
      (λ i h. approved_as-has_id i blocks ∙ here i h, approved_as-Placed blocks rows placed)

  pub approved_as-Misses : (init : List BlockRow) → Misses id init → map changed init ≡ init
  approved_as-Misses [] misses = refl
  approved_as-Misses (b ∷ init) misses =
      let other : (b.id == id) ≡ false =
        ground (arith, misses.0, string_eq.same_iff b.id id, string_eq.same_iff id b.id) in
      ap
        (λ t.
          (if t then record b { approvals = approvals; finalized = finalized } else b)
          ∷ map changed init)
        other
      ∙ ap (λ bs. b ∷ bs) (approved_as-Misses init misses.1)
