-- ===== src/Ledger/Store/Found.antt =====
-- deepiri_zepgpu/database/repositories/ledger_repository.py: the block that `create_block` adds, by
-- its height and by its hash.
use deepiri_zepgpu.Base.{
  string_eq, nat_eq, ◌==◌, beq_self, Bool-cases, any, >>=-eq-ok, guard-ok, ok-injective, ok, String,
  ◌≡◌, refl, sym, ap, ◌≢◌, inl, inr, Bool, true, false, ◌||◌, some, List, [], ◌∷◌, ◌++◌, arith,
}
use deepiri_zepgpu.Base.Int.{ℤ}
use deepiri_zepgpu.Base.Sorting.{filter}
use deepiri_zepgpu.Ledger.Poa.{int_eq}
use deepiri_zepgpu.Ledger.Store.{
  seal_rows, BlockRow, Store, Columns, first_of, create_block, get_block_by_hash,
}
use deepiri_zepgpu.Ledger.Store.Listings.{get_block_by_height}

module _ {A : Type 0} (keep : A → Bool) where
  -- A new last entry is found when no entry before it is kept.
  first_of-append_new :
      (xs : List A) (x : A)
      → any keep xs ≡ false
      → keep x ≡ true
      → first_of (filter keep (xs ++ x ∷ [])) ≡ some x
  first_of-append_new [] x none' kept = rw kept refl
  first_of-append_new (y ∷ ys) x absent kept =
      let here : keep y ≡ false = ground arith in
      rw here (first_of-append_new ys x (ground arith) kept)

  -- A new last entry that is not kept changes no search.
  first_of-append_other :
      (xs : List A) (x : A)
      → keep x ≡ false
      → first_of (filter keep (xs ++ x ∷ [])) ≡ first_of (filter keep xs)
  first_of-append_other [] x dropped = rw dropped refl
  first_of-append_other (y ∷ ys) x dropped = elim (Bool-cases (keep y)) [
    | inl kept ↦ rw kept refl
    | inr past ↦ rw past (first_of-append_other ys x dropped)
  ]

unused_hash :
    (new : BlockRow) (blocks : List BlockRow)
    → any (λ b. (b.id == new.id) || ((b.hash == new.hash) || int_eq b.height new.height)) blocks
      ≡ false
    → (any (λ b. b.hash == new.hash) blocks ≡ false)
      × (any (λ b. int_eq b.height new.height) blocks ≡ false)
unused_hash new [] h = (refl, refl)
unused_hash new (b ∷ blocks) h =
    let (hashes, heights) = unused_hash new blocks (ground arith) in (ground arith, ground arith)

create_block-blocks :
    (columns : Columns) (block : BlockRow) (tx_ids : List String) (s after : Store)
    → create_block columns block tx_ids s ≡ ok after
    → (any
          (λ b. (b.id == block.id) || ((b.hash == block.hash) || int_eq b.height block.height))
          s.blocks
        ≡ false)
      × (after.blocks ≡ s.blocks ++ block ∷ [])
unfolding create_block
create_block-blocks columns block tx_ids s after ran =
    let (fresh, rest) =
      guard-ok
        (any (λ b. (b.id == block.id) || ((b.hash == block.hash) || int_eq b.height block.height))
          s.blocks)
        _ _ ran in
    let (rows, sealed, same) =
      >>=-eq-ok (seal_rows columns block.id 0 tx_ids s.transactions) _ rest in
    (fresh, sym (ap (λ (t : Store). t.blocks) (ok-injective same)))

-- A block that `create_block` adds is found by its height and by its hash, and a search for another
-- height or another hash finds what it found before.
pub create_block-found :
    (columns : Columns) (block : BlockRow) (tx_ids : List String) (s after : Store)
    → create_block columns block tx_ids s ≡ ok after
    → (get_block_by_height block.height after ≡ some block)
      × (get_block_by_hash block.hash after ≡ some block)
      × ((height : ℤ)
          → int_eq block.height height ≡ false
          → get_block_by_height height after ≡ get_block_by_height height s)
      × ((block_hash : String)
          → block.hash ≢ block_hash
          → get_block_by_hash block_hash after ≡ get_block_by_hash block_hash s)
unfolding get_block_by_height get_block_by_hash
create_block-found columns block tx_ids s after ran =
    let (fresh, blocks) = create_block-blocks columns block tx_ids s after ran in
    let (hashes, heights) = unused_hash block s.blocks fresh in
    let at_height : int_eq block.height block.height ≡ true = ground arith in
    rw blocks (
      first_of-append_new _ s.blocks block heights at_height,
      first_of-append_new _ s.blocks block hashes (beq_self block.hash),
      λ height other. first_of-append_other _ s.blocks block other,
      λ block_hash other.
          first_of-append_other (λ b. b.hash == block_hash) s.blocks block
            (differs block_hash other),
    )
  where
    differs : (block_hash : String) → block.hash ≢ block_hash → (block.hash == block_hash) ≡ false
    differs block_hash other = ground (arith, string_eq.same_iff block.hash block_hash)
