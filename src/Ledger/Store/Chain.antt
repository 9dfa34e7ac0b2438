-- ===== src/Ledger/Store/Chain.antt =====
-- deepiri_zepgpu/database/repositories/ledger_repository.py: the order of the blocks of a chain, its
-- tips, and the one block that may wait for its quorum.
use deepiri_zepgpu.Base.{
  if◌then◌else◌, string_eq, nat_eq, ◌==◌, Bool-cases, Option-cases, All, String, ◌≡◌, refl, ap,
  subst, inl, inr, Bool, true, false, not, none, some, List, [], ◌∷◌, ◌++◌, arith,
}
use deepiri_zepgpu.Base.Int.{ℤ, leb_ℤ, pos, ◌+ℤ◌, +ℤ_parts}
use deepiri_zepgpu.Base.Sorting.{filter, sort_by, insert_by, SortedBy}
use deepiri_zepgpu.Ledger.Store.{
  BlockRow, Store, lower_first, higher_first, first_of, get_tip, get_unfinalized_tip,
}
use deepiri_zepgpu.Ledger.Store.Sealed.{Misses}

abbrev pub is_final : BlockRow → Bool
is_final b = b.finalized

abbrev pub AllFinal : List BlockRow → Type 0
AllFinal = All λ b. b.finalized ≡ true

-- Every block but the last is finalized.
abbrev pub OneOpen : List BlockRow → Type 0
OneOpen [] = Unit
OneOpen (b ∷ []) = Unit
OneOpen (b ∷ c ∷ rest) = (b.finalized ≡ true) × OneOpen (c ∷ rest)

-- No two blocks have one id.
abbrev pub DistinctIds : List BlockRow → Type 0
DistinctIds [] = Unit
DistinctIds (b ∷ blocks) = Misses b.id blocks × DistinctIds blocks

pub filter-AllFinal : (blocks : List BlockRow) → AllFinal blocks → filter is_final blocks ≡ blocks
filter-AllFinal [] h = refl
filter-AllFinal (b ∷ blocks) h = rw (h.0, filter-AllFinal blocks h.1) refl

pub AllFinal-OneOpen :
    (blocks : List BlockRow) (b : BlockRow) → AllFinal blocks → OneOpen (blocks ++ b ∷ [])
AllFinal-OneOpen [] b h = tt
AllFinal-OneOpen (x ∷ []) b h = (h.0, tt)
AllFinal-OneOpen (x ∷ y ∷ blocks) b h = (h.0, AllFinal-OneOpen (y ∷ blocks) b h.1)

pub AllFinal-append :
    (blocks : List BlockRow) (b : BlockRow)
    → AllFinal blocks
    → b.finalized ≡ true
    → AllFinal (blocks ++ b ∷ [])
AllFinal-append [] b h last = (last, tt)
AllFinal-append (x ∷ blocks) b h last = (h.0, AllFinal-append blocks b h.1 last)

insert_by-some :
    {A : Type 0} (le : A → A → Bool) (x : A) (xs : List A)
    → (y : A) × (ys : List A) × (insert_by le x xs ≡ y ∷ ys)
insert_by-some le x [] = (x, [], refl)
insert_by-some le x (y ∷ ys) = elim (Bool-cases (le x y)) [
  | inl first ↦ (x, y ∷ ys, rw first refl)
  | inr later ↦ (y, insert_by le x ys, rw later refl)
]

pub sort_by-empty :
    {A : Type 0} (le : A → A → Bool) (xs : List A) → first_of (sort_by le xs) ≡ none → xs ≡ []
sort_by-empty le [] h = refl
sort_by-empty le (x ∷ xs) h = let (y, ys, same) = insert_by-some le x (sort_by le xs) in absurd cc

-- With no block that waits, all are finalized.
filter-not_final :
    (blocks : List BlockRow) → filter (λ b. not b.finalized) blocks ≡ [] → AllFinal blocks
filter-not_final [] h = tt
filter-not_final (b ∷ blocks) h = elim (Bool-cases b.finalized) [
  | inl final ↦ (final, filter-not_final blocks (rw final at h))
  | inr waits ↦ absurd (cc (rw waits at h))
]

pub get_unfinalized_tip-none : (s : Store) → get_unfinalized_tip s ≡ none → AllFinal s.blocks
unfolding get_unfinalized_tip
get_unfinalized_tip-none s h = filter-not_final s.blocks (sort_by-empty higher_first _ h)

abbrev pub Below : ℤ → List BlockRow → Type 0
Below height = All λ b. leb_ℤ b.height height ≡ true

Below-weaken :
    (low high : ℤ) (blocks : List BlockRow)
    → leb_ℤ low high ≡ true
    → Below low blocks
    → Below high blocks
Below-weaken low high [] le h = tt
Below-weaken low high (b ∷ blocks) le h = (ground arith, Below-weaken low high blocks le h.1)

first_of-insert_by :
    {A : Type 0} (le : A → A → Bool) (x : A) (xs : List A) (y : A)
    → first_of xs ≡ some y
    → first_of (insert_by le x xs) ≡ some (if le x y then x else y)
first_of-insert_by le x [] y h = absurd cc
first_of-insert_by le x (z ∷ zs) y h =
    let same : z ≡ y = cc in
    rw (← same)
      (elim (Bool-cases (le x z)) [ inl first ↦ rw first refl | inr later ↦ rw later refl ])

pub All-append :
    {A : Type 0} (P : A → Type 0) (xs : List A) (y : A) → All P xs → P y → All P (xs ++ y ∷ [])
All-append P [] y h last = (last, tt)
All-append P (x ∷ xs) y h last = (h.0, All-append P xs y h.1 last)

pub All-last : {A : Type 0} (P : A → Type 0) (xs : List A) (y : A) → All P (xs ++ y ∷ []) → P y
All-last P [] y h = h.0
All-last P (x ∷ xs) y h = All-last P xs y h.1

All-filter :
    {A : Type 0} (P : A → Type 0) (keep : A → Bool) (xs : List A)
    → All P xs
    → All P (filter keep xs)
All-filter P keep [] h = tt
All-filter P keep (x ∷ xs) h = elim (Bool-cases (keep x)) [
  | inl kept ↦ rw kept (h.0, All-filter P keep xs h.1)
  | inr dropped ↦ rw dropped (All-filter P keep xs h.1)
]

-- The first of the sorted blocks is a highest one.
first_of-Below :
    (blocks : List BlockRow) (tip : BlockRow)
    → first_of (sort_by higher_first blocks) ≡ some tip
    → Below tip.height blocks
first_of-Below [] tip h = tt
first_of-Below (b ∷ blocks) tip h = elim (Option-cases (first_of (sort_by higher_first blocks))) [
  | inl empty ↦
      let nothing : blocks ≡ [] = sort_by-empty higher_first blocks empty in
      let same : b ≡ tip = cc (rw nothing at h) in rw (nothing, same) (ground arith, tt)
  | inr (t, first) ↦
      let below = first_of-Below blocks t first in
      let ahead = first_of-insert_by higher_first b (sort_by higher_first blocks) t first in
      elim (Bool-cases (higher_first b t)) [
        | inl higher ↦
            let same : b ≡ tip = cc (rw higher at ahead, h) in
            subst (λ x. Below x.height (b ∷ blocks)) same
              (ground arith, Below-weaken t.height b.height blocks higher below)
        | inr lower ↦
            let same : t ≡ tip = cc (rw lower at ahead, h) in
            subst (λ x. Below x.height (b ∷ blocks)) same (ground arith, below)
      ]
]

pub get_tip-Below :
    (s : Store) (tip : BlockRow)
    → AllFinal s.blocks
    → get_tip true s ≡ some tip
    → Below tip.height s.blocks
unfolding get_tip
get_tip-Below s tip final h = first_of-Below s.blocks tip (rw (filter-AllFinal s.blocks final) at h)

pub SortedBy-append :
    (blocks : List BlockRow) (b : BlockRow)
    → SortedBy lower_first blocks
    → Below b.height blocks
    → SortedBy lower_first (blocks ++ b ∷ [])
SortedBy-append [] b sorted below = (tt, tt)
SortedBy-append (x ∷ blocks) b sorted below =
    (All-append _ blocks b sorted.0 below.0, SortedBy-append blocks b sorted.1 below.1)

pub Below-next :
    (height : ℤ) (blocks : List BlockRow) → Below height blocks → Below (height +ℤ pos 1) blocks
Below-next height [] h = tt
Below-next height (b ∷ blocks) h =
    (ground (arith, +ℤ_parts height (pos 1), h.0), Below-next height blocks h.1)

-- The finalized blocks of a sorted chain are sorted.
pub filter-SortedBy :
    (blocks : List BlockRow)
    → SortedBy lower_first blocks
    → SortedBy lower_first (filter is_final blocks)
filter-SortedBy [] h = tt
filter-SortedBy (b ∷ blocks) h =
    let rest = filter-SortedBy blocks h.1 in
    elim (Bool-cases b.finalized) [
      | inl final ↦ rw final (All-filter _ is_final blocks h.0, rest)
      | inr waits ↦ rw waits rest
    ]

-- A block that is found and waits is the last one.
pub find-last :
    (block_hash : String) (blocks : List BlockRow) (r : BlockRow)
    → OneOpen blocks
    → first_of (filter (λ b. b.hash == block_hash) blocks) ≡ some r
    → r.finalized ≡ false
    → (init : List BlockRow) × (blocks ≡ init ++ r ∷ []) × AllFinal init
find-last block_hash [] r one h waits = absurd cc
find-last block_hash (b ∷ []) r one h waits = elim (Bool-cases (b.hash == block_hash)) [
  | inl hit ↦ let same : b ≡ r = cc (rw hit at h) in ([], ap (λ x. x ∷ []) same, tt)
  | inr miss ↦ absurd (cc (rw miss at h))
]
find-last block_hash (b ∷ c ∷ rest) r one h waits = elim (Bool-cases (b.hash == block_hash)) [
  | inl hit ↦ let same : b ≡ r = cc (rw hit at h) in absurd (cc (same, one.0, waits))
  | inr miss ↦
      let (init, split, final) = find-last block_hash (c ∷ rest) r one.1 (rw miss at h) waits in
      (b ∷ init, ap (λ xs. b ∷ xs) split, (one.0, final))
]

-- The last block of a chain with distinct ids is the only one with its id.
pub DistinctIds-last :
    (init : List BlockRow) (r : BlockRow) → DistinctIds (init ++ r ∷ []) → Misses r.id init
DistinctIds-last [] r h = tt
DistinctIds-last (b ∷ init) r h = (
  ground (arith, All-last _ init r h.0, string_eq.same_iff b.id r.id, string_eq.same_iff r.id b.id),
  DistinctIds-last init r h.1,
)
