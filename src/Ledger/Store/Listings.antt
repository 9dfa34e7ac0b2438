-- ===== src/Ledger/Store/Listings.antt =====
-- deepiri_zepgpu/database/repositories/ledger_repository.py: the queries that the HTTP routes list
-- blocks and balances with.
use deepiri_zepgpu.Base.{ℕ, zero, suc, String, Bool, Option, List, [], ◌∷◌}
use deepiri_zepgpu.Base.Int.{ℤ}
use deepiri_zepgpu.Base.Sorting.{filter, sort_by}
use deepiri_zepgpu.Ledger.Poa.{int_eq}
use deepiri_zepgpu.Ledger.Replay.Monad.{CreditBalance}
use deepiri_zepgpu.Ledger.Store.{BlockRow, Store, first_of, higher_first}

-- `.limit(n)`
abbrev pub limit {ℓ} : {A : Type ℓ} → ℕ → List A → List A
limit zero xs = []
limit (suc n) [] = []
limit (suc n) (x ∷ xs) = x ∷ limit n xs

-- `.offset(n)`
abbrev pub offset {ℓ} : {A : Type ℓ} → ℕ → List A → List A
offset zero xs = xs
offset (suc n) [] = []
offset (suc n) (x ∷ xs) = offset n xs

unfoldable pub get_block_by_height : ℤ → Store → Option BlockRow
get_block_by_height height s = first_of (filter (λ b. int_eq b.height height) s.blocks)

-- SQL applies the offset before the limit.
unfoldable pub list_blocks : ℕ → ℕ → Store → List BlockRow
list_blocks most past s = limit most (offset past (sort_by higher_first s.blocks))

-- `account_first` is the order of texts in the database.
unfoldable pub list_balances : (String → String → Bool) → Store → List CreditBalance
list_balances account_first s = sort_by (λ a b. account_first a.account b.account) s.balances
