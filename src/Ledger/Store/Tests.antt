-- ===== src/Ledger/Store/Tests.antt =====
-- The queries of database/repositories/ledger_repository.py on a small chain.
use deepiri_zepgpu.Base.{
  string_eq, nat_eq, ◌==◌, ok, ℕ, String, ◌≡◌, refl, ◌≢◌, true, false, none, some, [], ◌∷◌, arith,
}
use mathlib.Core.List.{Perm}
use deepiri_zepgpu.Base.Int.{ℤ, pos}
use deepiri_zepgpu.Base.Sorting.{SortedBy}
use deepiri_zepgpu.Ledger.Poa.{int_eq}
use deepiri_zepgpu.Ledger.Replay.Monad.{CreditBalance}
use deepiri_zepgpu.Ledger.Store.{
  BlockRow, Store, Columns, higher_first, create_block, seal_rows, get_block_by_hash,
}
use deepiri_zepgpu.Ledger.Store.Listings.{get_block_by_height, list_blocks, list_balances}
use deepiri_zepgpu.Ledger.Store.Pages.{read_pages, read_pages-all}
use deepiri_zepgpu.Ledger.Store.Found.{create_block-found}

-- A row whose hash is its id.
abbrev row : String → ℕ → BlockRow
row id height = record {
  id = id;
  height = pos height;
  hash = id;
  previous_hash = "";
  timestamp = "now";
  transactions_root = "";
  state_root = "";
  validator_public_key = "relay";
  validator_signature = "relay";
  approvals = [];
  finalized = true;
}

abbrev balance : String → ℕ → CreditBalance
balance account seconds = record {
  account = account;
  credit_seconds = pos seconds;
  debit_seconds = pos 0;
}

abbrev chain : Store
chain = record {
  validators = [];
  blocks = row "a" 0 ∷ row "b" 1 ∷ row "c" 2 ∷ [];
  transactions = [];
  balances = balance "x" 3 ∷ balance "w" 1 ∷ [];
}

abbrev columns : Columns
columns = record { uuid_text = some; time_text = some }

second_page : list_blocks 2 2 chain ≡ row "a" 0 ∷ []
unfolding list_blocks
second_page = refl

no_such_height : get_block_by_height (pos 9) chain ≡ none
unfolding get_block_by_height
no_such_height = refl

in_order : list_balances (λ a b. a == "w") chain ≡ balance "w" 1 ∷ balance "x" 3 ∷ []
unfolding list_balances
in_order = refl

read_pages-all_example :
    SortedBy higher_first (read_pages 2 2 0 chain) × Perm (read_pages 2 2 0 chain) chain.blocks
read_pages-all_example = read_pages-all 2 2 chain (omega arith)

abbrev longer : Store
longer = record chain { blocks = row "a" 0 ∷ row "b" 1 ∷ row "c" 2 ∷ row "d" 3 ∷ [] }

fourth_added : create_block columns (row "d" 3) [] chain ≡ ok longer
unfolding create_block seal_rows
fourth_added = refl

create_block-found_example :
    (get_block_by_height (pos 3) longer ≡ some (row "d" 3))
    × (get_block_by_hash "d" longer ≡ some (row "d" 3))
    × ((height : ℤ)
        → int_eq (pos 3) height ≡ false
        → get_block_by_height height longer ≡ get_block_by_height height chain)
    × ((block_hash : String)
        → "d" ≢ block_hash
        → get_block_by_hash block_hash longer ≡ get_block_by_hash block_hash chain)
create_block-found_example = create_block-found columns (row "d" 3) [] chain longer fourth_added
