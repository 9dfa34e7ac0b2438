-- ===== src/Ledger/Service/Books.antt =====
-- deepiri_zepgpu/compute_ledger/service.py: the books of a chain, which are its stored balances
-- against the transactions of its finalized blocks, and what a new row or block does to them.
pub mod Rows
pub mod Replayed
pub mod Persisted
pub mod Added
pub mod Triples
pub mod Opened
pub mod Proposed
pub mod Approved
pub mod Waiting
pub mod Served
pub mod Approvals
pub mod Requests
use deepiri_zepgpu.Base.{All, ok, String, ◌≡◌, ap, true, some}
use deepiri_zepgpu.Base.Sorting.{sort_by-SortedBy, SortedBy, filter}
use deepiri_zepgpu.Ledger.Json.{Conversions}
use deepiri_zepgpu.Ledger.Replay.{replay_transactions}
use deepiri_zepgpu.Ledger.Replay.Listing.{to_list}
use deepiri_zepgpu.Ledger.Replay.Monad.{CreditState}
use deepiri_zepgpu.Ledger.Store.{Store, Columns, lower_first, list_sealed_transactions, join_rows}
use deepiri_zepgpu.Ledger.Store.Sealing.{IsKeyed}
use deepiri_zepgpu.Ledger.Store.Sealed.{tx_of}
use deepiri_zepgpu.Ledger.Store.Chain.{filter-SortedBy, OneOpen, DistinctIds, is_final}
use deepiri_zepgpu.Ledger.Service.Books.Rows.{Placed}

-- The columns of ids print what they read: `str(UUID(str(u))) == str(u)`.
abbrev pub PrintsIds : Columns → Type 0
PrintsIds columns = (s t : String) → columns.uuid_text s ≡ some t → columns.uuid_text t ≡ some t

module _ (columns : Columns) (py : Conversions) where
  -- The rows of a chain in order: ids are distinct, blocks stand by height, only the last one may
  -- wait for its quorum, and the stored balances are those of a replay of the finalized blocks.
  pub record IsBooked (s : Store) : Type 0 where
    pub keyed : IsKeyed columns s.transactions
    pub ascending : SortedBy lower_first s.blocks
    pub one_open : OneOpen s.blocks
    pub distinct : DistinctIds s.blocks
    pub canonical : All (λ b. columns.uuid_text b.id ≡ some b.id) s.blocks
    pub placed : Placed s.blocks s.transactions
    pub replayed : CreditState
    pub replays : replay_transactions py (tx_of (list_sealed_transactions true s)) ≡ ok replayed
    pub balanced : s.balances ≡ to_list replayed

-- In a sorted chain the sealed transactions are those of the finalized blocks, one by one.
pub list_sealed_transactions-final :
    (s : Store)
    → SortedBy lower_first s.blocks
    → list_sealed_transactions true s ≡ join_rows (filter is_final s.blocks) s.transactions
unfolding list_sealed_transactions
list_sealed_transactions-final s sorted =
    ap (λ bs. join_rows bs s.transactions)
      (sort_by-SortedBy lower_first (filter is_final s.blocks) (filter-SortedBy s.blocks sorted))
