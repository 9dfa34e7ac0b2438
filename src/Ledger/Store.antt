-- ===== src/Ledger/Store.antt =====
-- deepiri_zepgpu/database/repositories/ledger_repository.py and the tables of
-- database/models/ledger.py: the rows of one chain. Every query but the ones by a block's hash and
-- by an id has `chain_id == …`; those are unique in the tables. A column of ids or of times gives
-- back the text that `Columns` says. Pending rows are listed in the order they were added.
use deepiri_zepgpu.Ledger.Poa.{int_eq}
use deepiri_zepgpu.Base.Dict.{is_some}
use deepiri_zepgpu.Base.Int.{ltb_ℤ, negsuc, leb_ℤ, ℤ}
pub mod Sealing
pub mod Sealed
pub mod Chain
pub mod Listings
pub mod Pages
pub mod Found
mod Tests
use deepiri_zepgpu.Base.{
  leb, if◌then◌else◌, string_eq, nat_eq, ◌==◌, any, Outcome, ◌>>=◌, ◌>>◌, raise_if, ok, raise, ℕ,
  ◌+◌, String, Bool, true, false, not, ◌&&◌, ◌||◌, Option, none, some, List, [], ◌∷◌, ◌++◌, map,
}
use deepiri_zepgpu.Base.Sorting.{filter, sort_by}
use deepiri_zepgpu.Ledger.Transaction.{ComputeTransaction, tx_hash, Hashing}
use deepiri_zepgpu.Ledger.Block.{ValidatorApproval}
use deepiri_zepgpu.Ledger.Replay.Monad.{CreditBalance}

pub record ValidatorRow : Type 0 where
  pub public_key : String
  pub label : String
  pub is_active : Bool

-- A `LedgerTransaction`: what `_row_to_tx` reads is `tx`.
pub record TxRow : Type 0 where
  pub tx : ComputeTransaction
  pub hash : String
  pub block_id : Option String
  pub position : Option ℕ

-- A `LedgerBlock`, without its relation to the transactions.
pub record BlockRow : Type 0 where
  pub id : String
  pub height : ℤ
  pub hash : String
  pub previous_hash : String
  pub timestamp : String
  pub transactions_root : String
  pub state_root : String
  pub validator_public_key : String
  pub validator_signature : String
  pub approvals : List ValidatorApproval
  pub finalized : Bool

-- The rows of one chain.
pub record Store : Type 0 where
  pub validators : List ValidatorRow
  pub blocks : List BlockRow
  pub transactions : List TxRow
  pub balances : List CreditBalance

-- What is read back of a text that was stored as a UUID or as a time: the text that the column
-- prints; `none` where the text is no UUID or no time.
pub record Columns : Type 0 where
  pub uuid_text : String → Option String
  pub time_text : String → Option String

-- What a failed statement raises: ValueError of a conversion, IntegrityError of a constraint.
pub data StoreError : Type 0 where
  bad_value integrity_error : StoreError

abbrev pub stored : Option String → Outcome StoreError String
stored none = raise bad_value
stored (some s) = ok s

-- `sorted(…, key=height)` ascending and descending
abbrev pub lower_first : BlockRow → BlockRow → Bool
lower_first a b = leb_ℤ a.height b.height

abbrev pub higher_first : BlockRow → BlockRow → Bool
higher_first a b = leb_ℤ b.height a.height

-- `.limit(1)` and `scalar_one_or_none()`
abbrev pub first_of {ℓ} : {A : Type ℓ} → List A → Option A
first_of [] = none
first_of (x ∷ xs) = some x

unfoldable pub get_active_validators : Store → List ValidatorRow
get_active_validators s = filter (λ v. v.is_active) s.validators

-- The row of `public_key` becomes active under `label`; without one, a row is added.
unfoldable pub upsert_row : String → String → List ValidatorRow → List ValidatorRow
upsert_row public_key label [] =
    record { public_key = public_key; label = label; is_active = true } ∷ []
upsert_row public_key label (v ∷ vs) =
    if v.public_key == public_key
    then record v { is_active = true; label = label } ∷ vs
    else v ∷ upsert_row public_key label vs

unfoldable pub upsert_validator : String → String → Store → Store
unfolding upsert_row
upsert_validator public_key label s = record s {
  validators = upsert_row public_key label s.validators;
}

unfoldable pub get_tip : Bool → Store → Option BlockRow
get_tip finalized_only s =
    first_of (
      sort_by higher_first
        (if finalized_only then filter (λ b. b.finalized) s.blocks else s.blocks))

unfoldable pub get_unfinalized_tip : Store → Option BlockRow
get_unfinalized_tip s = first_of (sort_by higher_first (filter (λ b. not b.finalized) s.blocks))

unfoldable pub get_block_by_hash : String → Store → Option BlockRow
get_block_by_hash block_hash s = first_of (filter (λ b. b.hash == block_hash) s.blocks)

unfoldable pub list_all_blocks_ascending : Store → List BlockRow
list_all_blocks_ascending s = sort_by lower_first s.blocks

unfoldable pub list_pending_transactions : Store → List TxRow
list_pending_transactions s = filter (λ r. not (is_some r.block_id)) s.transactions

-- `func.max`, with -1 where no row is left.
unfoldable pub max_nonce : String → List TxRow → ℤ
max_nonce sender [] = negsuc 0
max_nonce sender (r ∷ rows) =
    let rest = max_nonce sender rows in
    if r.tx.sender == sender then (if ltb_ℤ rest r.tx.nonce then r.tx.nonce else rest) else rest

unfoldable pub get_max_nonce : String → Store → ℤ
unfolding max_nonce
get_max_nonce sender s = max_nonce sender s.transactions

-- The primary key and the two unique constraints of `ledger_transactions`.
unfoldable pub clashes : TxRow → TxRow → Bool
clashes new r =
    (r.tx.id == new.tx.id)
    || ((r.hash == new.hash) || ((r.tx.sender == new.tx.sender) && int_eq r.tx.nonce new.tx.nonce))

-- `update(LedgerTransaction).where(id == tx_id).values(block_id, position)`
unfoldable pub seal_row : String → ℕ → String → List TxRow → List TxRow
seal_row block_id position tx_id rows =
    map
      (λ r.
        if r.tx.id == tx_id
        then record r { block_id = some block_id; position = some position }
        else r)
      rows

module _ (columns : Columns) (hashing : Hashing) where
  unfoldable pub add_pending_transaction : ComputeTransaction → Store → Outcome StoreError Store
  unfolding clashes
  add_pending_transaction tx s = do
    id ← stored (columns.uuid_text tx.id)
    timestamp ← stored (columns.time_text tx.timestamp)
    let row : TxRow = record {
      tx = record tx { id = id; timestamp = timestamp };
      hash = tx_hash hashing tx;
      block_id = none;
      position = none;
    }
    raise_if (any (clashes row) s.transactions) integrity_error
    ok (record s { transactions = s.transactions ++ row ∷ [] })

module _ (columns : Columns) where
  unfoldable pub update_block_approvals :
      String → List ValidatorApproval → Bool → Store → Outcome StoreError Store
  update_block_approvals block_id approvals finalized s = do
    id ← stored (columns.uuid_text block_id)
    ok (record s {
      blocks =
          map
            (λ b.
              if b.id == id then record b { approvals = approvals; finalized = finalized } else b)
            s.blocks;
    })

  -- The loop of `create_block` over `tx_ids_in_order`, from a position on.
  unfoldable pub seal_rows : String → ℕ → List String → List TxRow → Outcome StoreError (List TxRow)
  unfolding seal_row
  seal_rows block_id position [] rows = ok rows
  seal_rows block_id position (tx_id ∷ tx_ids) rows = do
    id ← stored (columns.uuid_text tx_id)
    seal_rows block_id (position + 1) tx_ids (seal_row block_id position id rows)

  unfoldable pub create_block : BlockRow → List String → Store → Outcome StoreError Store
  unfolding seal_rows
  create_block block tx_ids_in_order s = do
    raise_if
        (any (λ b. (b.id == block.id) || ((b.hash == block.hash) || int_eq b.height block.height))
          s.blocks)
        integrity_error
    rows ← seal_rows block.id 0 tx_ids_in_order s.transactions
    ok (record s { blocks = s.blocks ++ block ∷ []; transactions = rows })

unfoldable pub replace_balances : List CreditBalance → Store → Store
replace_balances balances s = record s { balances = balances }

unfoldable pub get_balance : String → Store → Option CreditBalance
get_balance account s = first_of (filter (λ b. b.account == account) s.balances)

-- The rows of a block stand by position.
abbrev pub position_first : Option ℕ → Option ℕ → Bool
position_first none b = true
position_first (some i) none = false
position_first (some i) (some j) = leb i j

unfoldable pub in_position : TxRow → TxRow → Bool
in_position a b = position_first a.position b.position

abbrev pub is_in : String → TxRow → Bool
is_in block_id r = elim r.block_id [ none ↦ false | some i ↦ i == block_id ]

unfoldable pub block_transactions : String → List TxRow → List TxRow
unfolding in_position
block_transactions block_id rows = sort_by in_position (filter (is_in block_id) rows)

-- The rows of each block in turn: the join, ordered by height and position.
unfoldable pub join_rows : List BlockRow → List TxRow → List TxRow
unfolding block_transactions
join_rows [] rows = []
join_rows (b ∷ blocks) rows = block_transactions b.id rows ++ join_rows blocks rows

unfoldable pub list_sealed_transactions : Bool → Store → List TxRow
unfolding join_rows
list_sealed_transactions finalized_only s =
    join_rows
      (sort_by lower_first
        (if finalized_only then filter (λ b. b.finalized) s.blocks else s.blocks))
      s.transactions
