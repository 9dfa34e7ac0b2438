-- ===== src/Ledger/Replay/Listing.antt =====
-- deepiri_zepgpu/compute_ledger/replay.py: the balances in the order of their accounts, and their
-- hash. `canonical_json` of a list is a parameter, as that of a dictionary is in `Hashing`.
use deepiri_zepgpu.Base.Dict.{values}
use deepiri_zepgpu.Base.{String, Bool, List, [], ◌∷◌}
use deepiri_zepgpu.Base.Sorting.{sort_by}
use Prim.Native.String.{compare}
use text.Mathlib.Text.{is_le}
use deepiri_zepgpu.Ledger.Json.{end, num, str, field, obj, cons, nil, Items}
use deepiri_zepgpu.Ledger.Replay.Monad.{CreditBalance, CreditState}

-- `sorted(…, key=lambda x: x.account)`
unfoldable pub by_account : CreditBalance → CreditBalance → Bool
by_account a b = is_le (compare a.account b.account)

-- `CreditState.to_list`; the net seconds of an entry follow from the other two.
unfoldable pub to_list : CreditState → List CreditBalance
unfolding by_account
to_list state = sort_by by_account (values state.balances)

-- The list `rows` of `state_root`.
unfoldable pub balance_rows : List CreditBalance → Items
balance_rows [] = nil
balance_rows (b ∷ bs) =
    cons
      (obj (
        field "account" (str b.account) (
          field "credit_seconds" (num b.credit_seconds)
            (field "debit_seconds" (num b.debit_seconds) end))))
      (balance_rows bs)

unfoldable pub state_root : (Items → String) → (String → String) → CreditState → String
unfolding to_list balance_rows
state_root canonical_json sha256_hex state =
    sha256_hex (canonical_json (balance_rows (to_list state)))
