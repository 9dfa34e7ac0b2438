-- ===== src/Ledger/LightClient/Wire.antt =====
-- deepiri_zepgpu/compute_ledger/light_client.py: the dictionaries in which headers travel, from
-- `export_headers` of one node to `verify_headers_payload` of another. `approvals` stays a list of
-- dictionaries; of each, `validator` and `signature` are read.
use deepiri_zepgpu.Base.Dict.{lookup}
use deepiri_zepgpu.Base.Int.{ℤ}
use deepiri_zepgpu.Base.{
  string_eq, nat_eq, Outcome, ◌>>=◌, ok, raise, String, ◌≡◌, refl, Bool, true, ◌||◌, Option, none,
  some, [], ◌∷◌, ◌++◌,
}
use deepiri_zepgpu.Ledger.Json.{Json, null, bool, num, str, arr, Payload}
use deepiri_zepgpu.Ledger.Transaction.{Hashing}
use deepiri_zepgpu.Ledger.Block.{ComputeBlock}
use deepiri_zepgpu.Ledger.Poa.{BlockOptions, validate_block}
use deepiri_zepgpu.Ledger.Dictionary.{
  DictError, text_of, present, int_of, truth_by_default, write_items, read_list,
}
use deepiri_zepgpu.Ledger.Dictionary.RoundTrip.{read_list-write_items}
use deepiri_zepgpu.Ledger.LightClient.{
  BlockHeader, HeaderApproval, from_block, verify_header_signatures,
}
use deepiri_zepgpu.Ledger.LightClient.Agree.{verify_header_signatures-from_block}

-- A key that is there.
abbrev pub text_entry : String → Option String → Payload
text_entry k none = []
text_entry k (some s) = (k, str s) ∷ []

unfoldable pub approval_dict : HeaderApproval → Payload
approval_dict a = text_entry "validator" a.validator ++ text_entry "signature" a.signature

unfoldable pub header_to_dict : BlockHeader → Payload
unfolding approval_dict
header_to_dict h =
    ("height", num h.height)
    ∷ ("hash", str h.hash)
    ∷ ("previous_hash", str h.previous_hash)
    ∷ ("timestamp", str h.timestamp)
    ∷ ("transactions_root", str h.transactions_root)
    ∷ ("state_root", str h.state_root)
    ∷ ("validator", str h.validator)
    ∷ ("validator_signature", str h.validator_signature)
    ∷ ("approvals", arr (write_items approval_dict h.approvals))
    ∷ ("finalized", bool h.finalized)
    ∷ []

-- `approval.get(k)`: None is as good as no key.
abbrev pub optional_text : Option Json → Outcome DictError (Option String)
optional_text none = ok none
optional_text (some v) = elim v [
  | null ↦ ok none
  | str s ↦ ok (some s)
  | _ ↦ raise DictError.unread
]

unfoldable pub approval_of : Payload → Outcome DictError HeaderApproval
approval_of d = do
  validator ← optional_text (lookup "validator" d)
  signature ← optional_text (lookup "signature" d)
  ok (record { validator = validator; signature = signature })

unfoldable pub header_from_dict : (String → Option ℤ) → Payload → Outcome DictError BlockHeader
unfolding approval_of
header_from_dict parse_int d = do
  height ← present (lookup "height" d) >>= int_of parse_int
  hash ← present (lookup "hash" d) >>= text_of
  previous_hash ← present (lookup "previous_hash" d) >>= text_of
  timestamp ← present (lookup "timestamp" d) >>= text_of
  transactions_root ← present (lookup "transactions_root" d) >>= text_of
  state_root ← present (lookup "state_root" d) >>= text_of
  validator ← present (lookup "validator" d) >>= text_of
  validator_signature ← present (lookup "validator_signature" d) >>= text_of
  approvals ← read_list approval_of (lookup "approvals" d)
  ok (record {
    height = height;
    hash = hash;
    previous_hash = previous_hash;
    timestamp = timestamp;
    transactions_root = transactions_root;
    state_root = state_root;
    validator = validator;
    validator_signature = validator_signature;
    approvals = approvals;
    finalized = truth_by_default (lookup "finalized" d);
  })

approval_of-approval_dict : (a : HeaderApproval) → approval_of (approval_dict a) ≡ ok a
unfolding approval_of approval_dict
approval_of-approval_dict a = by_keys a.validator a.signature
  where
    by_keys :
        (v s : Option String)
        → approval_of (approval_dict (record { validator = v; signature = s }))
          ≡ ok (record { validator = v; signature = s })
    by_keys none none = refl
    by_keys none (some s) = refl
    by_keys (some v) none = refl
    by_keys (some v) (some s) = refl

pub header_from_dict-to_dict :
    (parse_int : String → Option ℤ) (h : BlockHeader)
    → header_from_dict parse_int (header_to_dict h) ≡ ok h
unfolding header_from_dict header_to_dict
header_from_dict-to_dict parse_int h =
    rw (read_list-write_items approval_dict approval_of approval_of-approval_dict h.approvals) refl

-- A block that passed `validate_block` with a quorum: a light client that reads its header from the
-- dictionary a full node exports gets a header, and it passes the checks of the light client for the
-- same validators and threshold.
pub exported_header-passes :
    (parse_int : String → Option ℤ) (hashing : Hashing)
    (verify_signature : String → String → String → Bool) (o : BlockOptions)
    (block block' : ComputeBlock)
    → (o.require_quorum || block.finalized) ≡ true
    → validate_block hashing verify_signature o block ≡ ok block'
    → (header : BlockHeader) × (header_from_dict parse_int (header_to_dict (from_block block'))
        ≡ ok header)
      × (verify_header_signatures verify_signature o.authorized_validators o.quorum_threshold header
          ≡ ok tt)
exported_header-passes parse_int hashing verify_signature o block block' needed accepted = (
  from_block block',
  header_from_dict-to_dict parse_int (from_block block'),
  verify_header_signatures-from_block hashing verify_signature o block block' needed accepted,
)
