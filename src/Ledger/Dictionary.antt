-- ===== src/Ledger/Dictionary.antt =====
-- deepiri_zepgpu/compute_ledger/transaction.py, block.py and merkle.py: the dictionaries in which
-- transactions, blocks and inclusion proofs travel. Python's `int` of a text is a parameter.
pub mod RoundTrip
mod Tests
use deepiri_zepgpu.Base.Dict.{lookup}
use deepiri_zepgpu.Base.Int.{ℤ, pos}
use deepiri_zepgpu.Base.{
  if◌then◌else◌, string_eq, nat_eq, ◌==◌, Outcome, ◌>>=◌, ok, raise, ℕ, String, Bool, true, Option,
  none, some, List, [], ◌∷◌,
}
use deepiri_zepgpu.Ledger.Json.{
  Json, bool, num, str, arr, obj, Items, nil, cons, Payload, to_fields, payload_of, truthy,
}
use deepiri_zepgpu.Ledger.Merkle.{MerkleProof, MerkleProofStep}
use deepiri_zepgpu.Ledger.Transaction.{TxType, ComputeTransaction, type_value}
use deepiri_zepgpu.Ledger.Block.{ComputeBlock, ValidatorApproval}

-- What reading raises; `unread` is for a value that is not of the annotated type, which Python would
-- keep as it is or fail on with another error.
pub data DictError : Type 0 where
  key_error value_error type_error unread : DictError

abbrev pub text_of : Json → Outcome DictError String
text_of v = elim v [ str s ↦ ok s | _ ↦ raise DictError.unread ]

-- `d[k]`
abbrev pub present : Option Json → Outcome DictError Json
present none = raise DictError.key_error
present (some v) = ok v

-- `d.get(k) or ""`
unfoldable pub text_or_empty : Option Json → Outcome DictError String
text_or_empty none = ok ""
text_or_empty (some v) = if truthy v then text_of v else ok ""

-- `d.get(k, default)`, of a text.
abbrev pub text_or_default : String → Option Json → Outcome DictError String
text_or_default default none = ok default
text_or_default default (some v) = text_of v

-- `bool(d.get(k, True))`
abbrev pub truth_by_default : Option Json → Bool
truth_by_default none = true
truth_by_default (some v) = truthy v

-- `dict(d.get(k) or {})`
unfoldable pub payload_or_empty : Option Json → Outcome DictError Payload
payload_or_empty none = ok []
payload_or_empty (some v) =
    if truthy v then elim v [ obj fs ↦ ok (payload_of fs) | _ ↦ raise DictError.unread ] else ok []

module _ {A : Type 0} where
  -- `[write(x) for x in xs]`
  unfoldable pub write_items : (A → Payload) → List A → Items
  write_items write [] = nil
  write_items write (x ∷ xs) = cons (obj (to_fields (write x))) (write_items write xs)

  -- `[read(d) for d in ds]`
  unfoldable pub read_items : (Payload → Outcome DictError A) → Items → Outcome DictError (List A)
  read_items read nil = ok []
  read_items read (cons v vs) = elim v [
    | obj fs ↦ read (payload_of fs) >>= λ x. read_items read vs >>= λ xs. ok (x ∷ xs)
    | _ ↦ raise DictError.unread
  ]

  -- `[read(d) for d in data.get(k) or []]`
  unfoldable pub read_list :
      (Payload → Outcome DictError A) → Option Json → Outcome DictError (List A)
  unfolding read_items
  read_list read none = ok []
  read_list read (some v) =
      if truthy v
      then elim v [ arr vs ↦ read_items read vs | _ ↦ raise DictError.unread ]
      else ok []

-- `TxType(value)`
unfoldable pub tx_type_of : Json → Outcome DictError TxType
tx_type_of v = elim v [
  | str s ↦
      if s == "JOB_SUBMITTED"
      then ok TxType.job_submitted
      else if s == "JOB_ASSIGNED"
      then ok TxType.job_assigned
      else if s == "JOB_COMPLETED"
      then ok TxType.job_completed
      else if s == "CREDIT_SETTLED"
      then ok TxType.credit_settled
      else if s == "VALIDATOR_REGISTERED"
      then ok TxType.validator_registered
      else if s == "BRIDGE_BURN"
      then ok TxType.bridge_burn
      else if s == "BRIDGE_MINT"
      then ok TxType.bridge_mint
      else raise DictError.value_error
  | _ ↦ raise DictError.value_error
]

unfoldable pub transaction_to_dict : ComputeTransaction → Payload
transaction_to_dict tx =
    ("tx_type", str (type_value tx.tx_type))
    ∷ ("sender", str tx.sender)
    ∷ ("nonce", num tx.nonce)
    ∷ ("payload", obj (to_fields tx.payload))
    ∷ ("timestamp", str tx.timestamp)
    ∷ ("id", str tx.id)
    ∷ ("signature", str tx.signature)
    ∷ []

unfoldable pub approval_to_dict : ValidatorApproval → Payload
approval_to_dict a = ("validator", str a.validator) ∷ ("signature", str a.signature) ∷ []

unfoldable pub block_to_dict : ComputeBlock → Payload
unfolding write_items
block_to_dict b =
    ("height", num b.height)
    ∷ ("previous_hash", str b.previous_hash)
    ∷ ("transactions", arr (write_items transaction_to_dict b.transactions))
    ∷ ("validator", str b.validator)
    ∷ ("timestamp", str b.timestamp)
    ∷ ("id", str b.id)
    ∷ ("transactions_root", str b.transactions_root)
    ∷ ("state_root", str b.state_root)
    ∷ ("hash", str b.hash)
    ∷ ("validator_signature", str b.validator_signature)
    ∷ ("approvals", arr (write_items approval_to_dict b.approvals))
    ∷ ("finalized", bool b.finalized)
    ∷ []

unfoldable pub step_to_dict : MerkleProofStep → Payload
step_to_dict s = ("hash", str s.hash) ∷ ("position", str s.position) ∷ []

unfoldable pub proof_to_dict : MerkleProof → Payload
proof_to_dict p =
    ("leaf", str p.leaf)
    ∷ ("index", num (pos p.index))
    ∷ ("root", str p.root)
    ∷ ("steps", arr (write_items step_to_dict p.steps))
    ∷ []

-- `str(d[k])` of a text.
unfoldable pub approval_from_dict : Payload → Outcome DictError ValidatorApproval
approval_from_dict d = do
  validator ← present (lookup "validator" d) >>= text_of
  signature ← present (lookup "signature" d) >>= text_of
  ok (record { validator = validator; signature = signature })

unfoldable pub step_from_dict : Payload → Outcome DictError MerkleProofStep
step_from_dict s = do
  hash ← present (lookup "hash" s) >>= text_of
  position ← present (lookup "position" s) >>= text_of
  ok (record { hash = hash; position = position })

module _ (parse_int : String → Option ℤ) where
  -- `int(v)`
  abbrev pub int_of : Json → Outcome DictError ℤ
  int_of v = elim v [
    | num n ↦ ok n
    | bool b ↦ ok (if b then pos 1 else pos 0)
    | str s ↦ elim (parse_int s) [ none ↦ raise DictError.value_error | some n ↦ ok n ]
    | _ ↦ raise DictError.type_error
  ]

  unfoldable pub transaction_from_dict : Payload → Outcome DictError ComputeTransaction
  unfolding tx_type_of text_or_empty payload_or_empty
  transaction_from_dict d = do
    id ← present (lookup "id" d) >>= text_of
    tx_type ← present (lookup "tx_type" d) >>= tx_type_of
    sender ← present (lookup "sender" d) >>= text_of
    nonce ← present (lookup "nonce" d) >>= int_of
    timestamp ← present (lookup "timestamp" d) >>= text_of
    payload ← payload_or_empty (lookup "payload" d)
    signature ← text_or_empty (lookup "signature" d)
    ok (record {
      tx_type = tx_type;
      sender = sender;
      nonce = nonce;
      payload = payload;
      timestamp = timestamp;
      id = id;
      signature = signature;
    })

  -- `new_id` is what `uuid4` gives.
  unfoldable pub block_from_dict : String → Payload → Outcome DictError ComputeBlock
  unfolding read_list transaction_from_dict approval_from_dict text_or_empty
  block_from_dict new_id d = do
    transactions ← read_list transaction_from_dict (lookup "transactions" d)
    approvals ← read_list approval_from_dict (lookup "approvals" d)
    id ← text_or_default new_id (lookup "id" d)
    height ← present (lookup "height" d) >>= int_of
    previous_hash ← present (lookup "previous_hash" d) >>= text_of
    timestamp ← present (lookup "timestamp" d) >>= text_of
    transactions_root ← text_or_empty (lookup "transactions_root" d)
    state_root ← text_or_empty (lookup "state_root" d)
    validator ← present (lookup "validator" d) >>= text_of
    hash ← text_or_empty (lookup "hash" d)
    validator_signature ← text_or_empty (lookup "validator_signature" d)
    ok (record {
      height = height;
      previous_hash = previous_hash;
      transactions = transactions;
      validator = validator;
      timestamp = timestamp;
      id = id;
      transactions_root = transactions_root;
      state_root = state_root;
      hash = hash;
      validator_signature = validator_signature;
      approvals = approvals;
      finalized = truth_by_default (lookup "finalized" d);
    })

  -- An index below zero, which no proof of a tree has, is `unread`.
  unfoldable pub proof_from_dict : Payload → Outcome DictError MerkleProof
  unfolding read_list step_from_dict
  proof_from_dict d = do
    steps ← read_list step_from_dict (lookup "steps" d)
    leaf ← present (lookup "leaf" d) >>= text_of
    index ← present (lookup "index" d) >>= int_of
    root ← present (lookup "root" d) >>= text_of
    index' ← elim index as (λ x. Outcome DictError ℕ) [ pos n ↦ ok n | _ ↦ raise DictError.unread ]
    ok (record { leaf = leaf; index = index'; root = root; steps = steps })
