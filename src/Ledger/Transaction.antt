-- ===== src/Ledger/Transaction.antt =====
-- deepiri_zepgpu/compute_ledger/transaction.py and hashing.py. `json.dumps` (with sorted keys) and
-- hashlib stand behind `Hashing`.
use deepiri_zepgpu.Base.{String, [], ◌∷◌}
use deepiri_zepgpu.Base.Int.{ℤ}
use deepiri_zepgpu.Ledger.Json.{Payload, num, str, obj, to_fields}

pub data TxType : Type 0 where
  job_submitted job_assigned job_completed credit_settled : TxType
  validator_registered bridge_burn bridge_mint : TxType

-- `tx_type.value`
abbrev pub type_value : TxType → String
type_value job_submitted = "JOB_SUBMITTED"
type_value job_assigned = "JOB_ASSIGNED"
type_value job_completed = "JOB_COMPLETED"
type_value credit_settled = "CREDIT_SETTLED"
type_value validator_registered = "VALIDATOR_REGISTERED"
type_value bridge_burn = "BRIDGE_BURN"
type_value bridge_mint = "BRIDGE_MINT"

pub record ComputeTransaction : Type 0 where
  pub tx_type : TxType
  pub sender : String
  pub nonce : ℤ
  pub payload : Payload
  pub timestamp : String
  pub id : String
  pub signature : String

-- The dictionary that is hashed and signed.
abbrev pub signing_payload : ComputeTransaction → Payload
signing_payload tx =
    ("id", str tx.id)
    ∷ ("tx_type", str (type_value tx.tx_type))
    ∷ ("sender", str tx.sender)
    ∷ ("nonce", num tx.nonce)
    ∷ ("timestamp", str tx.timestamp)
    ∷ ("payload", obj (to_fields tx.payload))
    ∷ []

-- `canonical_json` and `sha256_hex`, on the texts and dictionaries that the ledger hashes.
pub record Hashing : Type 0 where
  pub canonical_json : Payload → String
  pub sha256_hex : String → String

-- `ComputeTransaction.compute_hash`
unfoldable pub tx_hash : Hashing → ComputeTransaction → String
tx_hash hashing tx = hashing.sha256_hex (hashing.canonical_json (signing_payload tx))
