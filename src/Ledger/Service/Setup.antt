-- ===== src/Ledger/Service/Setup.antt =====
-- deepiri_zepgpu/compute_ledger/service.py: what a `LedgerService` is given: the Ed25519 functions
-- of keys.py, hashing, `uuid4` and the clock, the columns of the tables, and `settings`.
use deepiri_zepgpu.Base.Int.{ℤ}
use deepiri_zepgpu.Base.{
  if◌then◌else◌, string_eq, nat_eq, ◌==◌, ℕ, max, String, Bool, not, Option, List, map,
}
use deepiri_zepgpu.Base.Sorting.{filter}
use deepiri_zepgpu.Base.Int.{ℤ, pos, negsuc}
use Prim.Native.String.{◌++◌ as append}
use deepiri_zepgpu.Ledger.Json.{Items, Conversions}
use deepiri_zepgpu.Ledger.Transaction.{Hashing}
use deepiri_zepgpu.Ledger.Store.{Columns}

pub record Setup : Type 0 where
  pub hashing : Hashing
  -- `canonical_json` of a list
  pub canonical_list : Items → String
  pub py : Conversions
  pub columns : Columns
  -- key, message, signature
  pub verify_signature : String → String → String → Bool
  -- private key, message
  pub sign_message : String → String → String
  pub public_key_from_private : String → String
  pub derive_keypair_from_seed : String → String × String
  -- `str(uuid4())` and `datetime.now(UTC).isoformat()` of the n-th object that is made
  pub new_id : ℕ → String
  pub now : ℕ → String
  pub chain_id : String
  pub network_id : Option String
  -- `settings.ledger.validator_private_key`, stripped; "" where it is not set
  pub validator_private_key : String
  -- `settings.auth.secret_key`
  pub secret_key : String
  -- `settings.ledger.extra_validator_private_keys`, split at its commas, each part stripped
  pub extra_private_keys : List String
  -- `int(settings.ledger.quorum_threshold)`
  pub quorum_setting : ℤ
  pub auto_seal : Bool

module _ (setup : Setup) where
  unfoldable pub quorum_threshold : ℕ
  quorum_threshold = elim setup.quorum_setting [ pos n ↦ max 1 n | negsuc n ↦ 1 ]

  unfoldable pub validator_keys : String × String
  validator_keys =
      if setup.validator_private_key == ""
      then setup.derive_keypair_from_seed
          (append setup.secret_key (append ":" (append setup.chain_id ":zepgpu-ledger-validator")))
      else (setup.validator_private_key, setup.public_key_from_private setup.validator_private_key)

  unfoldable pub extra_validator_keys : List (String × String)
  extra_validator_keys =
      map (λ priv. (priv, setup.public_key_from_private priv))
        (filter (λ priv. not (priv == "")) setup.extra_private_keys)
