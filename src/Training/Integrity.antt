-- ===== src/Training/Integrity.antt =====
-- deepiri_zepgpu/training/integrity.py: outer updates, their MAC and the guard against replays. The
-- digests, the MAC and the JSON text are parameters; bytes are written as texts. FileReplayGuard and
-- the mapping of envelopes are not modelled.
use deepiri_zepgpu.Base.Int.{ℤ}
use deepiri_zepgpu.Base.Dict.{Dict, lookup, insert}
use deepiri_zepgpu.Base.Sorting.{filter}
use deepiri_zepgpu.Base.{
  if◌then◌else◌, Key, string_eq, nat_eq, ◌==◌, length, Outcome, ◌>>=◌, ◌>>◌, raise_if, ok, raise, ℕ,
  String, ◌≡◌, ◌↔◌, Bool, true, false, not, ◌&&◌, Option, none, some, List, [], ◌∷◌, arith,
}

pub data UpdateIntegrityError : Type 0 where
  names_shapes_mismatch heterogeneous_quantization checksum_mismatch : UpdateIntegrityError
  empty_key mac_mismatch conflicting_replay : UpdateIntegrityError

pub record NeutralOuterUpdate : Type 0 where
  pub schema_version : ℤ
  pub model_revision : String
  pub parameter_names : List String
  pub shapes : List (List ℤ)
  pub dtype : String
  pub quantization : String
  pub round : ℕ
  pub worker_id : String
  pub run_id : String
  pub room_id : String
  pub payload_sha256 : String
  pub created_at_ns : ℤ

-- `hashlib`, `hmac`, `json.dumps` of the sorted model and `str.strip`.
pub record Digests : Type 0 where
  pub payload_digest : String → String
  pub canonical_update_bytes : NeutralOuterUpdate → String
  pub hmac_hex : String → String → String
  pub strip : String → String

-- `(run_id, round, worker_id)`
pub record Triple : Type 0 where
  pub run_id : String
  pub round : ℕ
  pub worker_id : String

abbrev pub same_triple : Triple → Triple → Bool
same_triple a b = (a.run_id == b.run_id) && ((a.round == b.round) && (a.worker_id == b.worker_id))

pub same_triple_iff : (a b : Triple) → (a ≡ b) ↔ (same_triple a b ≡ true)
same_triple_iff a b = ground (
  arith,
  string_eq.same_iff a.run_id b.run_id,
  nat_eq.same_iff a.round b.round,
  string_eq.same_iff a.worker_id b.worker_id,
)

instance abbrev pub triple_eq : Key Triple
triple_eq = record { same = same_triple; same_iff = same_triple_iff }

abbrev pub triple_of : NeutralOuterUpdate → Triple
triple_of update = record {
  run_id = update.run_id;
  round = update.round;
  worker_id = update.worker_id;
}

-- `ReplayGuard._seen`
abbrev pub ReplayGuard : Type 0
ReplayGuard = Dict Triple String

-- `check`: an update that was seen with the same MAC is let through.
unfoldable pub check :
    NeutralOuterUpdate → String → ReplayGuard → Outcome UpdateIntegrityError ReplayGuard
check update mac_hex seen = elim (lookup (triple_of update) seen) [
  | none ↦ ok (insert (triple_of update) mac_hex seen)
  | some previous ↦ if previous == mac_hex then ok seen else raise conflicting_replay
]

unfoldable pub forget_run : String → ReplayGuard → ℕ × ReplayGuard
forget_run run_id seen = (
  length (filter (λ (entry : Triple × String). entry.0.run_id == run_id) seen),
  filter (λ (entry : Triple × String). not (entry.0.run_id == run_id)) seen,
)

-- `expected_quantization is not None and …`
abbrev pub is_heterogeneous : Option String → NeutralOuterUpdate → Bool
is_heterogeneous none update = false
is_heterogeneous (some expected) update = not (update.quantization == expected)

-- What a worker sends, and the quantization that the room expects.
pub record Submission : Type 0 where
  pub update : NeutralOuterUpdate
  pub payload : String
  pub mac_hex : String
  pub expected_quantization : Option String

module _ (digests : Digests) (room_mac_key : String) where
  unfoldable pub sign_update : NeutralOuterUpdate → Outcome UpdateIntegrityError String
  sign_update update =
      raise_if (digests.strip room_mac_key == "") empty_key
      >> ok (digests.hmac_hex room_mac_key (digests.canonical_update_bytes update))

  unfoldable pub verify_update_mac :
      NeutralOuterUpdate → String → Outcome UpdateIntegrityError (Unit {0})
  unfolding sign_update
  verify_update_mac update mac_hex =
      sign_update update >>= λ expected. raise_if (not (expected == mac_hex)) mac_mismatch

  unfoldable pub verify_payload_checksum :
      NeutralOuterUpdate → String → Outcome UpdateIntegrityError (Unit {0})
  verify_payload_checksum update payload =
      raise_if (not (digests.payload_digest payload == update.payload_sha256)) checksum_mismatch

  -- The guard after the update is accepted.
  unfoldable pub accept_outer_update :
      Submission → ReplayGuard → Outcome UpdateIntegrityError ReplayGuard
  unfolding check verify_update_mac verify_payload_checksum
  accept_outer_update s seen =
      raise_if (not (length s.update.parameter_names == length s.update.shapes))
        names_shapes_mismatch
      >> raise_if (is_heterogeneous s.expected_quantization s.update) heterogeneous_quantization
      >> verify_payload_checksum s.update s.payload
      >> verify_update_mac s.update s.mac_hex
      >> check s.update s.mac_hex seen

  -- Submissions in order: those that were accepted, and the guard.
  unfoldable pub accept_all : List Submission → ReplayGuard → List Submission × ReplayGuard
  unfolding accept_outer_update
  accept_all [] seen = ([], seen)
  accept_all (s ∷ rest) seen = elim (accept_outer_update s seen) [
    | ok seen' ↦ let (accepted, final) = accept_all rest seen' in (s ∷ accepted, final)
    | raise e ↦ accept_all rest seen
  ]
