-- ===== src/Training/Live.antt =====
-- deepiri_zepgpu/training/integrity.py: the MAC that a live outer update carries in the extensions of
-- its envelope. Bytes are written as texts.
use Prim.Native.String.{◌++◌ as ◌+ₛ◌, count}
use deepiri_zepgpu.Base.Int.{ℤ, pos}
use deepiri_zepgpu.Base.{
  if◌then◌else◌, string_eq, nat_eq, ◌==◌, beq_self, Bool-cases, Outcome, ◌>>=◌, ok, raise, ℕ,
  String, ◌≡◌, subst, inl, inr, false, none, some, List, [], ◌∷◌, arith,
}
use deepiri_zepgpu.Training.Integrity.{
  UpdateIntegrityError, mac_mismatch, NeutralOuterUpdate, Digests, ReplayGuard, check, sign_update,
  verify_update_mac, verify_payload_checksum, accept_outer_update,
}
use deepiri_zepgpu.Training.Texts.{bars, behind_marker, behind_marker-append}

-- The fields of a BinaryEnvelope (training/binary.py) that are read.
pub record Envelope : Type 0 where
  pub worker_id : String
  pub round : ℕ
  pub shape : List ℤ
  pub dtype : String
  pub payload : String
  pub extensions : String

-- `raw.decode("ascii", errors="replace")` and `f"{n}"` of a number.
pub record Codecs : Type 0 where
  pub decode : String → String
  pub number_text : ℤ → String

-- `shape if shape else [len(envelope.payload)]`
abbrev pub shape_or_length : Envelope → List ℤ
shape_or_length envelope = elim envelope.shape [
  | [] ↦ pos (count envelope.payload) ∷ []
  | n ∷ ns ↦ n ∷ ns
]

module _ (digests : Digests) (codecs : Codecs) where
  -- `now` is `time.time_ns()`, the default of `created_at_ns`.
  unfoldable pub envelope_to_neutral : ℤ → Envelope → String → String → NeutralOuterUpdate
  envelope_to_neutral now envelope room_id run_id = record {
    schema_version = pos 1;
    model_revision = "live-outer";
    parameter_names = "payload" ∷ [];
    shapes = shape_or_length envelope ∷ [];
    dtype = if envelope.dtype == "" then "u8" else envelope.dtype;
    quantization = "none";
    round = envelope.round;
    worker_id = envelope.worker_id;
    run_id = run_id;
    room_id = room_id;
    payload_sha256 = digests.payload_digest envelope.payload;
    created_at_ns = now;
  }

  unfoldable pub sign_live_outer_extensions :
      ℤ → NeutralOuterUpdate → String → Outcome UpdateIntegrityError String
  sign_live_outer_extensions uncompressed_bytes update room_mac_key =
      sign_update digests room_mac_key update >>= λ mac.
      ok (codecs.number_text uncompressed_bytes +ₛ ("|mac=" +ₛ mac))

  -- `text.split("|mac=", 1)[1].strip()`, or the empty text without a marker
  unfoldable pub mac_of : Envelope → String
  mac_of envelope = elim (behind_marker "|mac=" (codecs.decode envelope.extensions)) [
    | none ↦ ""
    | some rest ↦ digests.strip rest
  ]

  unfoldable pub accept_live_outer_envelope :
      ℤ
      → Envelope
      → String
      → String
      → String
      → ReplayGuard
      → Outcome UpdateIntegrityError ReplayGuard
  unfolding mac_of
  accept_live_outer_envelope now envelope room_id run_id room_mac_key seen =
      accept_outer_update digests room_mac_key
        (record {
          update = envelope_to_neutral now envelope room_id run_id;
          payload = envelope.payload;
          mac_hex = mac_of envelope;
          expected_quantization = none;
        })
        seen

  -- What these texts are like: numbers have no bar, ASCII is decoded as it is, and a digest has no
  -- blanks around it.
  pub record CodecLaws : Type 0 where
    pub bars-number_text : (n : ℤ) → bars (codecs.number_text n) ≡ 0
    pub decode_signed :
        (n : ℤ) (key message : String)
        → codecs.decode (codecs.number_text n +ₛ ("|mac=" +ₛ digests.hmac_hex key message))
          ≡ codecs.number_text n +ₛ ("|mac=" +ₛ digests.hmac_hex key message)
    pub strip-hmac_hex :
        (key message : String)
        → digests.strip (digests.hmac_hex key message) ≡ digests.hmac_hex key message

  -- The MAC of an envelope at a time.
  abbrev pub mac_at : ℤ → Envelope → String → String → String → String
  mac_at now envelope room_id run_id room_mac_key =
      digests.hmac_hex room_mac_key
        (digests.canonical_update_bytes (envelope_to_neutral now envelope room_id run_id))

  pub mac_of-signed :
      CodecLaws
      → (n : ℤ) (envelope : Envelope) (key message : String)
      → mac_of (record envelope {
        extensions = codecs.number_text n +ₛ ("|mac=" +ₛ digests.hmac_hex key message);
      })
        ≡ digests.hmac_hex key message
  unfolding mac_of
  mac_of-signed laws n envelope key message =
      rw
        (
          mac_of,
          laws.decode_signed n key message,
          behind_marker-append (codecs.number_text n) (digests.hmac_hex key message)
              (laws.bars-number_text n),
        )
        (laws.strip-hmac_hex key message)

  -- An envelope that is signed when the clock shows `sent`, under a key that is not blank, and checked
  -- when it shows `received`: the MAC that the receiver computes is over its own time, so the update
  -- goes on to the guard if the MACs at the two times are the same, and is refused otherwise.
  pub accept_live_outer_envelope-signed :
      CodecLaws
      → (n sent received : ℤ) (envelope : Envelope)
        (room_id run_id room_mac_key extensions : String) (seen : ReplayGuard)
      → (digests.strip room_mac_key == "") ≡ false
      → sign_live_outer_extensions n (envelope_to_neutral sent envelope room_id run_id) room_mac_key
        ≡ ok extensions
      → accept_live_outer_envelope received
          (record envelope { extensions = extensions })
          room_id
          run_id
          room_mac_key
          seen
        ≡ (if mac_at received envelope room_id run_id room_mac_key
              == mac_at sent envelope room_id run_id room_mac_key
            then check
                (envelope_to_neutral received envelope room_id run_id)
                (mac_at sent envelope room_id run_id room_mac_key)
                seen
            else raise mac_mismatch)
  unfolding accept_live_outer_envelope accept_outer_update verify_payload_checksum verify_update_mac
      sign_update sign_live_outer_extensions envelope_to_neutral
  accept_live_outer_envelope-signed laws n sent received envelope room_id run_id room_mac_key
        extensions seen filled signed =
      subst goal text
        (elim (Bool-cases (mac_at received envelope room_id run_id room_mac_key == mac)) [
          | inl same ↦ rw (
            mac_of-signed laws n envelope room_mac_key message,
            beq_self (digests.payload_digest envelope.payload),
            filled,
            same,
          )
          | inr other ↦ rw (
            mac_of-signed laws n envelope room_mac_key message,
            beq_self (digests.payload_digest envelope.payload),
            filled,
            other,
          )
        ])
    where
      message : String
      message = digests.canonical_update_bytes (envelope_to_neutral sent envelope room_id run_id)

      mac : String
      mac = mac_at sent envelope room_id run_id room_mac_key

      goal : String → Type 0
      goal ext =
          accept_live_outer_envelope received (record envelope { extensions = ext }) room_id run_id
            room_mac_key seen
          ≡ (if mac_at received envelope room_id run_id room_mac_key == mac
              then check (envelope_to_neutral received envelope room_id run_id) mac seen
              else raise mac_mismatch)

      text : (codecs.number_text n +ₛ ("|mac=" +ₛ mac)) ≡ extensions
      text = let h = rw filled at signed in ground (arith, h)
