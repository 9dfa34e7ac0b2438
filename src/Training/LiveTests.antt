-- ===== src/Training/LiveTests.antt =====
-- A live update under a toy MAC, which is the key and the time.
use Prim.Native.String.{◌++◌ as append}
use deepiri_zepgpu.Base.Int.{ℤ, pos, negsuc}
use deepiri_zepgpu.Base.{if◌then◌else◌, string_eq, nat_eq, ◌==◌, raise, String, ◌≡◌, refl, [], ◌∷◌}
use deepiri_zepgpu.Training.Integrity.{UpdateIntegrityError, Digests, sign_update}
use deepiri_zepgpu.Training.Live.{
  Envelope, Codecs, CodecLaws, envelope_to_neutral, sign_live_outer_extensions,
  accept_live_outer_envelope, accept_live_outer_envelope-signed,
}

abbrev clock_text : ℤ → String
clock_text (pos n) = if n == 7 then "seven" else "other"
clock_text (negsuc n) = "before"

abbrev toy_digests : Digests
toy_digests = record {
  payload_digest = λ p. p;
  canonical_update_bytes = λ u. clock_text u.created_at_ns;
  hmac_hex = append;
  strip = λ s. s;
}

abbrev toy_codecs : Codecs
toy_codecs = record { decode = λ s. s; number_text = λ n. "4" }

toy-CodecLaws : CodecLaws toy_digests toy_codecs
toy-CodecLaws = record {
  bars-number_text = λ n. refl;
  decode_signed = λ n key message. refl;
  strip-hmac_hex = λ key message. refl;
}

abbrev outer_delta : Envelope
outer_delta = record {
  worker_id = "w";
  round = 2;
  shape = pos 4 ∷ [];
  dtype = "uint8";
  payload = "data";
  extensions = "4";
}

-- The clock goes on by one between the signature and the check: the update is refused.
accept_live_outer_envelope-signed_example :
    accept_live_outer_envelope toy_digests toy_codecs
      (pos 8)
      (record outer_delta { extensions = "4|mac=kseven" })
      "room"
      "run"
      "k"
      []
    ≡ raise UpdateIntegrityError.mac_mismatch
unfolding sign_live_outer_extensions sign_update envelope_to_neutral
accept_live_outer_envelope-signed_example =
    accept_live_outer_envelope-signed toy_digests toy_codecs toy-CodecLaws (pos 4) (pos 7) (pos 8)
      outer_delta "room" "run" "k" "4|mac=kseven" [] refl refl
