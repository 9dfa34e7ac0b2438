-- ===== src/Training/Tests.antt =====
-- Updates under a toy MAC, the key followed by the quantization.
use Prim.Native.String.{◌++◌ as append}
use deepiri_zepgpu.Base.Int.{pos}
use deepiri_zepgpu.Base.{String, ◌≡◌, refl, none, List, [], ◌∷◌}
use deepiri_zepgpu.Training.Integrity.{
  Digests, Submission, check, sign_update, verify_update_mac, verify_payload_checksum,
  accept_outer_update, accept_all,
}
use deepiri_zepgpu.Training.Unique.{accept_all_unique}

abbrev toy_digests : Digests
toy_digests = record {
  payload_digest = λ p. p;
  canonical_update_bytes = λ u. u.quantization;
  hmac_hex = append;
  strip = λ s. s;
}

abbrev outer : String → Submission
outer quantization = record {
  update = record {
    schema_version = pos 1;
    model_revision = "live-outer";
    parameter_names = "payload" ∷ [];
    shapes = (pos 4 ∷ []) ∷ [];
    dtype = "u8";
    quantization = quantization;
    round = 2;
    worker_id = "w";
    run_id = "r";
    room_id = "room";
    payload_sha256 = "data";
    created_at_ns = pos 7;
  };
  payload = "data";
  mac_hex = append "k" quantization;
  expected_quantization = none;
}

-- The retry is let through, the other update of the same round is not.
abbrev outers : List Submission
outers = outer "none" ∷ outer "int8" ∷ outer "none" ∷ []

abbrev mac_text : Submission → String
mac_text s = toy_digests.hmac_hex "k" (toy_digests.canonical_update_bytes s.update)

accept_all_unique_example : mac_text (outer "none") ≡ mac_text (outer "none")
unfolding accept_all accept_outer_update check verify_update_mac verify_payload_checksum sign_update
accept_all_unique_example =
    accept_all_unique toy_digests "k" outers [] 0 1 (outer "none") (outer "none") refl refl refl

outers-accepted : (accept_all toy_digests "k" outers []).0 ≡ outer "none" ∷ outer "none" ∷ []
unfolding accept_all accept_outer_update check verify_update_mac verify_payload_checksum sign_update
outers-accepted = refl
