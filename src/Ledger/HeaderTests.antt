-- ===== src/Ledger/HeaderTests.antt =====
-- A chain of two headers under a toy signature.
use deepiri_zepgpu.Ledger.LightClient.Unbound.{verify_header_chain-unbound, forged_proof, with_root}
use deepiri_zepgpu.Ledger.LightClient.Chain.{verify_header_chain_iff, Verifies}
use deepiri_zepgpu.Ledger.Block.{genesis_prev_hash}
use deepiri_zepgpu.Ledger.LightClient.{
  verify_tx_inclusion, sort_by_height, header_loop, verify_header_signatures, verify_header_chain,
  BlockHeader,
}
use deepiri_zepgpu.Base.{
  string_eq, nat_eq, ◌==◌, All, String, ◌≡◌, refl, ◌↔◌, Bool, true, none, List, [], ◌∷◌, map,
}
use deepiri_zepgpu.Base.Int.{ℤ, pos, ◌+ℤ◌}

abbrev key_signs : String → String → String → Bool
key_signs key message signature = signature == key

abbrev header : ℤ → String → String → BlockHeader
header height hash previous = record {
  height = height;
  hash = hash;
  previous_hash = previous;
  timestamp = "";
  transactions_root = "r";
  state_root = "";
  validator = "v";
  validator_signature = "v";
  approvals = [];
  finalized = true;
}

abbrev headers : List BlockHeader
headers = header (pos 6) "b" "a" ∷ header (pos 5) "a" "x" ∷ []

is_valid : (verify_header_chain key_signs ("v" ∷ []) 1 genesis_prev_hash none headers).valid ≡ true
unfolding verify_header_chain verify_header_signatures ◌+ℤ◌ header_loop
is_valid = refl

verify_header_chain-iff_example :
    ((verify_header_chain key_signs ("v" ∷ []) 1 genesis_prev_hash none headers).valid ≡ true)
    ↔ Verifies key_signs ("v" ∷ []) 1 genesis_prev_hash none (sort_by_height headers)
verify_header_chain-iff_example =
    verify_header_chain_iff key_signs ("v" ∷ []) 1 genesis_prev_hash none headers

verify_header_chain-unbound_example :
    ((verify_header_chain key_signs
        ("v" ∷ [])
        1
        genesis_prev_hash
        none
        (map (with_root "evil") headers)).valid
      ≡ true)
    × All
        (λ h. verify_tx_inclusion (λ s. s) h (forged_proof "evil") ≡ true)
        (map (with_root "evil") headers)
verify_header_chain-unbound_example =
    verify_header_chain-unbound key_signs ("v" ∷ []) 1 (λ s. s) "evil" genesis_prev_hash none
      headers is_valid
