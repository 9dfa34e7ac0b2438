-- ===== src/Scheduling/Pool/RefreshTests.antt =====
-- A refresh of vpn/gpu_pool.py with three entries, two of one share.
use deepiri_zepgpu.Base.Dict.{lookup}
use deepiri_zepgpu.Base.Int.{ℤ, pos}
use deepiri_zepgpu.Base.{
  if◌then◌else◌, string_eq, nat_eq, ◌==◌, ℕ, String, ◌≡◌, refl, ◌⊎◌, Option, none, some, List, [],
  ◌∷◌,
}
use deepiri_zepgpu.Ledger.Json.{num, str, Payload}
use deepiri_zepgpu.Scheduling.Pool.{RemoteGpuDevice, GpuPool}
use deepiri_zepgpu.Scheduling.Pool.Refresh.{RefreshError, refresh_remote_gpus}
use deepiri_zepgpu.Scheduling.Pool.Refreshed.{
  IsRaised, Reads, Fails, last_of, refresh_remote_gpus-outcome,
}
use deepiri_zepgpu.Scheduling.Pool.Typed.{IsTyped}
use deepiri_zepgpu.Scheduling.Pool.Queries.{get_total_memory_mb, get_remote_vpn_ip}

abbrev digit : String → Option ℤ
digit s = if s == "8" then some (pos 8) else if s == "6" then some (pos 6) else none

abbrev entry : String → String → ℕ → Payload
entry share capability mb =
    ("share_id", str share)
    ∷ ("compute_capability", str capability)
    ∷ ("peer_id", str "peer")
    ∷ ("device_index", num (pos 0))
    ∷ ("total_memory_mb", num (pos mb))
    ∷ ("available_memory_mb", num (pos mb))
    ∷ ("vpn_ip", str "10.0.0.2")
    ∷ []

abbrev empty_pool : GpuPool ℕ
empty_pool = record { local_manager = []; remote_devices = []; redis_state = 0 }

abbrev entries : List Payload
entries = entry "a" "8.6" 16000 ∷ entry "b" "8" 8000 ∷ entry "a" "8.6" 24000 ∷ []

abbrev refreshed : GpuPool ℕ
refreshed = (refresh_remote_gpus digit empty_pool entries).1

-- The last entry of a share counts.
total : get_total_memory_mb refreshed ≡ 32000
unfolding get_total_memory_mb refresh_remote_gpus
    deepiri_zepgpu.Scheduling.Manager.get_total_memory_mb
total = refl

found_ip : get_remote_vpn_ip refreshed "b" ≡ some "10.0.0.2"
unfolding get_remote_vpn_ip refresh_remote_gpus
found_ip = refl

bad_capability :
    (refresh_remote_gpus digit empty_pool (entry "a" "8.x" 1 ∷ [])).0
    ≡ some RefreshError.value_error
unfolding refresh_remote_gpus
bad_capability = refl

no_peer :
    (refresh_remote_gpus digit empty_pool
      ((("share_id", str "a") ∷ ("compute_capability", str "8") ∷ []) ∷ [])).0
    ≡ some RefreshError.key_error
unfolding refresh_remote_gpus
no_peer = refl

entry-IsTyped : (share capability : String) (mb : ℕ) → IsTyped (entry share capability mb)
entry-IsTyped share capability mb = record {
  share_id = refl;
  capability = refl;
  peer_id = refl;
  peer_username = refl;
  device_index = refl;
  name = refl;
  total_memory_mb = refl;
  available_memory_mb = refl;
  current_task_id = refl;
  utilization_percent = refl;
  vpn_ip = refl;
  vpn_network_id = refl;
}

refresh_remote_gpus-outcome_example :
    ((e : RefreshError) × (refresh_remote_gpus digit empty_pool entries ≡ (some e, empty_pool))
      × Fails digit entries e
      × IsRaised e)
    ⊎ ((devices : List RemoteGpuDevice) × (after : GpuPool ℕ) × (refresh_remote_gpus digit
            empty_pool entries
          ≡ (none, after))
        × Reads digit entries devices
        × ((id : String) → lookup id after.remote_devices ≡ last_of id devices)
        × (after.local_manager ≡ empty_pool.local_manager)
        × (after.redis_state ≡ empty_pool.redis_state))
refresh_remote_gpus-outcome_example = refresh_remote_gpus-outcome digit empty_pool entries (
  entry-IsTyped "a" "8.6" 16000,
  (entry-IsTyped "b" "8" 8000, (entry-IsTyped "a" "8.6" 24000, tt)),
)
