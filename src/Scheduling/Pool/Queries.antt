-- ===== src/Scheduling/Pool/Queries.antt =====
-- deepiri_zepgpu/vpn/gpu_pool.py: the queries of the pool.
use deepiri_zepgpu.Base.Dict.{lookup, values}
use deepiri_zepgpu.Base.{
  if◌then◌else◌, string_eq, nat_eq, ◌==◌, ℕ, ◌+◌, String, Bool, not, ◌&&◌, Option, none, some, List,
  ◌++◌, map,
}
use deepiri_zepgpu.Scheduling.Manager
use deepiri_zepgpu.Scheduling.Manager.{sum_over}
use deepiri_zepgpu.Scheduling.Pool.{RemoteGpuDevice, Found, local, remote, GpuPool}

module _ {S : Type 0} (pool : GpuPool S) where
  -- `share_id` is None for a local device, as is `is_remote` false.
  unfoldable pub get_device : ℕ → Bool → Option String → Option Found
  get_device device_id is_remote share_id =
      let here : Option Found = elim (Manager.get_device pool.local_manager device_id) [
        | none ↦ none
        | some d ↦ some (local d)
      ] in
      elim share_id [
        | none ↦ here
        | some share ↦
            if is_remote && not (share == "")
            then elim (lookup share pool.remote_devices) [ none ↦ none | some d ↦ some (remote d) ]
            else here
      ]

  unfoldable pub list_devices : List Found
  list_devices =
      map local (Manager.list_devices pool.local_manager) ++ map remote (values pool.remote_devices)

  unfoldable pub get_total_memory_mb : ℕ
  get_total_memory_mb =
      Manager.get_total_memory_mb pool.local_manager
      + sum_over (λ (d : RemoteGpuDevice). d.total_memory_mb) (values pool.remote_devices)

  unfoldable pub get_available_memory_mb : ℕ
  get_available_memory_mb =
      Manager.get_available_memory_mb pool.local_manager
      + sum_over (λ (d : RemoteGpuDevice). d.available_memory_mb) (values pool.remote_devices)

  unfoldable pub get_remote_vpn_ip : String → Option String
  get_remote_vpn_ip share_id = elim (lookup share_id pool.remote_devices) [
    | none ↦ none
    | some d ↦ some d.vpn_ip
  ]
