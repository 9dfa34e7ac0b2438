-- ===== src/Scheduling/Pool.antt =====
-- deepiri_zepgpu/vpn/gpu_pool.py: the pool of the local GPUs and those of VPN peers. Temperature, power
-- and the time of the last update, which no operation reads, are left out.
pub mod Best
pub mod Suits
pub mod Find
pub mod Exclusive
pub mod Refresh
pub mod Typed
pub mod Refreshed
pub mod Queries
mod RefreshTests
use deepiri_zepgpu.Base.{
  ltb, leb, if◌then◌else◌, string_eq, nat_eq, ◌==◌, ℕ, String, Bool, true, false, not, ◌&&◌, ◌||◌,
  Option, none, some, List, [], ◌∷◌,
}
use deepiri_zepgpu.Base.Int.{ℤ}
use deepiri_zepgpu.Base.Dict.{Dict, lookup, insert, values}
use deepiri_zepgpu.Scheduling.Device.{
  GpuDevice, GpuType, GpuState, allocated, idle, is_idle, has_type,
}
use deepiri_zepgpu.Scheduling.Manager
use deepiri_zepgpu.Scheduling.Manager.{GpuManager}
use deepiri_zepgpu.Scheduling.Lock.{Redis, acquire, release_lock}

-- The utilization is a whole number here.
pub record RemoteGpuDevice : Type 0 where
  pub peer_id : String
  pub peer_username : String
  pub share_id : String
  pub device_index : ℕ
  pub name : String
  pub gpu_type : GpuType
  pub total_memory_mb : ℕ
  pub available_memory_mb : ℕ
  pub compute_capability : ℤ × ℤ
  pub state : GpuState
  pub current_task_id : Option String
  pub utilization_percent : ℕ
  pub vpn_ip : String
  pub vpn_network_id : String

module _ (d : RemoteGpuDevice) where
  unfoldable pub can_allocate_remote : ℕ → Bool
  can_allocate_remote required_memory_mb =
      is_idle d.state && leb required_memory_mb d.available_memory_mb

  unfoldable pub allocate_remote : String → Bool × RemoteGpuDevice
  allocate_remote task_id =
      if not (is_idle d.state)
      then (false, d)
      else (true, record d { state = allocated; current_task_id = some task_id })

  unfoldable pub release_remote : RemoteGpuDevice
  release_remote = record d { state = idle; current_task_id = none }

-- `room_id and device.vpn_network_id != str(room_id)` is false.
unfoldable pub in_room : Option String → RemoteGpuDevice → Bool
in_room none d = true
in_room (some room) d = room == "" || d.vpn_network_id == room

-- What the loop asks for: a device that none of its `continue`s passes over.
unfoldable pub is_candidate : ℕ → Option String → Option String → RemoteGpuDevice → Bool
is_candidate required_memory_mb gpu_type room_id d =
    if not (in_room room_id d)
    then false
    else if not (has_type d.gpu_type gpu_type)
    then false
    else can_allocate_remote d required_memory_mb

-- The test that replaces the best device so far.
unfoldable pub is_better : RemoteGpuDevice → RemoteGpuDevice → Bool
is_better d best =
    ltb best.available_memory_mb d.available_memory_mb
    || d.available_memory_mb == best.available_memory_mb
      && ltb d.utilization_percent best.utilization_percent

-- One round of the loop.
unfoldable pub consider :
    (RemoteGpuDevice → Bool) → RemoteGpuDevice → Option RemoteGpuDevice → Option RemoteGpuDevice
consider fits d best =
    if not (fits d)
    then best
    else elim best [ none ↦ some d | some b ↦ if is_better d b then some d else some b ]

unfoldable pub best_remote :
    (RemoteGpuDevice → Bool)
    → List RemoteGpuDevice
    → Option RemoteGpuDevice
    → Option RemoteGpuDevice
unfolding consider
best_remote fits [] best = best
best_remote fits (d ∷ devices) best = best_remote fits devices (consider fits d best)

-- A device that the pool hands out.
pub data Found : Type 0 where
  local : GpuDevice → Found
  remote : RemoteGpuDevice → Found

pub record GpuPool (S : Type 0) : Type 0 where
  pub local_manager : GpuManager
  pub remote_devices : Dict String RemoteGpuDevice
  pub redis_state : S

module _ {S : Type 0} where
  unfoldable pub remote_choice : GpuPool S → ℕ → Option String → Option String → Option Found
  remote_choice pool required_memory_mb gpu_type room_id =
      let fits = is_candidate required_memory_mb gpu_type room_id in
      elim (best_remote fits (values pool.remote_devices) none) [
        | none ↦ none
        | some d ↦ some (remote d)
      ]

  unfoldable pub get_available_device :
      GpuPool S → ℕ → Option String → Option String → Bool → Option Found
  unfolding remote_choice
  get_available_device pool required_memory_mb gpu_type room_id remote_only =
      let others = remote_choice pool required_memory_mb gpu_type room_id in
      if remote_only
      then others
      else elim (Manager.get_available_device pool.local_manager required_memory_mb gpu_type) [
        | none ↦ others
        | some d ↦ some (local d)
      ]

-- `has_lock` is whether the pool was given a RemoteGpuLock.
module _ {S : Type 0} (redis : Redis S) (connected has_lock : Bool) (ttl_seconds : ℕ) where
  -- `self._remote_lock is not None and not self._remote_lock.acquire(…)` is false.
  unfoldable pub take_lock : S → String → String → Bool × S
  take_lock s share_id task_id =
      if not has_lock then (true, s) else acquire redis connected s share_id task_id ttl_seconds

  unfoldable pub drop_lock : S → String → String → S
  drop_lock s share_id task_id =
      if not has_lock then s else (release_lock redis connected s share_id task_id).1

  unfoldable pub allocate_remote_device : GpuPool S → String → String → Bool × GpuPool S
  unfolding take_lock drop_lock
  allocate_remote_device pool share_id task_id = elim (lookup share_id pool.remote_devices) [
    | none ↦ (false, pool)
    | some d ↦
        if not (can_allocate_remote d 0)
        then (false, pool)
        else let (taken, s) = take_lock pool.redis_state share_id task_id in
          let locked = record pool { redis_state = s } in
          if not taken
          then (false, locked)
          else let (done, d') = allocate_remote d task_id in
            if not done
            then (false, record pool { redis_state = drop_lock s share_id task_id })
            else (true, record locked { remote_devices = insert share_id d' pool.remote_devices })
  ]

  -- `share_id` is None for a local device, as is `is_remote` false.
  unfoldable pub allocate_device : GpuPool S → ℕ → String → Bool → Option String → Bool × GpuPool S
  unfolding allocate_remote_device
  allocate_device pool device_id task_id is_remote share_id =
      let (ok', manager) = Manager.allocate_device pool.local_manager device_id task_id in
      let here : Bool × GpuPool S = (ok', record pool { local_manager = manager }) in
      elim share_id [
        | none ↦ here
        | some share ↦
            if is_remote && not (share == "")
            then allocate_remote_device pool share task_id
            else here
      ]

  -- The task whose lock is dropped: the caller's, or the one that the device runs.
  unfoldable pub lock_holder : Option RemoteGpuDevice → Option String → Option String
  lock_holder none task_id = task_id
  lock_holder (some d) none = d.current_task_id
  lock_holder (some d) (some task_id) = some task_id

  unfoldable pub release_remote_device : GpuPool S → String → Option String → GpuPool S
  unfolding drop_lock lock_holder
  release_remote_device pool share_id task_id =
      let device = lookup share_id pool.remote_devices in
      let devices : Dict String RemoteGpuDevice = elim device [
        | none ↦ pool.remote_devices
        | some d ↦ insert share_id (release_remote d) pool.remote_devices
      ] in
      let s : S = elim (lock_holder device task_id) [
        | none ↦ pool.redis_state
        | some tid ↦ if tid == "" then pool.redis_state else drop_lock pool.redis_state share_id tid
      ] in
      record pool { remote_devices = devices; redis_state = s }

  unfoldable pub release_device : GpuPool S → ℕ → Bool → Option String → Option String → GpuPool S
  unfolding release_remote_device
  release_device pool device_id is_remote share_id task_id =
      let here : GpuPool S = record pool {
        local_manager = Manager.release_device pool.local_manager device_id;
      } in
      elim share_id [
        | none ↦ here
        | some share ↦
            if is_remote && not (share == "")
            then release_remote_device pool share task_id
            else here
      ]
