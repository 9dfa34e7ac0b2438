-- ===== src/Scheduling/Manager.antt =====
-- deepiri_zepgpu/core/gpu_manager.py: the manager of the local devices.
use deepiri_zepgpu.Base.{
  if◌then◌else◌, string_eq, nat_eq, ℕ, ◌+◌, String, Bool, true, false, not, Option, none, some,
  List, [], ◌∷◌,
}
use deepiri_zepgpu.Base.Dict.{Dict, lookup, insert, values}
use deepiri_zepgpu.Scheduling.Device.{
  nvidia, idle, GpuDevice, has_type, can_allocate, allocate, release,
}

-- `_devices`, whose lock makes each operation one step.
abbrev pub GpuManager : Type 0
GpuManager = Dict ℕ GpuDevice

-- The loop of `get_available_device`.
unfoldable pub first_available : ℕ → Option String → List GpuDevice → Option GpuDevice
first_available required_memory_mb gpu_type [] = none
first_available required_memory_mb gpu_type (device ∷ devices) =
    let rest = first_available required_memory_mb gpu_type devices in
    if not (has_type device.gpu_type gpu_type)
    then rest
    else if can_allocate device required_memory_mb
    then some device
    else rest

unfoldable pub get_available_device : GpuManager → ℕ → Option String → Option GpuDevice
get_available_device manager required_memory_mb gpu_type =
    first_available required_memory_mb gpu_type (values manager)

unfoldable pub allocate_device : GpuManager → ℕ → String → Bool × GpuManager
allocate_device manager device_id task_id = elim (lookup device_id manager) [
  | none ↦ (false, manager)
  | some device ↦
      if can_allocate device 0
      then (true, insert device_id (allocate device task_id).1 manager)
      else (false, manager)
]

unfoldable pub release_device : GpuManager → ℕ → GpuManager
release_device manager device_id = elim (lookup device_id manager) [
  | none ↦ manager
  | some device ↦ insert device_id (release device) manager
]

unfoldable pub get_device : GpuManager → ℕ → Option GpuDevice
get_device manager device_id = lookup device_id manager

unfoldable pub list_devices : GpuManager → List GpuDevice
list_devices manager = values manager

-- Python's `sum` over the devices.
unfoldable pub sum_over {ℓ} : {A : Type ℓ} → (A → ℕ) → List A → ℕ
sum_over f [] = 0
sum_over f (x ∷ xs) = f x + sum_over f xs

unfoldable pub get_total_memory_mb : GpuManager → ℕ
unfolding sum_over
get_total_memory_mb manager = sum_over (λ d. d.total_memory_mb) (values manager)

unfoldable pub get_available_memory_mb : GpuManager → ℕ
unfolding sum_over
get_available_memory_mb manager = sum_over (λ d. d.available_memory_mb) (values manager)

-- The devices of `_initialize_simulation_mode`.
unfoldable pub simulated_device : ℕ → GpuDevice
simulated_device id = record {
  device_id = id;
  name = "Simulated A100";
  gpu_type = nvidia;
  total_memory_mb = 40960;
  available_memory_mb = 39936;
  state = idle;
  current_task_id = none;
}

unfoldable pub simulation_mode : GpuManager
unfolding simulated_device
simulation_mode = (0, simulated_device 0) ∷ (1, simulated_device 1) ∷ []
