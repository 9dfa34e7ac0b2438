-- ===== src/Scheduling/Pool/Suits.antt =====
-- What a caller of `get_available_device` asks for, written without the program's tests.
use deepiri_zepgpu.Base.{
  string_eq, ℕ, ◌≤◌, ◌<◌, String, ◌≡◌, refl, ◌↔◌, ◌⊎◌, true, false, Option, none, some, arith,
}
use deepiri_zepgpu.Scheduling.Device.{
  GpuDevice, GpuType, GpuState, idle, is_idle, gpu_type_value, has_type, can_allocate,
}
use deepiri_zepgpu.Scheduling.Pool.{
  RemoteGpuDevice, in_room, can_allocate_remote, is_candidate, is_better,
}
use deepiri_zepgpu.Scheduling.Pool.Best.{fits_locally}

-- An optional text that is None or "" asks for nothing, any other for itself.
abbrev pub Asks : Option String → String → Type 0
Asks none x = Unit
Asks (some wanted) x = (wanted ≡ "") ⊎ (x ≡ wanted)

abbrev pub SuitsLocally : ℕ → Option String → GpuDevice → Type 0
SuitsLocally mb gpu_type d =
    Asks gpu_type (gpu_type_value d.gpu_type) × (d.state ≡ idle) × (mb ≤ d.available_memory_mb)

abbrev pub SuitsRemotely : ℕ → Option String → Option String → RemoteGpuDevice → Type 0
SuitsRemotely mb gpu_type room_id d =
    Asks room_id d.vpn_network_id
    × Asks gpu_type (gpu_type_value d.gpu_type)
    × (d.state ≡ idle)
    × (mb ≤ d.available_memory_mb)

-- More memory, or as much and no more load.
abbrev pub AtLeastAsGood : RemoteGpuDevice → RemoteGpuDevice → Type 0
AtLeastAsGood d e =
    (e.available_memory_mb < d.available_memory_mb)
    ⊎ ((e.available_memory_mb ≡ d.available_memory_mb)
        × (d.utilization_percent ≤ e.utilization_percent))

has_type_iff :
    (t : GpuType) (wanted : Option String)
    → (has_type t wanted ≡ true) ↔ Asks wanted (gpu_type_value t)
unfolding has_type
has_type_iff t none = (λ h. tt, λ h. refl)
has_type_iff t (some wanted) =
    ground (arith, string_eq.same_iff wanted "", string_eq.same_iff (gpu_type_value t) wanted)

in_room_iff :
    (room_id : Option String) (d : RemoteGpuDevice)
    → (in_room room_id d ≡ true) ↔ Asks room_id d.vpn_network_id
unfolding in_room
in_room_iff none d = (λ h. tt, λ h. refl)
in_room_iff (some room) d =
    ground (arith, string_eq.same_iff room "", string_eq.same_iff d.vpn_network_id room)

is_idle_iff : (s : GpuState) → (is_idle s ≡ true) ↔ (s ≡ idle)
is_idle_iff s = ground arith

pub fits_locally_iff :
    (mb : ℕ) (gpu_type : Option String) (d : GpuDevice)
    → (fits_locally mb gpu_type d ≡ true) ↔ SuitsLocally mb gpu_type d
unfolding fits_locally can_allocate
fits_locally_iff mb gpu_type d =
    ground (arith, has_type_iff d.gpu_type gpu_type, is_idle_iff d.state)

pub is_candidate_iff :
    (mb : ℕ) (gpu_type room_id : Option String) (d : RemoteGpuDevice)
    → (is_candidate mb gpu_type room_id d ≡ true) ↔ SuitsRemotely mb gpu_type room_id d
unfolding is_candidate can_allocate_remote
is_candidate_iff mb gpu_type room_id d =
    ground (arith, in_room_iff room_id d, has_type_iff d.gpu_type gpu_type, is_idle_iff d.state)

pub is_better-false : (d e : RemoteGpuDevice) → is_better e d ≡ false → AtLeastAsGood d e
unfolding is_better
is_better-false d e h = ground arith
