-- ===== src/Scheduling/Device.antt =====
-- deepiri_zepgpu/core/gpu_manager.py: GPU devices and the manager of the local ones.
use deepiri_zepgpu.Base.{
  leb, if◌then◌else◌, string_eq, nat_eq, ◌==◌, ℕ, String, Bool, true, false, not, ◌&&◌, ◌||◌,
  Option, none, some,
}

pub data GpuState : Type 0 where
  idle allocated reserved error unavailable : GpuState

pub data GpuType : Type 0 where
  nvidia amd cpu : GpuType

-- `self.gpu_type.value`
unfoldable pub gpu_type_value : GpuType → String
gpu_type_value nvidia = "nvidia"
gpu_type_value amd = "amd"
gpu_type_value cpu = "cpu"

abbrev pub is_idle : GpuState → Bool
is_idle idle = true
is_idle allocated = false
is_idle reserved = false
is_idle error = false
is_idle unavailable = false

-- The fields that allocation reads and writes.
pub record GpuDevice : Type 0 where
  pub device_id : ℕ
  pub name : String
  pub gpu_type : GpuType
  pub total_memory_mb : ℕ
  pub available_memory_mb : ℕ
  pub state : GpuState
  pub current_task_id : Option String

unfoldable pub can_allocate : GpuDevice → ℕ → Bool
can_allocate device required_memory_mb =
    is_idle device.state && leb required_memory_mb device.available_memory_mb

-- The answer, and the device afterwards.
unfoldable pub allocate : GpuDevice → String → Bool × GpuDevice
allocate device task_id =
    if not (is_idle device.state)
    then (false, device)
    else (true, record device { state = allocated; current_task_id = some task_id })

unfoldable pub release : GpuDevice → GpuDevice
release device = record device { state = idle; current_task_id = none }

-- `if gpu_type and device.gpu_type.value != gpu_type: continue`: None and "" ask for no type.
unfoldable pub has_type : GpuType → Option String → Bool
has_type t none = true
has_type t (some wanted) = wanted == "" || gpu_type_value t == wanted
