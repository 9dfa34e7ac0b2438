-- ===== src/Scheduling/Pool/Refresh.antt =====
-- deepiri_zepgpu/vpn/gpu_pool.py: refresh_remote_gpus, which reads the relay's list of GPUs. Python's
-- `int` of a text is a parameter.
use Prim.Native.Char.{Char, code}
use deepiri_zepgpu.Base.Dict.{Dict, lookup, insert}
use deepiri_zepgpu.Base.Int.{ℤ, pos}
use deepiri_zepgpu.Base.{
  if◌then◌else◌, string_eq, nat_eq, ◌==◌, Outcome, ◌>>=◌, ok, raise, ℕ, String, Bool, Option, none,
  some, List, [], ◌∷◌,
}
use deepiri_zepgpu.Ledger.Json.{Json, null, num, str, Payload}
use deepiri_zepgpu.Scheduling.Device.{GpuType, nvidia, amd, cpu, GpuState}
use deepiri_zepgpu.Scheduling.Pool.{RemoteGpuDevice, GpuPool}

-- What a refresh raises; `unread` is for a value that is not of the annotated type, which Python
-- would keep as it is or fail on with another error.
pub data RefreshError : Type 0 where
  key_error value_error unread : RefreshError

abbrev pub is_dot : Char → Bool
is_dot c = code c == 46

-- `s.split(".")`
unfoldable pub split_dots : String → List String
split_dots String.[] = "" ∷ []
split_dots (String.◌∷◌ c s) =
    let parts = split_dots s in
    if is_dot c then "" ∷ parts else elim parts [ [] ↦ [] | part ∷ rest ↦ String.◌∷◌ c part ∷ rest ]

abbrev pub as_text : Json → Outcome RefreshError String
as_text v = elim v [ str s ↦ ok s | _ ↦ raise RefreshError.unread ]

abbrev pub as_number : Json → Outcome RefreshError ℕ
as_number v = elim v [ num (pos n) ↦ ok n | _ ↦ raise RefreshError.unread ]

-- `d[k]`
abbrev pub required : Option Json → Outcome RefreshError Json
required none = raise RefreshError.key_error
required (some v) = ok v

-- `d.get(k, default)`
abbrev pub default_to : Json → Option Json → Json
default_to default none = default
default_to default (some v) = v

-- None or a text.
abbrev pub optional_text : Json → Outcome RefreshError (Option String)
optional_text v = elim v [ null ↦ ok none | str s ↦ ok (some s) | _ ↦ raise RefreshError.unread ]

-- `GPUType(value)`
unfoldable pub gpu_type_of : Json → Outcome RefreshError GpuType
gpu_type_of v = elim v [
  | str s ↦
      if s == "nvidia"
      then ok nvidia
      else if s == "amd"
      then ok amd
      else if s == "cpu"
      then ok cpu
      else raise RefreshError.value_error
  | _ ↦ raise RefreshError.value_error
]

-- `GPUState(value)`
unfoldable pub gpu_state_of : Json → Outcome RefreshError GpuState
gpu_state_of v = elim v [
  | str s ↦
      if s == "idle"
      then ok GpuState.idle
      else if s == "allocated"
      then ok GpuState.allocated
      else if s == "reserved"
      then ok GpuState.reserved
      else if s == "error"
      then ok GpuState.error
      else if s == "unavailable"
      then ok GpuState.unavailable
      else raise RefreshError.value_error
  | _ ↦ raise RefreshError.value_error
]

module _ (parse_int : String → Option ℤ) where
  -- `int(s)`
  abbrev pub int_of : String → Outcome RefreshError ℤ
  int_of s = elim (parse_int s) [ none ↦ raise RefreshError.value_error | some n ↦ ok n ]

  -- Major and minor, where the text has them.
  unfoldable pub capability_of : List String → Outcome RefreshError (ℤ × ℤ)
  capability_of [] = ok (pos 0, pos 0)
  capability_of (major ∷ []) = int_of major >>= λ a. ok (a, pos 0)
  capability_of (major ∷ minor ∷ rest) = int_of major >>= λ a. int_of minor >>= λ b. ok (a, b)

  -- The device of one entry, its values read in the source's order.
  unfoldable pub read_device : Payload → Outcome RefreshError RemoteGpuDevice
  unfolding split_dots gpu_type_of gpu_state_of capability_of
  read_device d = do
    share_id ← required (lookup "share_id" d) >>= as_text
    capability_text ← as_text (default_to (str "0.0") (lookup "compute_capability" d))
    capability ← capability_of (split_dots capability_text)
    peer_id ← required (lookup "peer_id" d) >>= as_text
    peer_username ← as_text (default_to (str "unknown") (lookup "peer_username" d))
    device_index ← required (lookup "device_index" d) >>= as_number
    name ← as_text (default_to (str "Unknown GPU") (lookup "name" d))
    gpu_type ← gpu_type_of (default_to (str "nvidia") (lookup "gpu_type" d))
    total_memory_mb ← required (lookup "total_memory_mb" d) >>= as_number
    available_memory_mb ← required (lookup "available_memory_mb" d) >>= as_number
    state ← gpu_state_of (default_to (str "idle") (lookup "state" d))
    current_task_id ← optional_text (default_to null (lookup "current_task_id" d))
    utilization_percent ← as_number (default_to (num (pos 0)) (lookup "utilization_percent" d))
    vpn_ip ← as_text (default_to (str "") (lookup "vpn_ip" d))
    vpn_network_id ← as_text (default_to (str "") (lookup "vpn_network_id" d))
    ok (record {
      peer_id = peer_id;
      peer_username = peer_username;
      share_id = share_id;
      device_index = device_index;
      name = name;
      gpu_type = gpu_type;
      total_memory_mb = total_memory_mb;
      available_memory_mb = available_memory_mb;
      compute_capability = capability;
      state = state;
      current_task_id = current_task_id;
      utilization_percent = utilization_percent;
      vpn_ip = vpn_ip;
      vpn_network_id = vpn_network_id;
    })

  -- The loop, from the map read so far.
  unfoldable pub read_devices :
      List Payload
      → Dict String RemoteGpuDevice
      → Outcome RefreshError (Dict String RemoteGpuDevice)
  unfolding read_device
  read_devices [] new_map = ok new_map
  read_devices (d ∷ remote_gpus) new_map =
      read_device d >>= λ device. read_devices remote_gpus (insert device.share_id device new_map)

  -- The map is replaced at the end only: what a raise leaves is the pool as it was.
  unfoldable pub refresh_remote_gpus :
      {S : Type 0} → GpuPool S → List Payload → Option RefreshError × GpuPool S
  unfolding read_devices
  refresh_remote_gpus pool remote_gpus = elim (read_devices remote_gpus []) [
    | raise e ↦ (some e, pool)
    | ok new_map ↦ (none, record pool { remote_devices = new_map })
  ]
