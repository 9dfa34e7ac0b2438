-- ===== src/Scheduling/Task/Tests.antt =====
-- Tasks as dictionaries, with times as tallies.
use deepiri_zepgpu.Base.{ok, raise, ℕ, ◌≤◌, ◌≡◌, refl, true, none, some, [], ◌∷◌, arith}
use deepiri_zepgpu.Base.Tally.{tally, untally, untally-tally, tally-filled}
use deepiri_zepgpu.Base.Int.{pos}
use deepiri_zepgpu.Ledger.Json.{num, obj, field, end}
use deepiri_zepgpu.Scheduling.Task.{TaskStatus, TaskPriority, Task}
use deepiri_zepgpu.Scheduling.Task.Dictionary.{
  TaskError, IsoFormat, to_dict, from_dict, container_memory, make_resources, task_status,
  task_priority, created_at_of, tags_or_empty, texts_of, name_or_default, first_chars,
}
use deepiri_zepgpu.Scheduling.Task.RoundTrip.{restored, from_dict-to_dict, from_dict-InRange}

abbrev tallies : IsoFormat
tallies = record { isoformat = tally; fromisoformat = untally }

abbrev job : Task
job = record {
  resources = record {
    gpu_memory_mb = 4000;
    cpu_cores = 2;
    timeout_seconds = 60;
    gpu_type = some "nvidia";
    allow_fallback_cpu = true;
    container_memory_mb = 512;
  };
  priority = TaskPriority.high;
  user_id = some "ann";
  task_id = "t1";
  name = "train";
  metadata = ("epoch", num (pos 3)) ∷ [];
  created_at = 5;
  status = TaskStatus.failed;
  result = none;
  error = some "out of memory";
  traceback = none;
  started_at = some 6;
  completed_at = some 7;
  gpu_device_id = some 0;
  remote_peer_vpn_ip = none;
  remote_gpu_share_id = none;
  room_id = none;
  dispatch_mode = "local";
  target_peer_id = none;
  target_gpu_share_id = none;
  container_id = none;
  callback_url = none;
  tags = "a" ∷ "b" ∷ [];
}

from_dict-to_dict_example : from_dict tallies "new" 9 (to_dict tallies job) ≡ ok (restored job)
from_dict-to_dict_example =
    from_dict-to_dict tallies untally-tally tally-filled "new" 9 job (omega arith) (omega arith)

-- A dictionary of which only the memory is given, and one with too little.
abbrev sparse : ℕ → Task
sparse mb = record (restored job) {
  resources = record {
    gpu_memory_mb = 1024;
    cpu_cores = 1;
    timeout_seconds = 3600;
    gpu_type = none;
    allow_fallback_cpu = true;
    container_memory_mb = mb;
  };
  priority = TaskPriority.normal;
  user_id = none;
  task_id = "0123456789";
  name = "task_01234567";
  metadata = [];
  created_at = 9;
  status = TaskStatus.pending;
  gpu_device_id = none;
  tags = [];
}

from_dict-InRange_example : (64 ≤ 128) × (128 ≤ 262144)
unfolding from_dict container_memory make_resources task_status task_priority created_at_of
    tags_or_empty texts_of name_or_default first_chars
from_dict-InRange_example =
    from_dict-InRange tallies "0123456789" 9
      (("resources", obj (field "container_memory_mb" (num (pos 128)) end)) ∷ []) (sparse 128) refl

from_dict-small :
    from_dict tallies "new" 9
      (("resources", obj (field "container_memory_mb" (num (pos 63)) end)) ∷ [])
    ≡ raise TaskError.value_error
unfolding from_dict container_memory make_resources
from_dict-small = refl
