-- ===== src/Scheduling/Task.antt =====
-- deepiri_zepgpu/core/task.py: a task. Times are whole seconds; the function of a task and its
-- arguments are left out.
use deepiri_zepgpu.Base.{ℕ, String, Bool, Option, List}
use deepiri_zepgpu.Ledger.Json.{Payload}
pub mod Dictionary
pub mod RoundTrip
mod Tests

pub data TaskStatus : Type 0 where
  pending queued scheduled assigned running completed failed cancelled timeout : TaskStatus

-- Members of the enumeration are compared by identity: each has a number of its own.
abbrev pub status_number : TaskStatus → ℕ
status_number pending = 0
status_number queued = 1
status_number scheduled = 2
status_number assigned = 3
status_number running = 4
status_number completed = 5
status_number failed = 6
status_number cancelled = 7
status_number timeout = 8

pub data TaskPriority : Type 0 where
  low normal high urgent critical : TaskPriority

-- `task.priority.value`
unfoldable pub priority_value : TaskPriority → ℕ
priority_value low = 1
priority_value normal = 2
priority_value high = 3
priority_value urgent = 4
priority_value critical = 5

pub record TaskResources : Type 0 where
  pub gpu_memory_mb : ℕ
  pub cpu_cores : ℕ
  pub timeout_seconds : ℕ
  pub gpu_type : Option String
  pub allow_fallback_cpu : Bool
  pub container_memory_mb : ℕ

pub record Task : Type 0 where
  pub resources : TaskResources
  pub priority : TaskPriority
  pub user_id : Option String
  pub task_id : String
  pub name : String
  pub metadata : Payload
  pub created_at : ℕ
  pub status : TaskStatus
  pub result : Option String
  pub error : Option String
  pub traceback : Option String
  pub started_at : Option ℕ
  pub completed_at : Option ℕ
  pub gpu_device_id : Option ℕ
  pub remote_peer_vpn_ip : Option String
  pub remote_gpu_share_id : Option String
  pub room_id : Option String
  pub dispatch_mode : String
  pub target_peer_id : Option String
  pub target_gpu_share_id : Option String
  pub container_id : Option String
  pub callback_url : Option String
  pub tags : List String
