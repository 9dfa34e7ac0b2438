-- ===== src/Leases/TaskRow.antt =====
-- deepiri_zepgpu/database/models/task.py: the columns of a task that its node assignments write.
use deepiri_zepgpu.Base.Int.{ℤ}
use deepiri_zepgpu.Base.{ℕ, String, Bool, true, false, Option}
use deepiri_zepgpu.Ledger.Json.{Payload}

pub data TaskStatus : Type 0 where
  pending queued scheduled assigned running completed failed cancelled timeout : TaskStatus

pub record TaskRow : Type 0 where
  pub status : TaskStatus
  pub started_at : Option ℕ
  pub completed_at : Option ℕ
  pub error : Option String
  pub metadata_json : Payload
  pub result_ref : Option String
  pub result_size_bytes : Option ℤ
  pub timeout_seconds : ℤ

-- COMPLETED, FAILED, CANCELLED or TIMEOUT
abbrev pub is_finished : TaskStatus → Bool
is_finished completed = true
is_finished failed = true
is_finished cancelled = true
is_finished timeout = true
is_finished pending = false
is_finished queued = false
is_finished scheduled = false
is_finished assigned = false
is_finished running = false
