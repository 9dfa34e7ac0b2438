-- ===== src/Scheduling/Cancelled.antt =====
-- core/scheduler.py: a running task that `cancel_task` cancels, and whose end is then reported by
-- `mark_task_completed`.
use deepiri_zepgpu.Base.{string_eq, nat_eq, ◌≡◌, false, ◌&&◌, none}
use deepiri_zepgpu.Scheduling.Task.{Task}
use deepiri_zepgpu.Scheduling.Scheduler.{Scheduler, Setup, is_set}

module _ {S : Type 0} (setup : Setup S) where
  -- The task has no device that a release would give back.
  abbrev pub HoldsNone : Task → Type 0
  HoldsNone t = (is_set t.remote_gpu_share_id && setup.has_pool ≡ false) × (t.gpu_device_id ≡ none)
