-- ===== src/Access/Control.antt =====
-- deepiri_zepgpu/security/access_control.py: the state of AccessControl and its operations.
use deepiri_zepgpu.Base.{
  ltb, leb, if◌then◌else◌, string_eq, nat_eq, ℕ, ◌+◌, ◌-◌, ◌*◌, max, String, Bool, Option, none,
  some,
}
use deepiri_zepgpu.Base.Dict.{Dict, lookup, insert}

pub data ResourceType : Type 0 where
  tasks gpu_hours gpu_memory concurrent_tasks storage_gb : ResourceType

pub record ResourceQuota : Type 0 where
  pub max_tasks : ℕ
  pub max_gpu_hours : ℕ
  pub max_gpu_memory_mb : ℕ
  pub max_concurrent_tasks : ℕ
  pub max_storage_gb : ℕ

pub record ResourceUsage : Type 0 where
  pub tasks_submitted : ℕ
  pub gpu_seconds : ℕ
  pub peak_gpu_memory_mb : ℕ
  pub concurrent_tasks : ℕ
  pub storage_used_gb : ℕ
  pub period_start : ℕ

-- `ResourceUsage()`
unfoldable pub new_usage : ℕ → ResourceUsage
new_usage now = record {
  tasks_submitted = 0;
  gpu_seconds = 0;
  peak_gpu_memory_mb = 0;
  concurrent_tasks = 0;
  storage_used_gb = 0;
  period_start = now;
}

-- The peak of the memory is kept.
unfoldable pub reset : ℕ → ResourceUsage → ResourceUsage
reset now usage = record usage {
  tasks_submitted = 0;
  gpu_seconds = 0;
  concurrent_tasks = 0;
  storage_used_gb = 0;
  period_start = now;
}

pub record AccessControl : Type 0 where
  pub default_quota : ResourceQuota
  pub period_hours : ℕ
  pub quotas : Dict String ResourceQuota
  pub usage : Dict String ResourceUsage

-- Why a submission is refused.
pub data Refusal : Type 0 where
  task_limit concurrent_limit memory_limit : Refusal

unfoldable pub submission_refusal : ResourceUsage → ResourceQuota → ℕ → Option Refusal
submission_refusal usage quota gpu_memory_mb =
    if leb quota.max_tasks usage.tasks_submitted
    then some task_limit
    else if leb quota.max_concurrent_tasks usage.concurrent_tasks
    then some concurrent_limit
    else if ltb quota.max_gpu_memory_mb gpu_memory_mb
    then some memory_limit
    else none

module _ (control : AccessControl) where
  unfoldable pub is_period_expired : ℕ → ResourceUsage → Bool
  is_period_expired now usage = ltb (usage.period_start + control.period_hours * 3600) now

  -- The usage after the reset that an expired period brings.
  unfoldable pub current : ℕ → ResourceUsage → ResourceUsage
  unfolding is_period_expired reset
  current now usage = if is_period_expired now usage then reset now usage else usage

  unfoldable pub get_quota : String → ResourceQuota
  get_quota user_id = elim (lookup user_id control.quotas) [
    | none ↦ control.default_quota
    | some quota ↦ quota
  ]

  unfoldable pub set_quota : String → ResourceQuota → AccessControl
  set_quota user_id quota = record control { quotas = insert user_id quota control.quotas }

  -- A reset stays in the state.
  unfoldable pub get_usage : ℕ → String → ResourceUsage × AccessControl
  unfolding current new_usage
  get_usage now user_id = elim (lookup user_id control.usage) [
    | none ↦ (new_usage now, control)
    | some usage ↦ (
      current now usage,
      record control { usage = insert user_id (current now usage) control.usage },
    )
  ]

  -- None is `True, "OK"`.
  unfoldable pub check_task_submission : ℕ → String → ℕ → Option Refusal × AccessControl
  unfolding get_usage get_quota submission_refusal
  check_task_submission now user_id gpu_memory_mb =
      let (usage, after) = get_usage now user_id in
      (submission_refusal usage (get_quota user_id) gpu_memory_mb, after)

  -- `self._usage[user_id]`, made where it is missing.
  unfoldable pub usage_or_new : ℕ → String → ResourceUsage
  unfolding new_usage
  usage_or_new now user_id = elim (lookup user_id control.usage) [
    | none ↦ new_usage now
    | some usage ↦ usage
  ]

  unfoldable pub record_task_start : ℕ → String → ℕ → AccessControl
  unfolding current usage_or_new
  record_task_start now user_id gpu_memory_mb =
      let usage = current now (usage_or_new now user_id) in
      record control {
        usage =
            insert user_id
              (record usage {
                tasks_submitted = usage.tasks_submitted + 1;
                concurrent_tasks = usage.concurrent_tasks + 1;
                peak_gpu_memory_mb = max usage.peak_gpu_memory_mb gpu_memory_mb;
              })
              control.usage;
      }

  -- `max(0, usage.concurrent_tasks - 1)` is the subtraction that stops at 0.
  unfoldable pub record_task_end : String → ℕ → AccessControl
  record_task_end user_id execution_seconds = elim (lookup user_id control.usage) [
    | none ↦ control
    | some usage ↦ record control {
      usage =
          insert user_id
            (record usage {
              concurrent_tasks = usage.concurrent_tasks - 1;
              gpu_seconds = usage.gpu_seconds + execution_seconds;
            })
            control.usage;
    }
  ]

  unfoldable pub record_storage : ℕ → String → ℕ → AccessControl
  unfolding usage_or_new
  record_storage now user_id size_gb = record control {
    usage =
        insert user_id (record (usage_or_new now user_id) { storage_used_gb = size_gb })
          control.usage;
  }

  unfoldable pub reset_usage : ℕ → String → AccessControl
  unfolding reset
  reset_usage now user_id = elim (lookup user_id control.usage) [
    | none ↦ control
    | some usage ↦ record control { usage = insert user_id (reset now usage) control.usage }
  ]

-- The limit and the use of a resource; GPU hours are counted in seconds.
unfoldable pub limit_of : ResourceQuota → ResourceType → ℕ
limit_of quota tasks = quota.max_tasks
limit_of quota gpu_hours = quota.max_gpu_hours * 3600
limit_of quota gpu_memory = quota.max_gpu_memory_mb
limit_of quota concurrent_tasks = quota.max_concurrent_tasks
limit_of quota storage_gb = quota.max_storage_gb

unfoldable pub used_of : ResourceUsage → ResourceType → ℕ
used_of usage tasks = usage.tasks_submitted
used_of usage gpu_hours = usage.gpu_seconds
used_of usage gpu_memory = usage.peak_gpu_memory_mb
used_of usage concurrent_tasks = usage.concurrent_tasks
used_of usage storage_gb = usage.storage_used_gb

-- An entry of `get_remaining_quota`: `max(0, limit - used)`.
unfoldable pub remaining_of : ResourceUsage → ResourceQuota → ResourceType → ℕ
unfolding limit_of used_of
remaining_of usage quota resource = limit_of quota resource - used_of usage resource

module _ (control : AccessControl) where
  unfoldable pub get_remaining_quota : ℕ → String → (ResourceType → ℕ) × AccessControl
  unfolding get_usage get_quota remaining_of
  get_remaining_quota now user_id =
      let (usage, after) = get_usage control now user_id in
      (remaining_of usage (get_quota control user_id), after)

  unfoldable pub check_access : ℕ → String → ResourceType → ℕ → Bool × AccessControl
  unfolding get_remaining_quota
  check_access now user_id resource amount =
      let (remaining, after) = get_remaining_quota now user_id in
      (leb amount (remaining resource), after)
