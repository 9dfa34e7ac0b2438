-- ===== src/Access/Tests.antt =====
-- Quotas on a concrete user.
use deepiri_zepgpu.Base.{string_eq, nat_eq, ℕ, String, ◌≡◌, refl, true, none, some, [], arith}
use deepiri_zepgpu.Base.Dict.{lookup}
use deepiri_zepgpu.Access.Control.{
  set_quota, get_quota, task_limit, ResourceQuota, ResourceUsage, AccessControl,
  check_task_submission, record_task_start, is_period_expired,
}
use deepiri_zepgpu.Access.Quotas.{
  Calls, NoHigher, sets_quota, AllWithin, none_yet, starts, Calls-AllWithin,
}

abbrev small_quota : ResourceQuota
small_quota = record {
  max_tasks = 2;
  max_gpu_hours = 1;
  max_gpu_memory_mb = 8000;
  max_concurrent_tasks = 2;
  max_storage_gb = 10;
}

abbrev nobody : AccessControl
nobody = record { default_quota = small_quota; period_hours = 24; quotas = []; usage = [] }

abbrev one_start : AccessControl
one_start = record_task_start nobody 100 "ann" 4000

abbrev two_starts : AccessControl
two_starts = record_task_start one_start 200 "ann" 4000

refuses_third : (check_task_submission two_starts 300 "ann" 4000).0 ≡ some task_limit
unfolding check_task_submission record_task_start
refuses_third = refl

allows_first : (check_task_submission nobody 100 "ann" 4000).0 ≡ none
unfolding check_task_submission
allows_first = refl

allows_second : (check_task_submission one_start 200 "ann" 4000).0 ≡ none
unfolding check_task_submission record_task_start
allows_second = refl

-- The user is given a lower quota after two starts, and keeps both tasks.
abbrev lower_quota : ResourceQuota
lower_quota = record small_quota { max_tasks = 1; max_concurrent_tasks = 1 }

abbrev ceiling : String → ResourceQuota
ceiling user = small_quota

abbrev calls : Calls nobody (set_quota two_starts "ann" lower_quota)
calls = sets_quota nobody two_starts "ann" lower_quota (
    starts nobody one_start 200 "ann" 4000
      (starts nobody nobody 100 "ann" 4000 (none_yet nobody) allows_first) allows_second)

nobody-NoHigher : NoHigher ceiling nobody
unfolding get_quota
nobody-NoHigher user = (omega arith, omega arith, omega arith)

nobody-AllWithin : AllWithin ceiling nobody
nobody-AllWithin user usage h = absurd cc

Calls-AllWithin_example : AllWithin ceiling (set_quota two_starts "ann" lower_quota)
Calls-AllWithin_example =
    Calls-AllWithin ceiling nobody (set_quota two_starts "ann" lower_quota) calls
      ((omega arith, omega arith, omega arith), tt) nobody-NoHigher nobody-AllWithin

abbrev two_running : ResourceUsage
two_running = record {
  tasks_submitted = 2;
  gpu_seconds = 0;
  peak_gpu_memory_mb = 4000;
  concurrent_tasks = 2;
  storage_used_gb = 0;
  period_start = 100;
}

runs_two : lookup "ann" two_starts.usage ≡ some two_running
unfolding record_task_start
runs_two = refl

next_day : is_period_expired two_starts 90000 two_running ≡ true
unfolding is_period_expired record_task_start
next_day = refl

abbrev one_hour : ℕ
one_hour = 3600
