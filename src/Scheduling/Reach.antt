-- ===== src/Scheduling/Reach.antt =====
-- The states that the operations of core/scheduler.py reach, in whatever order they are called.
use deepiri_zepgpu.Base.{string_eq, nat_eq, ok, ℕ, ◌+◌, String, ◌≡◌, refl, Option, [], arith}
use deepiri_zepgpu.Base.Int.{pos, ◌+ℤ◌}
use deepiri_zepgpu.Base.Dict.{contains}
use deepiri_zepgpu.Scheduling.Pool.{GpuPool}
use deepiri_zepgpu.Scheduling.Task.{Task}
use deepiri_zepgpu.Scheduling.Queue.Copies.{bit, copies}
use deepiri_zepgpu.Scheduling.Scheduler.{
  Scheduler, Setup, submit_task, set_user_quota, register_callback,
}
use deepiri_zepgpu.Scheduling.Steps.{
  schedule_pending_tasks, cancel_task, mark_task_running, mark_task_completed, mark_task_failed,
}
use deepiri_zepgpu.Scheduling.Invariant.{
  WellCounted, submit_task-WellCounted, cancel_task-WellCounted, mark_task_running-WellCounted,
  mark_task_completed-WellCounted, mark_task_failed-WellCounted,
}
use deepiri_zepgpu.Scheduling.Slots.{schedule_pending_tasks-WellCounted}

-- A new TaskScheduler.
unfoldable pub new_scheduler : {S : Type 0} → GpuPool S → Scheduler S
new_scheduler pool = record {
  pool = pool;
  pending_queue = [];
  running_tasks = [];
  completed_tasks = [];
  failed_tasks = [];
  task_callbacks = [];
  calls = [];
  user_quotas = [];
  user_usage = [];
  stats = record {
    total_tasks = pos 0;
    pending_tasks = pos 0;
    running_tasks = pos 0;
    completed_tasks = pos 0;
    failed_tasks = pos 0;
  };
}

module _ {S : Type 0} (setup : Setup S) where
  -- One call. A task that is submitted has an id, a fresh UUID, that no waiting or running task has.
  -- Between the calls the pool may be refreshed or used by others.
  pub data Step (s : Scheduler S) : Scheduler S → Type 0 where
    submits :
        (task : Task) (id : String) (s' : Scheduler S)
        → copies task.task_id s.pending_queue + bit (contains task.task_id s.running_tasks) ≡ 0
        → submit_task s task ≡ ok (id, s')
        → Step s s'
    cancels : (id : String) → Step s (cancel_task setup s id).1
    schedules : Step s (schedule_pending_tasks setup s)
    marks_running : (id : String) (now : ℕ) → Step s (mark_task_running setup s id now)
    completes :
        (id : String) (result : Option String) (now : ℕ)
        → Step s (mark_task_completed setup s id result now)
    fails :
        (id error : String) (traceback : Option String) (now : ℕ)
        → Step s (mark_task_failed setup s id error traceback now)
    sets_quota : (user : String) (tasks hours : ℕ) → Step s (set_user_quota s user tasks hours)
    registers : (id callback : String) → Step s (register_callback s id callback)
    pool_changes : (pool : GpuPool S) → Step s (record s { pool = pool })

  pub data Reachable : Scheduler S → Type 0 where
    starts : (pool : GpuPool S) → Reachable (new_scheduler pool)
    continues : (s s' : Scheduler S) → Reachable s → Step s s' → Reachable s'

  Step-WellCounted : (s s' : Scheduler S) → Step s s' → WellCounted setup s → WellCounted setup s'
  unfolding set_user_quota register_callback
  Step-WellCounted s s' (submits task id s'' fresh done) c =
      submit_task-WellCounted setup s s' task id fresh done c
  Step-WellCounted s s' (cancels id) c = cancel_task-WellCounted setup s id c
  Step-WellCounted s s' schedules c = schedule_pending_tasks-WellCounted setup s c
  Step-WellCounted s s' (marks_running id now) c = mark_task_running-WellCounted setup s id now c
  Step-WellCounted s s' (completes id result now) c =
      mark_task_completed-WellCounted setup s id result now c
  Step-WellCounted s s' (fails id error traceback now) c =
      mark_task_failed-WellCounted setup s id error traceback now c
  Step-WellCounted s s' (sets_quota user tasks hours) c = c
  Step-WellCounted s s' (registers id callback) c = c
  Step-WellCounted s s' (pool_changes pool) c = c

  new_scheduler-WellCounted : (pool : GpuPool S) → WellCounted setup (new_scheduler pool)
  unfolding new_scheduler copies ◌+ℤ◌
  new_scheduler-WellCounted pool = record {
    pending_tasks = refl;
    running_tasks = refl;
    total_tasks = refl;
    within = omega arith;
    keys = tt;
    once = λ k. omega arith;
  }

  -- If no task is submitted under the id of a waiting or running one, then in every state that the
  -- operations reach, whatever their order and whatever happens to the pool between them: the counters of waiting and running tasks are the lengths of the queue and of the
  -- running tasks, every task submitted is counted once, as waiting, running, completed or failed,
  -- no task waits twice or waits and runs, and no more tasks run than the limit allows.
  pub Reachable-WellCounted : (s : Scheduler S) → Reachable s → WellCounted setup s
  Reachable-WellCounted s (starts pool) = new_scheduler-WellCounted pool
  Reachable-WellCounted s (continues before s' reached step) =
      Step-WellCounted before s step (Reachable-WellCounted before reached)
