-- ===== src/Scheduling/Scheduler.antt =====
-- deepiri_zepgpu/core/scheduler.py. The pool that the scheduler is given shares its GPU manager, so
-- the state has the manager inside the pool. Every operation runs under one lock: it is one step.
-- Average times and the loop around `_schedule_pending_tasks` are not modelled.
use deepiri_zepgpu.Base.{
  ltb, if◌then◌else◌, string_eq, nat_eq, ◌==◌, length, Outcome, ok, raise, ℕ, ◌+◌, ◌*◌, String,
  Bool, true, false, not, ◌&&◌, ◌||◌, Option, none, some, List, [], ◌∷◌, ◌++◌, map,
}
use deepiri_zepgpu.Base.Int.{ℤ, pos, ◌+ℤ◌}
use deepiri_zepgpu.Base.Dict.{values, Dict, lookup, insert, erase}
use deepiri_zepgpu.Scheduling.Lock.{Redis}
use deepiri_zepgpu.Scheduling.Pool.{GpuPool}
use deepiri_zepgpu.Scheduling.Task.{TaskStatus, status_number, Task, queued}
use deepiri_zepgpu.Scheduling.Queue.{PriorityTaskItem, heappush, queue_item, find_item}

pub record QueueStats : Type 0 where
  pub total_tasks : ℤ
  pub pending_tasks : ℤ
  pub running_tasks : ℤ
  pub completed_tasks : ℤ
  pub failed_tasks : ℤ

pub record Quota : Type 0 where
  pub max_tasks : ℕ
  pub max_gpu_hours : ℕ

pub record Usage : Type 0 where
  pub tasks_submitted : ℕ
  pub gpu_seconds : ℕ

-- A callback is known by a name; `calls` are those made, the last first.
pub record Scheduler (S : Type 0) : Type 0 where
  pub pool : GpuPool S
  pub pending_queue : List PriorityTaskItem
  pub running_tasks : Dict String Task
  pub completed_tasks : Dict String Task
  pub failed_tasks : Dict String Task
  pub task_callbacks : Dict String String
  pub calls : List (String × Task)
  pub user_quotas : Dict String Quota
  pub user_usage : Dict String Usage
  pub stats : QueueStats

-- What the constructor is given. `has_pool` is whether there is a GpuPoolAggregator, `has_lock`
-- whether that has a RemoteGpuLock, and `abs_hash` is Python's `abs(hash(share_id))`.
pub record Setup (S : Type 0) : Type 0 where
  pub redis : Redis S
  pub connected : Bool
  pub has_lock : Bool
  pub ttl_seconds : ℕ
  pub has_pool : Bool
  pub max_concurrent_tasks : ℕ
  pub abs_hash : String → ℕ

unfoldable pub user_key : Option String → String
user_key none = "default"
user_key (some user_id) = if user_id == "" then "default" else user_id

-- The entry of a defaultdict.
unfoldable pub quota_of : Dict String Quota → String → Quota
quota_of quotas uid = elim (lookup uid quotas) [
  | none ↦ record { max_tasks = 100; max_gpu_hours = 24 }
  | some quota ↦ quota
]

unfoldable pub usage_of : Dict String Usage → String → Usage
usage_of usages uid = elim (lookup uid usages) [
  | none ↦ record { tasks_submitted = 0; gpu_seconds = 0 }
  | some usage ↦ usage
]

-- `if room_id`, `if share_id`
unfoldable pub is_set : Option String → Bool
is_set none = false
is_set (some t) = not (t == "")

-- `a or b` on what `dict.get` returns.
unfoldable or_else : Option Task → Option Task → Option Task
or_else none other = other
or_else (some t) other = some t

-- `[t for t in tasks if test(t)]`
unfoldable pub select : (Task → Bool) → List Task → List Task
select test [] = []
select test (t ∷ tasks) = if test t then t ∷ select test tasks else select test tasks

unfoldable pub has_user : Option String → Task → Bool
has_user none t = true
has_user (some user_id) t = user_id == "" || user_equals t.user_id user_id
  where
    user_equals : Option String → String → Bool
    user_equals none wanted = false
    user_equals (some user) wanted = user == wanted

unfoldable pub has_status : Option TaskStatus → Task → Bool
has_status none t = true
has_status (some status) t = status_number t.status == status_number status

-- A task before those of a sorted list that are not newer.
unfoldable pub insert_newest : Task → List Task → List Task
insert_newest t [] = t ∷ []
insert_newest t (x ∷ xs) =
    if ltb t.created_at x.created_at then x ∷ insert_newest t xs else t ∷ x ∷ xs

-- `sorted(tasks, key=lambda t: t.created_at, reverse=True)`, which keeps the order of equals.
unfoldable pub newest_first : List Task → List Task
unfolding insert_newest
newest_first [] = []
newest_first (t ∷ tasks) = insert_newest t (newest_first tasks)

pub data SchedulerError : Type 0 where
  quota_exceeded : SchedulerError

module _ {S : Type 0} where
  unfoldable pub check_user_quota : Scheduler S → Option String → Bool
  unfolding quota_of usage_of user_key
  check_user_quota s user_id =
      let usage = usage_of s.user_usage (user_key user_id) in
      let quota = quota_of s.user_quotas (user_key user_id) in
      ltb usage.tasks_submitted quota.max_tasks
      && ltb usage.gpu_seconds (quota.max_gpu_hours * 3600)

  -- What `submit_task` does within the quota.
  unfoldable pub enqueue_task : Scheduler S → Task → Scheduler S
  enqueue_task s task =
      let queued_task = record task { status = queued } in
      let uid = user_key task.user_id in
      let usage = usage_of s.user_usage uid in
      record s {
        pending_queue = heappush (queue_item queued_task) s.pending_queue;
        stats = record (s.stats) {
          pending_tasks = s.stats.pending_tasks +ℤ pos 1;
          total_tasks = s.stats.total_tasks +ℤ pos 1;
        };
        user_usage =
            insert uid (record usage { tasks_submitted = usage.tasks_submitted + 1 }) s.user_usage;
      }

  unfoldable pub submit_task : Scheduler S → Task → Outcome SchedulerError (String × Scheduler S)
  unfolding check_user_quota enqueue_task
  submit_task s task =
      if not (check_user_quota s task.user_id)
      then raise quota_exceeded
      else ok (task.task_id, enqueue_task s task)

  unfoldable pub set_user_quota : Scheduler S → String → ℕ → ℕ → Scheduler S
  set_user_quota s user_id max_tasks max_gpu_hours = record s {
    user_quotas =
        insert user_id (record { max_tasks = max_tasks; max_gpu_hours = max_gpu_hours })
          s.user_quotas;
  }

  unfoldable pub register_callback : Scheduler S → String → String → Scheduler S
  register_callback s task_id callback = record s {
    task_callbacks = insert task_id callback s.task_callbacks;
  }

  unfoldable pub notify_callback : Scheduler S → Task → Scheduler S
  notify_callback s task = elim (lookup task.task_id s.task_callbacks) [
    | none ↦ s
    | some callback ↦ record s {
      task_callbacks = erase task.task_id s.task_callbacks;
      calls = (callback, task) ∷ s.calls;
    }
  ]

  unfoldable pub get_task : Scheduler S → String → Option Task
  unfolding or_else
  get_task s task_id = or_else (find_item task_id s.pending_queue) (
      or_else (lookup task_id s.running_tasks)
        (or_else (lookup task_id s.completed_tasks) (lookup task_id s.failed_tasks)))

  unfoldable pub all_tasks : Scheduler S → List Task
  all_tasks s =
      map (λ item. item.task) s.pending_queue
      ++ (values s.running_tasks ++ (values s.completed_tasks ++ values s.failed_tasks))

  -- `if user_id`, `if status`: None and "" select everything.
  unfoldable pub list_tasks : Scheduler S → Option String → Option TaskStatus → List Task
  unfolding all_tasks newest_first has_user has_status select
  list_tasks s user_id status =
      newest_first (select (has_status status) (select (has_user user_id) (all_tasks s)))

  unfoldable pub get_queue_length : Scheduler S → ℕ
  get_queue_length s = length s.pending_queue
