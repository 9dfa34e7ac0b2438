-- ===== src/Scheduling/SchedulerTests.antt =====
-- The scheduler on concrete tasks.
use deepiri_zepgpu.Scheduling.Manager
use deepiri_zepgpu.Scheduling.Queue.Copies.{copies}
use deepiri_zepgpu.Scheduling.Device.{can_allocate, has_type}
use deepiri_zepgpu.Scheduling.Manager.{first_available}
use deepiri_zepgpu.Scheduling.Pool.{get_available_device}
use deepiri_zepgpu.Base.{
  string_eq, nat_eq, ok, ℕ, String, ◌≡◌, refl, true, none, some, [], ◌∷◌, map,
}
use deepiri_zepgpu.Scheduling.Tests.{Store, memory, two_peers}
use deepiri_zepgpu.Scheduling.Task.{
  scheduled, Task, TaskPriority, normal, high, pending, priority_value,
}
use deepiri_zepgpu.Scheduling.Queue.{before, queue_item, heappush}
use deepiri_zepgpu.Scheduling.Scheduler.{Scheduler, Setup, enqueue_task, submit_task}
use deepiri_zepgpu.Scheduling.Steps.{schedule_pending_tasks}
use deepiri_zepgpu.Scheduling.Invariant.{WellCounted}
use deepiri_zepgpu.Scheduling.Reach.{
  new_scheduler, Reachable, starts, continues, submits, schedules, Reachable-WellCounted,
}

abbrev one_slot : Setup Store
one_slot = record {
  redis = memory;
  connected = true;
  has_lock = true;
  ttl_seconds = 7200;
  has_pool = true;
  max_concurrent_tasks = 1;
  abs_hash = λ share. 7;
}

abbrev task_of : String → TaskPriority → ℕ → Task
task_of id level created = record {
  resources = record {
    gpu_memory_mb = 4000;
    cpu_cores = 1;
    timeout_seconds = 3600;
    gpu_type = none;
    allow_fallback_cpu = true;
    container_memory_mb = 1024;
  };
  priority = level;
  user_id = none;
  task_id = id;
  name = id;
  metadata = [];
  created_at = created;
  status = pending;
  result = none;
  error = none;
  traceback = none;
  started_at = none;
  completed_at = none;
  gpu_device_id = none;
  remote_peer_vpn_ip = none;
  remote_gpu_share_id = none;
  room_id = none;
  dispatch_mode = "local";
  target_peer_id = none;
  target_gpu_share_id = none;
  container_id = none;
  callback_url = none;
  tags = [];
}

abbrev slow : Task
slow = task_of "slow" normal 100

abbrev urgent_task : Task
urgent_task = task_of "urgent" high 200

abbrev started : Scheduler Store
started = new_scheduler two_peers

abbrev one_waiting : Scheduler Store
one_waiting = enqueue_task started slow

abbrev two_waiting : Scheduler Store
two_waiting = enqueue_task one_waiting urgent_task

abbrev one_running : Scheduler Store
one_running = schedule_pending_tasks one_slot two_waiting

submits_slow : submit_task started slow ≡ ok ("slow", one_waiting)
unfolding submit_task new_scheduler
submits_slow = refl

submits_urgent : submit_task one_waiting urgent_task ≡ ok ("urgent", two_waiting)
unfolding submit_task new_scheduler
submits_urgent = refl

-- The task of higher priority was submitted later and starts first.
starts_urgent : map (λ e. e.0) one_running.running_tasks ≡ "urgent" ∷ []
unfolding schedule_pending_tasks enqueue_task new_scheduler heappush before queue_item
    priority_value get_available_device deepiri_zepgpu.Scheduling.Manager.get_available_device
    first_available has_type can_allocate
starts_urgent = refl

reaches : Reachable one_slot one_running
unfolding new_scheduler copies enqueue_task heappush queue_item
reaches =
    continues two_waiting one_running
      (continues one_waiting two_waiting
        (continues started one_waiting (starts two_peers)
          (submits slow "slow" one_waiting refl submits_slow))
        (submits urgent_task "urgent" two_waiting refl submits_urgent))
      schedules

Reachable-WellCounted_example : WellCounted one_slot one_running
Reachable-WellCounted_example = Reachable-WellCounted one_slot one_running reaches

abbrev running_urgent : Task
running_urgent = record urgent_task {
  status = scheduled;
  gpu_device_id = some 0;
  remote_peer_vpn_ip = none;
  remote_gpu_share_id = none;
}
