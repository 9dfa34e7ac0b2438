-- ===== src/Scheduling/Steps.antt =====
-- deepiri_zepgpu/core/scheduler.py: the operations that move a task between the queue, the running
-- tasks and the finished ones.
use deepiri_zepgpu.Base.{
  if◌then◌else◌, string_eq, nat_eq, length, ℕ, zero, suc, ◌-◌, ◌%◌, min, String, Bool, true, false,
  not, ◌&&◌, Option, none, some, List, [], ◌∷◌,
}
use deepiri_zepgpu.Base.Int.{pos, ◌+ℤ◌, ◌-ℤ◌}
use deepiri_zepgpu.Base.Dict.{lookup, insert, erase}
use deepiri_zepgpu.Scheduling.Device.{GpuDevice}
use deepiri_zepgpu.Scheduling.Manager
use deepiri_zepgpu.Scheduling.Pool
use deepiri_zepgpu.Scheduling.Pool.{RemoteGpuDevice, GpuPool, Found, local, remote, release_device}
use deepiri_zepgpu.Scheduling.Task.{Task, scheduled, running, completed, failed, cancelled}
use deepiri_zepgpu.Scheduling.Queue.{PriorityTaskItem, heappush, take_item}
use deepiri_zepgpu.Scheduling.Scheduler.{Scheduler, Setup, is_set, notify_callback}

-- `task.gpu_device_id or 0`
unfoldable pub device_or_zero : Option ℕ → ℕ
device_or_zero none = 0
device_or_zero (some d) = d

unfoldable pub as_local : Option GpuDevice → Option Found
as_local none = none
as_local (some d) = some (local d)

module _ {S : Type 0} (setup : Setup S) where
  unfoldable pub release_gpu_for_task : Scheduler S → Task → Task × Scheduler S
  unfolding is_set
  release_gpu_for_task s task =
      if is_set task.remote_gpu_share_id && setup.has_pool
      then (
        record task { remote_gpu_share_id = none; remote_peer_vpn_ip = none; gpu_device_id = none },
        record s {
          pool =
              release_device setup.redis setup.connected setup.has_lock setup.ttl_seconds s.pool
                (device_or_zero task.gpu_device_id) true task.remote_gpu_share_id
                (some task.task_id);
        },
      )
      else elim task.gpu_device_id [
        | none ↦ (task, s)
        | some device_id ↦ (
          record task { gpu_device_id = none },
          record s {
            pool = record (s.pool) {
              local_manager = Manager.release_device s.pool.local_manager device_id;
            };
          },
        )
      ]

  -- The two devices that `_schedule_pending_tasks` asks for, one after the other.
  unfoldable pub find_device : GpuPool S → Task → Option Found
  unfolding as_local is_set
  find_device pool task =
      let resources = task.resources in
      let first =
        if setup.has_pool
        then Pool.get_available_device pool resources.gpu_memory_mb resources.gpu_type task.room_id
            (is_set task.room_id)
        else as_local (
            Manager.get_available_device pool.local_manager resources.gpu_memory_mb
              resources.gpu_type) in
      elim first [
        | some device ↦ some device
        | none ↦
            if resources.allow_fallback_cpu
            then as_local (Manager.get_available_device pool.local_manager 0 (some "cpu"))
            else none
      ]

  -- `device.device_id` of a remote device.
  unfoldable pub remote_device_id : RemoteGpuDevice → ℕ
  remote_device_id d = setup.abs_hash d.share_id % 1000000

  -- The allocation: the task with its device, or None where the pool refused, and the pool.
  unfoldable pub place : GpuPool S → Task → Found → Option Task × GpuPool S
  unfolding remote_device_id
  place pool task (local d) =
      let allocation = Manager.allocate_device pool.local_manager d.device_id task.task_id in
      (
        some (record task {
          gpu_device_id = some d.device_id;
          remote_peer_vpn_ip = none;
          remote_gpu_share_id = none;
        }),
        record pool { local_manager = allocation.1 },
      )
  place pool task (remote d) =
      let placed = record task {
        gpu_device_id = some (remote_device_id d);
        remote_peer_vpn_ip = some d.vpn_ip;
        remote_gpu_share_id = some d.share_id;
      } in
      let (allowed, pool') =
        Pool.allocate_device setup.redis setup.connected setup.has_lock setup.ttl_seconds pool
          (remote_device_id d) task.task_id true (some d.share_id) in
      if not setup.has_pool
      then (some placed, pool)
      else if allowed
      then (some placed, pool')
      else (none, pool')

  -- The task is running on its device.
  unfoldable pub start_task : Scheduler S → Task → Scheduler S
  start_task s task = record s {
    running_tasks = insert task.task_id (record task { status = scheduled }) s.running_tasks;
    stats = record (s.stats) {
      pending_tasks = s.stats.pending_tasks -ℤ pos 1;
      running_tasks = s.stats.running_tasks +ℤ pos 1;
    };
  }

  -- One round of the loop for the item popped; `false` is its `break`. A placement that the pool
  -- refuses may still have changed the pool.
  unfoldable pub schedule_item :
      Scheduler S → PriorityTaskItem → List PriorityTaskItem → Bool × Scheduler S
  unfolding find_device place start_task
  schedule_item s item rest = elim (find_device s.pool item.task) [
    | none ↦ (false, record s { pending_queue = heappush item rest })
    | some device ↦
        let placement = place s.pool item.task device in
        elim placement.0 [
          | none ↦ (false, record s { pending_queue = heappush item rest; pool = placement.1 })
          | some task ↦
              (true, start_task (record s { pending_queue = rest; pool = placement.1 }) task)
        ]
  ]

  unfoldable pub schedule_next : Scheduler S → Bool × Scheduler S
  unfolding schedule_item
  schedule_next s = elim s.pending_queue [
    | [] ↦ (false, s)
    | item ∷ rest ↦ schedule_item s item rest
  ]

  unfoldable pub schedule_loop : ℕ → Scheduler S → Scheduler S
  unfolding schedule_next
  schedule_loop zero s = s
  schedule_loop (suc n) s =
      let (continues, s') = schedule_next s in
      let rest = schedule_loop n s' in if continues then rest else s'

  unfoldable pub schedule_pending_tasks : Scheduler S → Scheduler S
  unfolding schedule_loop
  schedule_pending_tasks s =
      let available_slots = setup.max_concurrent_tasks - length s.running_tasks in
      schedule_loop (min available_slots (length s.pending_queue)) s

  unfoldable pub cancel_task : Scheduler S → String → Bool × Scheduler S
  unfolding release_gpu_for_task
  cancel_task s task_id = elim (take_item task_id s.pending_queue) [
    | some (item, rest) ↦
        let task = record (item.task) { status = cancelled } in
        (
          true,
          notify_callback
              (record s {
                pending_queue = rest;
                failed_tasks = insert task_id task s.failed_tasks;
                stats = record (s.stats) {
                  pending_tasks = s.stats.pending_tasks -ℤ pos 1;
                  failed_tasks = s.stats.failed_tasks +ℤ pos 1;
                };
              })
              task,
        )
    | none ↦ elim (lookup task_id s.running_tasks) [
      | none ↦ (false, s)
      | some task ↦
          let (task', s') = release_gpu_for_task s (record task { status = cancelled }) in
          (
            true,
            notify_callback (record s' { running_tasks = insert task_id task' s'.running_tasks })
                task',
          )
    ]
  ]

  unfoldable pub mark_task_running : Scheduler S → String → ℕ → Scheduler S
  mark_task_running s task_id now = elim (lookup task_id s.running_tasks) [
    | none ↦ s
    | some task ↦ record s {
      running_tasks =
          insert task_id (record task { status = running; started_at = some now }) s.running_tasks;
    }
  ]

  unfoldable pub mark_task_completed : Scheduler S → String → Option String → ℕ → Scheduler S
  unfolding release_gpu_for_task
  mark_task_completed s task_id result now = elim (lookup task_id s.running_tasks) [
    | none ↦ s
    | some task ↦
        let (task', s') =
          release_gpu_for_task s
            (record task { status = completed; completed_at = some now; result = result }) in
        notify_callback
          (record s' {
            running_tasks = erase task_id s.running_tasks;
            completed_tasks = insert task_id task' s.completed_tasks;
            stats = record (s.stats) {
              running_tasks = s.stats.running_tasks -ℤ pos 1;
              completed_tasks = s.stats.completed_tasks +ℤ pos 1;
            };
          })
          task'
  ]

  unfoldable pub mark_task_failed : Scheduler S → String → String → Option String → ℕ → Scheduler S
  unfolding release_gpu_for_task
  mark_task_failed s task_id error traceback now = elim (lookup task_id s.running_tasks) [
    | none ↦ s
    | some task ↦
        let (task', s') = release_gpu_for_task s (record task {
          status = failed;
          completed_at = some now;
          error = some error;
          traceback = traceback;
        }) in
        notify_callback
          (record s' {
            running_tasks = erase task_id s.running_tasks;
            failed_tasks = insert task_id task' s.failed_tasks;
            stats = record (s.stats) {
              running_tasks = s.stats.running_tasks -ℤ pos 1;
              failed_tasks = s.stats.failed_tasks +ℤ pos 1;
            };
          })
          task'
  ]
