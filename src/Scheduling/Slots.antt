-- ===== src/Scheduling/Slots.antt =====
-- `_schedule_pending_tasks` of core/scheduler.py keeps the counters true and starts no more tasks than
-- there are slots.
use deepiri_zepgpu.Base.{
  string_eq, nat_eq, Bool-cases, Option-cases, length, ℕ, zero, suc, ◌+◌, ◌-◌, ◌≤◌, min, ◌≡◌, refl,
  sym, subst, inl, inr, Bool, true, false, Option, none, some, List, [], ◌∷◌, arith,
}
use deepiri_zepgpu.Base.Dict.{insert}
use deepiri_zepgpu.Base.Int.{pos, ◌+ℤ◌, ◌-ℤ◌}
use deepiri_zepgpu.Base.DictSize.{length-insert_le}
use deepiri_zepgpu.Scheduling.Pool.{RemoteGpuDevice, GpuPool, Found, local, remote, allocate_device}
use deepiri_zepgpu.Scheduling.Task.{scheduled, Task}
use deepiri_zepgpu.Scheduling.Queue.{PriorityTaskItem, heappush}
use deepiri_zepgpu.Scheduling.Counts.{Counted-start, Counted, Counted-repush}
use deepiri_zepgpu.Scheduling.Scheduler.{Scheduler, Setup, QueueStats}
use deepiri_zepgpu.Scheduling.Steps.{
  schedule_pending_tasks, schedule_loop, schedule_next, find_device, place, start_task,
  schedule_item, remote_device_id,
}
use deepiri_zepgpu.Scheduling.Invariant.{WellCounted}

module _ {S : Type 0} (setup : Setup S) where
  -- The task that a placement returns is the one that was to be placed.
  abbrev KeepsId : Task → Option Task → Type 0
  KeepsId task none = Unit
  KeepsId task (some t) = t.task_id ≡ task.task_id

  place-KeepsId :
      (pool : GpuPool S) (task : Task) (device : Found)
      → KeepsId task (place setup pool task device).0
  unfolding place
  place-KeepsId pool task (local d) = refl
  place-KeepsId pool task (remote d) = elim (Bool-cases setup.has_pool) [
    | inr no_pool ↦ rw no_pool refl
    | inl pooled ↦ elim (Bool-cases (answer pool task d).0) [
      | inl allowed ↦ rw (place, pooled, allowed) refl
      | inr refused ↦ rw (place, pooled, refused) tt
    ]
  ]
    where
      answer : GpuPool S → Task → RemoteGpuDevice → Bool × GpuPool S
      answer pool task d =
          allocate_device setup.redis setup.connected setup.has_lock setup.ttl_seconds pool
            (remote_device_id setup d) task.task_id true (some d.share_id)

  -- The state after a round: its counters are true, and at most one more task is running.
  abbrev Advanced : Scheduler S → Scheduler S → Type 0
  Advanced s s' = WellCounted setup s' × (length s'.running_tasks ≤ suc (length s.running_tasks))

  schedule_item-Advanced :
      (s : Scheduler S) (item : PriorityTaskItem) (rest : List PriorityTaskItem)
      → Counted setup.max_concurrent_tasks (item ∷ rest) s.running_tasks s.stats
      → suc (length s.running_tasks) ≤ setup.max_concurrent_tasks
      → Advanced s (schedule_item setup s item rest).1
  unfolding schedule_item start_task
  schedule_item-Advanced s item rest c free =
      elim (Option-cases (find_device setup s.pool item.task)) [
        | inl nothing ↦ rw (schedule_item, nothing) (Counted-repush c, omega arith)
        | inr (device, found) ↦
            rw (schedule_item, found)
              (placed (place setup s.pool item.task device) (place-KeepsId s.pool item.task device))
      ]
    where
      counted : QueueStats → QueueStats
      counted stats = record stats {
        pending_tasks = stats.pending_tasks -ℤ pos 1;
        running_tasks = stats.running_tasks +ℤ pos 1;
      }

      placed :
          (r : Option Task × GpuPool S)
          → KeepsId item.task r.0
          → Advanced s
              (elim r.0 as (λ _. Bool × Scheduler S) [
                | none ↦ (false, record s { pending_queue = heappush item rest; pool = r.1 })
                | some task ↦
                    (true, start_task setup (record s { pending_queue = rest; pool = r.1 }) task)
              ]).1
      placed (none, p) h = (Counted-repush c, omega arith)
      placed (some t, p) h = (
        subst
            (λ k.
              Counted setup.max_concurrent_tasks rest
                (insert k (record t { status = scheduled }) s.running_tasks) (counted s.stats))
            (sym h) (Counted-start c free (record t { status = scheduled })),
        length-insert_le t.task_id (record t { status = scheduled }) s.running_tasks,
      )

  schedule_next-Advanced :
      (s : Scheduler S)
      → WellCounted setup s
      → suc (length s.running_tasks) ≤ setup.max_concurrent_tasks
      → Advanced s (schedule_next setup s).1
  unfolding schedule_next
  schedule_next-Advanced s c free = go s.pending_queue refl
    where
      go :
          (queue : List PriorityTaskItem)
          → s.pending_queue ≡ queue
          → Advanced s
              (elim queue as (λ _. Bool × Scheduler S) [
                | [] ↦ (false, s)
                | item ∷ rest ↦ schedule_item setup s item rest
              ]).1
      go [] e = (c, omega arith)
      go (item ∷ rest) e =
          schedule_item-Advanced s item rest
            (subst (λ q. Counted setup.max_concurrent_tasks q s.running_tasks s.stats) e c) free

  schedule_loop-WellCounted :
      (n : ℕ) (s : Scheduler S)
      → WellCounted setup s
      → length s.running_tasks + n ≤ setup.max_concurrent_tasks
      → WellCounted setup (schedule_loop setup n s)
  unfolding schedule_loop
  schedule_loop-WellCounted zero s c free = c
  schedule_loop-WellCounted (suc n) s c free =
      let advanced = schedule_next-Advanced s c (omega (arith, free)) in
      elim (Bool-cases (schedule_next setup s).0) [
        | inl continues ↦ rw continues (
            schedule_loop-WellCounted n (schedule_next setup s).1 advanced.0
              (omega (arith, advanced.1, free)))
        | inr breaks ↦ rw breaks advanced.0
      ]

  pub schedule_pending_tasks-WellCounted :
      (s : Scheduler S) → WellCounted setup s → WellCounted setup (schedule_pending_tasks setup s)
  unfolding schedule_pending_tasks
  schedule_pending_tasks-WellCounted s c =
      schedule_loop-WellCounted
        (min (setup.max_concurrent_tasks - length s.running_tasks) (length s.pending_queue)) s c
        (omega (arith, c.within))
