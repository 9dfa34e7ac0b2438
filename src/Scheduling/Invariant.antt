-- ===== src/Scheduling/Invariant.antt =====
-- Every operation of core/scheduler.py keeps the counters true, the task ids apart and the number of
-- running tasks within its limit.
use deepiri_zepgpu.Base.{
  string_eq, nat_eq, Bool-cases, Option-cases, ok-injective, ok, raise, ℕ, ◌+◌, String, ◌≡◌, refl,
  sym, ap, subst, ◌∙◌, inl, inr, ◌&&◌, Option, some,
}
use deepiri_zepgpu.Base.Int.{int_laws}
use deepiri_zepgpu.Base.Dict.{lookup, contains}
use deepiri_zepgpu.Scheduling.Pool.{GpuPool}
use deepiri_zepgpu.Scheduling.Task.{queued, Task, completed, failed, cancelled}
use deepiri_zepgpu.Scheduling.Queue.{queue_item, take_item}
use deepiri_zepgpu.Scheduling.Queue.Copies.{take_item-Took, Took, bit, copies}
use deepiri_zepgpu.Scheduling.Counts.{
  Counted-drop, Counted-push, Counted, Counted-update, Counted-finish,
}
use deepiri_zepgpu.Scheduling.Scheduler.{
  quota_exceeded, enqueue_task, Scheduler, Setup, submit_task, notify_callback, check_user_quota,
  is_set,
}
use deepiri_zepgpu.Scheduling.Steps.{
  release_gpu_for_task, cancel_task, mark_task_running, mark_task_completed, mark_task_failed,
}

module _ {S : Type 0} (setup : Setup S) where
  abbrev pub WellCounted : Scheduler S → Type 0
  WellCounted s = Counted setup.max_concurrent_tasks s.pending_queue s.running_tasks s.stats

  pub notify_callback-WellCounted :
      (s : Scheduler S) (task : Task) → WellCounted s → WellCounted (notify_callback s task)
  unfolding notify_callback
  notify_callback-WellCounted s task c =
      elim (Option-cases (lookup task.task_id s.task_callbacks)) [
        | inl absent ↦ rw (notify_callback, absent) c
        | inr (callback, there) ↦ rw (notify_callback, there) c
      ]

  -- A release changes devices alone, and of the task only where it runs.
  pub release_gpu_cases :
      (s : Scheduler S) (task : Task)
      → (p : GpuPool S) × (t : Task) × (release_gpu_for_task setup s task
          ≡ (t, record s { pool = p }))
        × (t.status ≡ task.status)
  unfolding release_gpu_for_task
  release_gpu_cases s task = elim (Bool-cases (is_set task.remote_gpu_share_id && setup.has_pool)) [
    | inl far ↦ (
      released.1.pool,
      released.0,
      rw (release_gpu_for_task, far) refl,
      rw (release_gpu_for_task, far) refl,
    )
    | inr near ↦ elim (Option-cases task.gpu_device_id) [
      | inl absent ↦ (
        released.1.pool,
        released.0,
        rw (release_gpu_for_task, near, absent) refl,
        rw (release_gpu_for_task, near, absent) refl,
      )
      | inr (d, there) ↦ (
        released.1.pool,
        released.0,
        rw (release_gpu_for_task, near, there) refl,
        rw (release_gpu_for_task, near, there) refl,
      )
    ]
  ]
    where
      released : Task × Scheduler S
      released = release_gpu_for_task setup s task

  pub submit_task-WellCounted :
      (s s' : Scheduler S) (task : Task) (id : String)
      → copies task.task_id s.pending_queue + bit (contains task.task_id s.running_tasks) ≡ 0
      → submit_task s task ≡ ok (id, s')
      → WellCounted s
      → WellCounted s'
  unfolding submit_task enqueue_task queue_item
  submit_task-WellCounted s s' task id fresh done c =
      elim (Bool-cases (check_user_quota s task.user_id)) [
        | inl granted ↦
            let accepted : submit_task s task ≡ ok (task.task_id, enqueue_task s task) =
              rw (submit_task, granted) refl in
            let same_state = ap (λ r. r.1) (ok-injective (sym accepted ∙ done)) in
            subst WellCounted same_state
              (Counted-push c (queue_item (record task { status = queued })) fresh)
        | inr refused ↦
            let rejected : submit_task s task ≡ raise quota_exceeded =
              rw (submit_task, refused) refl in
            absurd cc
      ]

  pub mark_task_running-WellCounted :
      (s : Scheduler S) (id : String) (now : ℕ)
      → WellCounted s
      → WellCounted (mark_task_running setup s id now)
  unfolding mark_task_running
  mark_task_running-WellCounted s id now c = elim (Option-cases (lookup id s.running_tasks)) [
    | inl absent ↦ rw (mark_task_running, absent) c
    | inr (t, there) ↦ rw (mark_task_running, there) (Counted-update c id t _ there)
  ]

  pub mark_task_completed-WellCounted :
      (s : Scheduler S) (id : String) (result : Option String) (now : ℕ)
      → WellCounted s
      → WellCounted (mark_task_completed setup s id result now)
  unfolding mark_task_completed
  mark_task_completed-WellCounted s id result now c =
      elim (Option-cases (lookup id s.running_tasks)) [
        | inl absent ↦ rw (mark_task_completed, absent) c
        | inr (t, there) ↦
            let (p, t', released, _) =
              release_gpu_cases s
                (record t { status = completed; completed_at = some now; result = result }) in
            rw (mark_task_completed, there, released)
              (notify_callback-WellCounted _ t'
                (Counted-finish c id t _ there refl refl refl (grind int_laws)))
      ]

  pub mark_task_failed-WellCounted :
      (s : Scheduler S) (id error : String) (traceback : Option String) (now : ℕ)
      → WellCounted s
      → WellCounted (mark_task_failed setup s id error traceback now)
  unfolding mark_task_failed
  mark_task_failed-WellCounted s id error traceback now c =
      elim (Option-cases (lookup id s.running_tasks)) [
        | inl absent ↦ rw (mark_task_failed, absent) c
        | inr (t, there) ↦
            let (p, t', released, _) = release_gpu_cases s (record t {
              status = failed;
              completed_at = some now;
              error = some error;
              traceback = traceback;
            }) in
            rw (mark_task_failed, there, released)
              (notify_callback-WellCounted _ t'
                (Counted-finish c id t _ there refl refl refl (grind int_laws)))
      ]

  pub cancel_task-WellCounted :
      (s : Scheduler S) (id : String) → WellCounted s → WellCounted (cancel_task setup s id).1
  unfolding cancel_task
  cancel_task-WellCounted s id c = elim (Option-cases (take_item id s.pending_queue)) [
    | inr ((item, rest), taken) ↦
        let took = subst (Took s.pending_queue) taken (take_item-Took id s.pending_queue) in
        rw (cancel_task, taken)
          (notify_callback-WellCounted _ _ (Counted-drop c rest took.0 took.1))
    | inl none_pending ↦ elim (Option-cases (lookup id s.running_tasks)) [
      | inl absent ↦ rw (cancel_task, none_pending, absent) c
      | inr (t, there) ↦
          let (p, t', released, _) = release_gpu_cases s (record t { status = cancelled }) in
          rw (cancel_task, none_pending, there, released)
            (notify_callback-WellCounted _ t' (Counted-update c id t t' there))
    ]
  ]
