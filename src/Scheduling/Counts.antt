-- ===== src/Scheduling/Counts.antt =====
-- The counters of core/scheduler.py and what they count: how each move of a task keeps them true.
use deepiri_zepgpu.Base.{
  string_eq, nat_eq, ◌==◌, beq_self, eq_of_beq, Bool-cases, length, ℕ, suc, ◌+◌, ◌≤◌, String, ◌≡◌,
  subst, ◌∙◌, inl, inr, false, some, List, ◌∷◌, arith,
}
use deepiri_zepgpu.Base.Int.{pos, ◌+ℤ◌, ◌-ℤ◌, int_laws}
use deepiri_zepgpu.Base.Dict.{
  Dict, lookup, insert, erase, contains, NodupKeys, insert-NodupKeys, erase-NodupKeys,
}
use deepiri_zepgpu.Base.DictSize.{
  contains-insert, lookup-contains, length-insert_new, contains-erase, contains-insert_old,
  length-insert_old, length-erase,
}
use deepiri_zepgpu.Scheduling.Task.{Task}
use deepiri_zepgpu.Scheduling.Queue.{PriorityTaskItem, heappush}
use deepiri_zepgpu.Scheduling.Queue.Copies.{
  copies-cons, bit, copies, copies-heappush, length-heappush,
}
use deepiri_zepgpu.Scheduling.Scheduler.{QueueStats}

-- The queue and the running tasks, as the statistics count them. A task stands in one of them, once.
pub record Counted (slots : ℕ) (queue : List PriorityTaskItem) (running : Dict String Task)
    (stats : QueueStats) : Type 0 where
  pub pending_tasks : stats.pending_tasks ≡ pos (length queue)
  pub running_tasks : stats.running_tasks ≡ pos (length running)
  pub total_tasks :
      stats.total_tasks
      ≡ stats.pending_tasks +ℤ stats.running_tasks +ℤ stats.completed_tasks +ℤ stats.failed_tasks
  pub within : length running ≤ slots
  pub keys : NodupKeys running
  pub once : (k : String) → copies k queue + bit (contains k running) ≤ 1

module _ {slots : ℕ} {queue : List PriorityTaskItem} {running : Dict String Task}
    {stats : QueueStats} (c : Counted slots queue running stats) where
  pub Counted-push :
      (item : PriorityTaskItem)
      → copies item.task.task_id queue + bit (contains item.task.task_id running) ≡ 0
      → Counted slots (heappush item queue) running (record stats {
        pending_tasks = stats.pending_tasks +ℤ pos 1;
        total_tasks = stats.total_tasks +ℤ pos 1;
      })
  Counted-push item fresh = record {
    pending_tasks = grind (int_laws, c.pending_tasks, length-heappush item queue);
    running_tasks = c.running_tasks;
    total_tasks = grind (int_laws, c.total_tasks);
    within = c.within;
    keys = c.keys;
    once = λ k. elim (Bool-cases (item.task.task_id == k)) [
      | inl e ↦
          rw (copies-heappush k item queue, e)
            (subst (λ j. 1 + copies j queue + bit (contains j running) ≤ 1)
              (eq_of_beq item.task.task_id k e) (omega (arith, fresh)))
      | inr e ↦ rw (copies-heappush k item queue, e) (omega (arith, c.once k))
    ];
  }

  -- An item is taken out for good.
  pub Counted-drop :
      (rest : List PriorityTaskItem)
      → length queue ≡ suc (length rest)
      → ((k : String) → copies k rest ≤ copies k queue)
      → Counted slots rest running (record stats {
        pending_tasks = stats.pending_tasks -ℤ pos 1;
        failed_tasks = stats.failed_tasks +ℤ pos 1;
      })
  Counted-drop rest shorter fewer = record {
    pending_tasks = grind (int_laws, c.pending_tasks, shorter);
    running_tasks = c.running_tasks;
    total_tasks = grind (int_laws, c.total_tasks);
    within = c.within;
    keys = c.keys;
    once = λ k. omega (arith, fewer k, c.once k);
  }

  -- The entry of a running task changes.
  pub Counted-update :
      (k : String) (t u : Task)
      → lookup k running ≡ some t
      → Counted slots queue (insert k u running) stats
  Counted-update k t u there = record {
    pending_tasks = c.pending_tasks;
    running_tasks = rw (length-insert_old k u t running there) c.running_tasks;
    total_tasks = c.total_tasks;
    within = rw (length-insert_old k u t running there) c.within;
    keys = insert-NodupKeys k u running c.keys;
    once = λ j. rw (contains-insert_old j k u t running there) (c.once j);
  }

  -- A running task ends: one more is completed or failed.
  pub Counted-finish :
      (k : String) (t : Task) (stats' : QueueStats)
      → lookup k running ≡ some t
      → stats'.pending_tasks ≡ stats.pending_tasks
      → stats'.running_tasks ≡ stats.running_tasks -ℤ pos 1
      → stats'.total_tasks ≡ stats.total_tasks
      → stats'.completed_tasks +ℤ stats'.failed_tasks
        ≡ stats.completed_tasks +ℤ stats.failed_tasks +ℤ pos 1
      → Counted slots queue (erase k running) stats'
  Counted-finish k t stats' there pending less total ended = record {
    pending_tasks = pending ∙ c.pending_tasks;
    running_tasks = grind (int_laws, less, c.running_tasks, length-erase k t running there);
    total_tasks = grind (int_laws, total, pending, less, c.total_tasks, ended);
    within = omega (arith, length-erase k t running there, c.within);
    keys = erase-NodupKeys k running c.keys;
    once = λ j. ground (arith, contains-erase j k running, c.once j);
  }

-- The first item of the queue starts to run.
pub Counted-start :
    {slots : ℕ} {item : PriorityTaskItem} {rest : List PriorityTaskItem}
    {running : Dict String Task} {stats : QueueStats}
    → Counted slots (item ∷ rest) running stats
    → suc (length running) ≤ slots
    → (t : Task)
    → Counted slots rest (insert item.task.task_id t running) (record stats {
      pending_tasks = stats.pending_tasks -ℤ pos 1;
      running_tasks = stats.running_tasks +ℤ pos 1;
    })
Counted-start {slots} {item} {rest} {running} {stats} c free t = record {
  pending_tasks = grind (int_laws, c.pending_tasks);
  running_tasks = grind (int_laws, c.running_tasks, grown);
  total_tasks = grind (int_laws, c.total_tasks);
  within = omega (arith, grown, free);
  keys = insert-NodupKeys id t running c.keys;
  once = λ j. ground (arith, contains-insert j id t running, c.once j, copies-cons j item rest);
}
  where
    id : String
    id = item.task.task_id

    absent : contains id running ≡ false
    absent = ground (arith, c.once id, copies-cons id item rest, beq_self id)

    grown : length (insert id t running) ≡ suc (length running)
    grown = length-insert_new id t running (lookup-contains id running absent)

-- An item that found no device goes back.
pub Counted-repush :
    {slots : ℕ} {item : PriorityTaskItem} {rest : List PriorityTaskItem}
    {running : Dict String Task} {stats : QueueStats}
    → Counted slots (item ∷ rest) running stats
    → Counted slots (heappush item rest) running stats
Counted-repush {slots} {item} {rest} {running} c = record {
  pending_tasks = rw (length-heappush item rest) c.pending_tasks;
  running_tasks = c.running_tasks;
  total_tasks = c.total_tasks;
  within = c.within;
  keys = c.keys;
  once = λ k. omega (arith, copies-heappush k item rest, copies-cons k item rest, c.once k);
}
