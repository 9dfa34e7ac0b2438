-- ===== src/Scheduling/Queue.antt =====
-- The pending queue of core/scheduler.py. The heap is a list in the order in which heappop would
-- take its items; heapq promises no order among items of one key, and this list keeps theirs.
pub mod Copies
use deepiri_zepgpu.Base.{
  ltb, if◌then◌else◌, string_eq, nat_eq, ◌==◌, ℕ, ◌+◌, ◌-◌, ◌*◌, String, Bool, ◌&&◌, ◌||◌, Option,
  none, some, List, [], ◌∷◌,
}
use deepiri_zepgpu.Scheduling.Task.{Task, priority_value}

-- `@dataclass(order=True)`: compared by priority, then by created_at.
pub record PriorityTaskItem : Type 0 where
  pub priority : ℕ
  pub created_at : ℕ
  pub task_id : String
  pub task : Task

-- `a < b`
unfoldable pub before : PriorityTaskItem → PriorityTaskItem → Bool
before a b = ltb a.priority b.priority || a.priority == b.priority && ltb a.created_at b.created_at

-- `heapq.heappush`; `heapq.heappop` takes the first item.
unfoldable pub heappush : PriorityTaskItem → List PriorityTaskItem → List PriorityTaskItem
heappush item [] = item ∷ []
heappush item (x ∷ xs) = if before item x then item ∷ x ∷ xs else x ∷ heappush item xs

-- The item of a task: the numeric key puts a higher priority first, then an earlier task.
unfoldable pub queue_item : Task → PriorityTaskItem
queue_item task = record {
  priority = (6 - priority_value task.priority) * 1000000000 + task.created_at;
  created_at = task.created_at;
  task_id = task.task_id;
  task = task;
}

-- The first item of a task, and the queue without it: the search of `cancel_task`.
unfoldable pub take_item :
    String → List PriorityTaskItem → Option (PriorityTaskItem × List PriorityTaskItem)
take_item task_id [] = none
take_item task_id (item ∷ items) =
    let rest = take_item task_id items in
    if item.task_id == task_id
    then some (item, items)
    else elim rest [ none ↦ none | some found ↦ some (found.0, item ∷ found.1) ]

-- The search of `get_task`.
unfoldable pub find_item : String → List PriorityTaskItem → Option Task
find_item task_id [] = none
find_item task_id (item ∷ items) =
    if item.task_id == task_id then some item.task else find_item task_id items
