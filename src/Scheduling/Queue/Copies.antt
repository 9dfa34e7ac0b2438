-- ===== src/Scheduling/Queue/Copies.antt =====
-- How often a task stands in the queue of core/scheduler.py, and how long the queue is.
use deepiri_zepgpu.Base.{
  string_eq, nat_eq, ◌==◌, Bool-cases, length, ℕ, suc, ◌+◌, ◌≤◌, String, ◌≡◌, refl, inl, inr, Bool,
  true, false, Option, none, some, List, [], ◌∷◌, arith,
}
use deepiri_zepgpu.Scheduling.Queue.{PriorityTaskItem, heappush, take_item}

-- 1 for a test that holds.
abbrev pub bit : Bool → ℕ
bit true = 1
bit false = 0

unfoldable pub copies : String → List PriorityTaskItem → ℕ
copies k [] = 0
copies k (item ∷ items) = bit (item.task.task_id == k) + copies k items

pub copies-cons :
    (k : String) (item : PriorityTaskItem) (items : List PriorityTaskItem)
    → copies k (item ∷ items) ≡ bit (item.task.task_id == k) + copies k items
unfolding copies
copies-cons k item items = refl

pub copies-heappush :
    (k : String) (item : PriorityTaskItem) (items : List PriorityTaskItem)
    → copies k (heappush item items) ≡ bit (item.task.task_id == k) + copies k items
unfolding copies heappush
copies-heappush k item [] = refl
copies-heappush k item (x ∷ xs) = ground (arith, copies-heappush k item xs)

pub length-heappush :
    (item : PriorityTaskItem) (items : List PriorityTaskItem)
    → length (heappush item items) ≡ suc (length items)
unfolding heappush
length-heappush item [] = refl
length-heappush item (x ∷ xs) = ground (arith, length-heappush item xs)

-- What is left after an item was taken.
abbrev pub Took : List PriorityTaskItem → Option (PriorityTaskItem × List PriorityTaskItem) → Type 0
Took items none = Unit
Took items (some (item, rest)) =
    (length items ≡ suc (length rest)) × ((k : String) → copies k rest ≤ copies k items)

pub take_item-Took :
    (task_id : String) (items : List PriorityTaskItem) → Took items (take_item task_id items)
unfolding take_item copies
take_item-Took task_id [] = tt
take_item-Took task_id (item ∷ items) = elim (Bool-cases (item.task_id == task_id)) [
  | inl here ↦ rw here (refl, λ k. omega arith)
  | inr further ↦ rw further (onwards (take_item task_id items) (take_item-Took task_id items))
]
  where
    onwards :
        (r : Option (PriorityTaskItem × List PriorityTaskItem))
        → Took items r
        → Took (item ∷ items) (elim r [ none ↦ none | some found ↦ some (found.0, item ∷ found.1) ])
    onwards none h = tt
    onwards (some (x, rest)) h = (omega (arith, h.0), λ k. omega (arith, h.1 k))
