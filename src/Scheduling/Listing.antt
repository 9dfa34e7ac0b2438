-- ===== src/Scheduling/Listing.antt =====
-- `list_tasks` of core/scheduler.py.
use deepiri_zepgpu.Base.{
  ltb, Bool-cases, All, ℕ, ◌≤◌, String, ◌≡◌, inl, inr, Bool, true, Option, List, [], ◌∷◌, arith,
}
use deepiri_zepgpu.Scheduling.Task.{Task, TaskStatus}
use deepiri_zepgpu.Scheduling.Scheduler.{
  Scheduler, select, has_user, has_status, insert_newest, newest_first, all_tasks, list_tasks,
}

-- No task is newer than one that stands ahead of it.
abbrev pub NewestFirst : List Task → Type 0
NewestFirst [] = Unit
NewestFirst (t ∷ tasks) = All (λ u. u.created_at ≤ t.created_at) tasks × NewestFirst tasks

All-insert_newest :
    (P : Task → Type 0) (t : Task) (tasks : List Task)
    → P t
    → All P tasks
    → All P (insert_newest t tasks)
unfolding insert_newest
All-insert_newest P t [] p h = (p, tt)
All-insert_newest P t (x ∷ xs) p h = elim (Bool-cases (ltb t.created_at x.created_at)) [
  | inl older ↦ rw older (h.0, All-insert_newest P t xs p h.1)
  | inr newer ↦ rw newer (p, h)
]

All-older :
    (bound limit : ℕ) (tasks : List Task)
    → limit ≤ bound
    → All (λ u. u.created_at ≤ limit) tasks
    → All (λ u. u.created_at ≤ bound) tasks
All-older bound limit [] le h = tt
All-older bound limit (x ∷ xs) le h = (omega (arith, le, h.0), All-older bound limit xs le h.1)

insert_newest-NewestFirst :
    (t : Task) (tasks : List Task) → NewestFirst tasks → NewestFirst (insert_newest t tasks)
unfolding insert_newest
insert_newest-NewestFirst t [] h = (tt, tt)
insert_newest-NewestFirst t (x ∷ xs) h = elim (Bool-cases (ltb t.created_at x.created_at)) [
  | inl older ↦ rw older (
    All-insert_newest (λ u. u.created_at ≤ x.created_at) t xs (ground (arith, older)) h.0,
    insert_newest-NewestFirst t xs h.1,
  )
  | inr newer ↦
      let le : x.created_at ≤ t.created_at = ground (arith, newer) in
      rw newer ((le, All-older t.created_at x.created_at xs le h.0), h)
]

newest_first-NewestFirst : (tasks : List Task) → NewestFirst (newest_first tasks)
unfolding newest_first
newest_first-NewestFirst [] = tt
newest_first-NewestFirst (t ∷ tasks) =
    insert_newest-NewestFirst t (newest_first tasks) (newest_first-NewestFirst tasks)

All-newest_first :
    (P : Task → Type 0) (tasks : List Task) → All P tasks → All P (newest_first tasks)
unfolding newest_first
All-newest_first P [] h = tt
All-newest_first P (t ∷ tasks) h =
    All-insert_newest P t (newest_first tasks) h.0 (All-newest_first P tasks h.1)

All-select : (test : Task → Bool) (tasks : List Task) → All (λ t. test t ≡ true) (select test tasks)
unfolding select
All-select test [] = tt
All-select test (t ∷ tasks) = elim (Bool-cases (test t)) [
  | inl passes ↦ rw passes (passes, All-select test tasks)
  | inr fails ↦ rw fails (All-select test tasks)
]

-- A listing has the newest tasks first, and only tasks of the status asked for.
pub list_tasks-NewestFirst :
    {S : Type 0} (s : Scheduler S) (user_id : Option String) (status : Option TaskStatus)
    → NewestFirst (list_tasks s user_id status)
      × All (λ t. has_status status t ≡ true) (list_tasks s user_id status)
unfolding list_tasks
list_tasks-NewestFirst s user_id status =
    let chosen = select (has_user user_id) (all_tasks s) in
    (
      newest_first-NewestFirst (select (has_status status) chosen),
      All-newest_first (λ t. has_status status t ≡ true) (select (has_status status) chosen)
          (All-select (has_status status) chosen),
    )
