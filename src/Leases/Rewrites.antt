-- ===== src/Leases/Rewrites.antt =====
-- deepiri_zepgpu/database/repositories/node_task_repository.py: the changes that the operations make to
-- a row, and what they leave to the table of assignments.
use deepiri_zepgpu.Base.Dict.{is_some, lookup, insert}
use deepiri_zepgpu.Base.{
  string_eq, nat_eq, Option-cases, ℕ, ◌≤◌, String, ◌≡◌, refl, sym, subst, ◌∙◌, ◌⊎◌, inl, inr, true,
  false, Option, none, some, arith,
}
use deepiri_zepgpu.Ledger.Json.{Payload, Conversions}
use deepiri_zepgpu.Leases.TaskRow.{TaskStatus}
use deepiri_zepgpu.Leases.Rows.{
  NodeAssignmentStatus, assigned, accepted, running, completed, failed, cancelled, is_terminal,
  is_claimed, NodeTaskAssignment, Tables,
}
use deepiri_zepgpu.Leases.Lifecycle.{
  Answer, ignore_terminal_conflict, save, mark_terminal, mapped_status, Durations, Ending,
  record_event, end_assignment, end_active, release_share, release_gpu_share, finish_task_of,
}
use deepiri_zepgpu.Leases.Operations.{reclaim, claim, start_task}
use deepiri_zepgpu.Leases.Advance.{
  Advances-refl, either, insert-Advances, Advances, Here, rank, Later,
}

rank_le : (s : NodeAssignmentStatus) → rank s ≤ 3
rank_le assigned = omega arith
rank_le accepted = omega arith
rank_le running = omega arith
rank_le completed = omega arith
rank_le failed = omega arith
rank_le cancelled = omega arith

rank-is_claimed :
    (s : NodeAssignmentStatus) → is_claimed s ≡ false → is_terminal s ≡ false → rank s ≡ 0
rank-is_claimed assigned h k = refl
rank-is_claimed accepted h k = ground arith
rank-is_claimed running h k = ground arith
rank-is_claimed completed h k = ground arith
rank-is_claimed failed h k = ground arith
rank-is_claimed cancelled h k = ground arith

rank-active : (s : NodeAssignmentStatus) → is_terminal s ≡ false → rank s ≤ 2
rank-active assigned h = omega arith
rank-active accepted h = omega arith
rank-active running h = omega arith
rank-active completed h = ground arith
rank-active failed h = ground arith
rank-active cancelled h = ground arith

-- A row that was active: the stage does not fall, and nothing else has to be kept but the request.
edit-Later :
    (a b : NodeTaskAssignment)
    → is_terminal a.status ≡ false
    → b.id ≡ a.id
    → rank a.status ≤ rank b.status
    → a.claim_generation ≤ b.claim_generation
    → (is_some a.cancel_requested_at ≡ false) ⊎ (is_some b.cancel_requested_at ≡ true)
    → Later a b
edit-Later a b active same_id stage generation request = record {
  same_id = same_id;
  stage = stage;
  generation = generation;
  request = request;
  end = inl active;
}

keep_request : (o : Option ℕ) → (is_some o ≡ false) ⊎ (is_some o ≡ true)
keep_request none = inl refl
keep_request (some n) = inr refl

pub end_assignment-Later :
    (now : ℕ) (status : NodeAssignmentStatus) (reason : String) (error : Option String)
    (a : NodeTaskAssignment)
    → is_terminal status ≡ true
    → is_terminal a.status ≡ false
    → Later a (end_assignment now status reason error a)
unfolding end_assignment
end_assignment-Later now assigned reason error a h active = ground arith
end_assignment-Later now accepted reason error a h active = ground arith
end_assignment-Later now running reason error a h active = ground arith
end_assignment-Later now completed reason error a h active =
    edit-Later a (end_assignment now completed reason error a) active refl (rank_le a.status)
      (omega arith) (keep_request a.cancel_requested_at)
end_assignment-Later now failed reason error a h active =
    edit-Later a (end_assignment now failed reason error a) active refl (rank_le a.status)
      (omega arith) (keep_request a.cancel_requested_at)
end_assignment-Later now cancelled reason error a h active =
    edit-Later a (end_assignment now cancelled reason error a) active refl (rank_le a.status)
      (omega arith) (inr (requested a.cancel_requested_at))
  where
    requested : (o : Option ℕ) → is_some (elim o [ none ↦ some now | some at ↦ some at ]) ≡ true
    requested none = refl
    requested (some n) = refl

pub reclaim-Later :
    (py : Conversions) (durations : Durations) (now lease : ℕ) (a : NodeTaskAssignment)
    → is_terminal a.status ≡ false
    → Later a (reclaim py durations now lease a)
unfolding reclaim
reclaim-Later py durations now lease a active =
    edit-Later a (reclaim py durations now lease a) active refl (omega arith) (omega arith)
      (keep_request a.cancel_requested_at)

pub claim-Later :
    (py : Conversions) (durations : Durations) (now lease : ℕ) (a : NodeTaskAssignment)
    → is_claimed a.status ≡ false
    → is_terminal a.status ≡ false
    → Later a (claim py durations now lease a)
unfolding claim
claim-Later py durations now lease a unclaimed active =
    let low = rank-is_claimed a.status unclaimed active in
    edit-Later a (claim py durations now lease a) active refl (omega arith) (omega arith)
      (keep_request a.cancel_requested_at)

-- `mark_running` on an active row.
pub start-Later :
    (a : NodeTaskAssignment) (at lease : Option ℕ)
    → is_terminal a.status ≡ false
    → Later a (record a { status = running; started_at = at; lease_expires_at = lease })
start-Later a at lease active =
    edit-Later a (record a { status = running; started_at = at; lease_expires_at = lease }) active
      refl (rank-active a.status active) (omega arith) (keep_request a.cancel_requested_at)

pub request-Later :
    (now : ℕ) (a : NodeTaskAssignment)
    → is_terminal a.status ≡ false
    → Later a (record a { cancel_requested_at = some now })
request-Later now a active =
    edit-Later a (record a { cancel_requested_at = some now }) active refl (omega arith)
      (omega arith) (inr refl)

pub release_gpu_share-assignments :
    (a : NodeTaskAssignment) (t : Tables) → (release_gpu_share a t).assignments ≡ t.assignments
unfolding release_gpu_share
release_gpu_share-assignments a t = by_share a.gpu_share_id
  where
    by_share :
        (o : Option String)
        → (release_gpu_share (record a { gpu_share_id = o }) t).assignments ≡ t.assignments
    by_share none = refl
    by_share (some share_id) =
        elim (Option-cases (release_share a.task_id (lookup share_id t.shares))) [
          | inl e ↦ rw (release_gpu_share, e)
          | inr (share, e) ↦ rw (release_gpu_share, e)
        ]

pub finish_task_of-assignments :
    (py : Conversions) (now : ℕ) (task_id : String) (status : TaskStatus) (error : Option String)
    (result : Option Payload) (t : Tables)
    → (finish_task_of py now task_id status error result t).assignments ≡ t.assignments
unfolding finish_task_of
finish_task_of-assignments py now task_id status error result t =
    elim (Option-cases (lookup task_id t.tasks)) [
      | inl e ↦ rw (finish_task_of, e)
      | inr (task, e) ↦ rw (finish_task_of, e)
    ]

pub start_task-assignments :
    (py : Conversions) (durations : Durations) (now : ℕ) (task_id : String) (t : Tables)
    → (start_task py durations now task_id t).assignments ≡ t.assignments
unfolding start_task
start_task-assignments py durations now task_id t = elim (Option-cases (lookup task_id t.tasks)) [
  | inl e ↦ rw (start_task, e)
  | inr (task, e) ↦ rw (start_task, e)
]

pub start_task-shares :
    (py : Conversions) (durations : Durations) (now : ℕ) (task_id : String) (t : Tables)
    → (start_task py durations now task_id t).shares ≡ t.shares
unfolding start_task
start_task-shares py durations now task_id t = elim (Option-cases (lookup task_id t.tasks)) [
  | inl e ↦ rw (start_task, e)
  | inr (task, e) ↦ rw (start_task, e)
]

-- `mark_terminal` leaves every row at a later version or the same.
pub end_active-assignments :
    (py : Conversions) (now : ℕ) (e : Ending) (a : NodeTaskAssignment) (t : Tables)
    → (end_active py now e a t).1.assignments
      ≡ insert
          (end_assignment now e.status e.reason e.error a).id
          (end_assignment now e.status e.reason e.error a)
          t.assignments
unfolding end_active record_event
end_active-assignments py now e a t =
    let ended = end_assignment now e.status e.reason e.error a in
    let status = mapped_status e.task_status e.status e.reason in
    release_gpu_share-assignments a
      (finish_task_of py now a.task_id status e.error e.result_metadata (save ended t))
    ∙ (finish_task_of-assignments py now a.task_id status e.error e.result_metadata (save ended t))

abbrev pub IsEnding : Ending → Type 0
IsEnding e = is_terminal e.status ≡ true

pub end_active-Advances :
    (py : Conversions) (now : ℕ) (e : Ending) (a : NodeTaskAssignment) (t : Tables)
    → IsEnding e
    → Here a t.assignments
    → is_terminal a.status ≡ false
    → Advances t.assignments (end_active py now e a t).1.assignments
end_active-Advances py now e a t ending here active =
    let ended = end_assignment now e.status e.reason e.error a in
    subst (Advances t.assignments) (sym (end_active-assignments py now e a t)) (
      insert-Advances t.assignments a ended here
        (end_assignment-Later now e.status e.reason e.error a ending active))

pub mark_terminal-Advances :
    (py : Conversions) (now : ℕ) (e : Ending) (a : NodeTaskAssignment) (t : Tables)
    → IsEnding e
    → Here a t.assignments
    → Advances t.assignments (mark_terminal py now e a t).1.assignments
unfolding mark_terminal ignore_terminal_conflict record_event
mark_terminal-Advances py now e a t ending here =
    either {A = Answer × Tables} (λ r. Advances t.assignments r.1.assignments)
      (is_terminal a.status) (λ h. Advances-refl t.assignments)
      (λ active. end_active-Advances py now e a t ending here active)
