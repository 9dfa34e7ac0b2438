-- ===== src/Leases/Operations.antt =====
-- deepiri_zepgpu/database/repositories/node_task_repository.py: the calls of agents and hosts on an
-- assignment. `none` is the answer None.
use deepiri_zepgpu.Base.Dict.{insert, is_some, lookup}
use deepiri_zepgpu.Base.Int.{ℤ}
use deepiri_zepgpu.Base.{
  if◌then◌else◌, string_eq, nat_eq, ℕ, ◌+◌, String, true, false, not, ◌||◌, Option, none, some, [],
}
use deepiri_zepgpu.Ledger.Json.{Payload, Conversions}
use deepiri_zepgpu.Leases.TaskRow.{TaskStatus}
use deepiri_zepgpu.Leases.Rows.{
  NodeAssignmentStatus, assigned, accepted, running, completed, failed, cancelled, is_terminal,
  is_claimed, is_running, is_completed, is_failed, is_cancelled, is_assigned, is_peer,
  NodeTaskAssignment, Tables, get_by_id, get_for_peer,
}
use deepiri_zepgpu.Leases.Lifecycle.{
  Answer, Durations, at_least, or_number, save, record_event, ignore_terminal_conflict,
  lease_expired, Ending, mark_terminal,
}

-- What a call answers, and the tables after it.
abbrev pub Reply : Type 0
Reply = Option Answer × Tables

abbrev pub answered : Answer × Tables → Reply
answered (answer, t) = (some answer, t)

-- `if assignment is None: return None`
abbrev pub with_row : Option NodeTaskAssignment → Tables → (NodeTaskAssignment → Reply) → Reply
with_row none t k = (none, t)
with_row (some a) t k = k a

abbrev pub cancelling : String → Ending
cancelling reason = record {
  status = cancelled;
  reason = "cancelled";
  error = some reason;
  result_metadata = none;
  task_status = some TaskStatus.cancelled;
}

abbrev pub expiring : String → Ending
expiring error = record {
  status = failed;
  reason = "lease_expired";
  error = some error;
  result_metadata = none;
  task_status = none;
}

module _ (py : Conversions) (durations : Durations) (now : ℕ) where
  -- `mark_cancelled` on the row of the id.
  unfoldable pub cancel_row : Option String → String → NodeTaskAssignment → Tables → Reply
  cancel_row peer_id reason a t =
      if (elim peer_id [ none ↦ false | some p ↦ not (is_peer p a) ])
      then (none, t)
      else if is_cancelled a.status
      then (some (a, false), t)
      else if is_terminal a.status
      then answered (ignore_terminal_conflict now a t)
      else answered (mark_terminal py now (cancelling reason) a t)

  unfoldable pub mark_cancelled : String → Option String → String → Tables → Reply
  unfolding cancel_row
  mark_cancelled assignment_id peer_id reason t =
      with_row (get_by_id assignment_id t) t (λ a. cancel_row peer_id reason a t)

  -- A claim of an assignment that is claimed already.
  unfoldable pub reclaim : ℕ → NodeTaskAssignment → NodeTaskAssignment
  reclaim lease a = record a {
    lease_expires_at = some (now + lease);
    claim_generation = a.claim_generation + 1;
    claimed_at = elim a.claimed_at [ none ↦ some now | some at ↦ some at ];
  }

  -- The first claim.
  unfoldable pub claim : ℕ → NodeTaskAssignment → NodeTaskAssignment
  claim lease a = record a {
    status = accepted;
    accepted_at = some now;
    claimed_at = some now;
    claim_generation = a.claim_generation + 1;
    lease_expires_at = some (now + lease);
  }

  unfoldable pub claim_row : Option ℤ → String → NodeTaskAssignment → Tables → Reply
  unfolding reclaim claim
  claim_row lease_seconds peer_id a t =
      let lease = at_least 30 (or_number lease_seconds durations.assignment_lease_seconds) in
      let a' = if is_claimed a.status then reclaim lease a else claim lease a in
      if is_terminal a.status
      then answered (ignore_terminal_conflict now a t)
      else if is_some a.cancel_requested_at
      then mark_cancelled a.id (some peer_id) "Cancel requested before claim" t
      else (some (a', false), record_event now a.id "claimed" (save a' t))

  unfoldable pub mark_claimed : String → String → Option ℤ → Tables → Reply
  unfolding claim_row
  mark_claimed assignment_id peer_id lease_seconds t =
      with_row (get_for_peer assignment_id peer_id t) t (λ a. claim_row lease_seconds peer_id a t)

  unfoldable pub mark_accepted : String → String → Tables → Reply
  mark_accepted assignment_id peer_id t = mark_claimed assignment_id peer_id none t

  -- `if task: task.status = RUNNING; …`
  unfoldable pub start_task : String → Tables → Tables
  start_task task_id t = elim (lookup task_id t.tasks) [
    | none ↦ t
    | some task ↦ record t {
      tasks =
          insert task_id (record task { status = TaskStatus.running; started_at = some now })
            t.tasks;
    }
  ]

  unfoldable pub start_row : String → NodeTaskAssignment → Tables → Reply
  unfolding start_task
  start_row peer_id a t =
      let started : NodeTaskAssignment = record a {
        status = running;
        started_at = some now;
        lease_expires_at = some (now + at_least 30 durations.assignment_lease_seconds);
      } in
      if is_running a.status || is_completed a.status
      then (some (a, true), t)
      else if is_failed a.status || is_cancelled a.status
      then answered (ignore_terminal_conflict now a t)
      else if is_some a.cancel_requested_at
      then mark_cancelled a.id (some peer_id) "Cancel requested before start" t
      else if lease_expired now a
      then answered (mark_terminal py now (expiring "Lease expired before start") a t)
      else (
        some (started, false),
        record_event now a.id "started" (start_task a.task_id (save started t)),
      )

  unfoldable pub mark_running : String → String → Tables → Reply
  unfolding start_row
  mark_running assignment_id peer_id t =
      with_row (get_for_peer assignment_id peer_id t) t (λ a. start_row peer_id a t)

  unfoldable pub complete_row : Option Payload → String → NodeTaskAssignment → Tables → Reply
  complete_row result_metadata peer_id a t =
      let completing : Ending = record {
        status = completed;
        reason = "completed";
        error = none;
        result_metadata = some (elim result_metadata [ none ↦ [] | some meta ↦ meta ]);
        task_status = none;
      } in
      if is_completed a.status
      then (some (a, true), t)
      else if is_terminal a.status
      then answered (ignore_terminal_conflict now a t)
      else if is_some a.cancel_requested_at
      then mark_cancelled a.id (some peer_id) "Cancel requested; cannot complete" t
      else if lease_expired now a
      then answered (mark_terminal py now (expiring "Lease expired; cannot complete") a t)
      else answered (mark_terminal py now completing a t)

  unfoldable pub mark_completed : String → String → Option Payload → Tables → Reply
  unfolding complete_row
  mark_completed assignment_id peer_id result_metadata t =
      with_row (get_for_peer assignment_id peer_id t) t
        (λ a. complete_row result_metadata peer_id a t)

  unfoldable pub fail_row : String → String → NodeTaskAssignment → Tables → Reply
  fail_row error reason a t =
      let failing : Ending = record {
        status = failed;
        reason = reason;
        error = some error;
        result_metadata = none;
        task_status = none;
      } in
      if is_failed a.status
      then (some (a, true), t)
      else if is_terminal a.status
      then answered (ignore_terminal_conflict now a t)
      else answered (mark_terminal py now failing a t)

  unfoldable pub mark_failed : String → String → String → String → Tables → Reply
  unfolding fail_row
  mark_failed assignment_id peer_id error reason t =
      with_row (get_for_peer assignment_id peer_id t) t (λ a. fail_row error reason a t)

  -- The request itself: its time and its event, once.
  unfoldable pub flag_cancel : NodeTaskAssignment → Tables → NodeTaskAssignment × Tables
  flag_cancel a t =
      let flagged = record a { cancel_requested_at = some now } in
      if is_some a.cancel_requested_at
      then (a, t)
      else (flagged, record_event now a.id "cancel_requested" (save flagged t))

  unfoldable pub request_row : String → NodeTaskAssignment → Tables → Reply
  unfolding flag_cancel
  request_row reason a t =
      let (flagged, t') = flag_cancel a t in
      if is_terminal a.status
      then (some (a, false), t)
      else if is_assigned a.status
      then mark_cancelled a.id a.peer_id reason t'
      else (some (flagged, false), t')

  unfoldable pub request_cancel : String → String → Tables → Reply
  unfolding request_row
  request_cancel assignment_id reason t =
      with_row (get_by_id assignment_id t) t (λ a. request_row reason a t)

  -- `update_status`, a plain write.
  unfoldable pub stamp_status :
      NodeAssignmentStatus → Option String → NodeTaskAssignment → NodeTaskAssignment
  stamp_status assigned error a = record a { status = assigned }
  stamp_status accepted error a = record a { status = accepted; accepted_at = some now }
  stamp_status running error a = record a { status = running; started_at = some now }
  stamp_status completed error a = record a { status = completed; completed_at = some now }
  stamp_status failed error a = record a { status = failed; failed_at = some now; error = error }
  stamp_status cancelled error a = record a { status = cancelled; cancelled_at = some now }

  unfoldable pub update_status : String → NodeAssignmentStatus → Option String → Tables → Reply
  unfolding stamp_status
  update_status assignment_id status error t =
      with_row (get_by_id assignment_id t) t
        (λ a. let a' = stamp_status status error a in (some (a', false), save a' t))

  unfoldable pub increment_retry_count : String → Tables → Reply
  increment_retry_count assignment_id t =
      with_row (get_by_id assignment_id t) t (λ a.
        let a' = record a { retry_count = a.retry_count + 1 } in (some (a', false), save a' t))
