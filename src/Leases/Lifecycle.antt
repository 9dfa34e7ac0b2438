-- ===== src/Leases/Lifecycle.antt =====
-- deepiri_zepgpu/database/repositories/node_task_repository.py: the operations on an assignment. Each
-- reads the clock once, as `now`; the Boolean of an answer is its `_lifecycle_noop`.
use deepiri_zepgpu.Base.Dict.{lookup, insert}
use deepiri_zepgpu.Base.Int.{negsuc, pos, ℤ}
use deepiri_zepgpu.Base.{
  ltb, if◌then◌else◌, string_eq, nat_eq, ◌==◌, elem, ℕ, zero, max, String, Bool, true, false, not,
  Option, none, some, List, [], ◌∷◌, ◌++◌,
}
use deepiri_zepgpu.Ledger.Json.{
  to_str, Payload, Json, Conversions, num, bool, obj, to_fields, truthy, null,
}
use deepiri_zepgpu.Leases.TaskRow.{TaskStatus, TaskRow, is_finished}
use deepiri_zepgpu.Leases.Rows.{
  is_cancelled, is_completed, NodeAssignmentStatus, assigned, is_terminal, NodeTaskAssignment,
  Tables, GpuShare, GpuShareState,
}

abbrev pub Answer : Type 0
Answer = NodeTaskAssignment × Bool

-- The durations of `settings.vpn`, in seconds.
pub record Durations : Type 0 where
  pub assignment_lease_seconds : ℤ
  pub accepted_start_timeout_seconds : ℤ
  pub running_timeout_seconds : Option ℤ

-- `max(least, int(seconds))`
abbrev pub at_least : ℕ → ℤ → ℕ
at_least least seconds = elim seconds [ pos n ↦ max least n | negsuc n ↦ least ]

-- `x or default`, of an optional number
abbrev pub or_number : Option ℤ → ℤ → ℤ
or_number none default = default
or_number (some (pos zero)) default = default
or_number (some n) default = n

-- An ORM object that was changed, in its table.
abbrev pub save : NodeTaskAssignment → Tables → Tables
save a t = record t { assignments = insert a.id a t.assignments }

unfoldable pub record_event : ℕ → String → String → Tables → Tables
record_event now assignment_id event_type t = record t {
  events =
      t.events
      ++ record { assignment_id = assignment_id; event_type = event_type; created_at = now } ∷ [];
}

-- The id is fresh, from `uuid4`.
unfoldable pub create_assignment :
    ℕ → String → String → String → String → String → Tables → NodeTaskAssignment × Tables
unfolding record_event
create_assignment now id vpn_network_id task_id peer_id gpu_share_id t =
    let a : NodeTaskAssignment = record {
      id = id;
      vpn_network_id = vpn_network_id;
      task_id = task_id;
      peer_id = some peer_id;
      gpu_share_id = some gpu_share_id;
      status = assigned;
      assigned_at = now;
      accepted_at = none;
      started_at = none;
      completed_at = none;
      failed_at = none;
      claimed_at = none;
      lease_expires_at = none;
      claim_generation = 0;
      terminal_reason = none;
      cancel_requested_at = none;
      cancelled_at = none;
      error = none;
      retry_count = 0;
    } in
    (a, record_event now id "assigned" (save a t))

unfoldable pub ignore_terminal_conflict : ℕ → NodeTaskAssignment → Tables → Answer × Tables
unfolding record_event
ignore_terminal_conflict now a t = ((a, true), record_event now a.id "lifecycle_conflict_ignored" t)

unfoldable pub lease_expired : ℕ → NodeTaskAssignment → Bool
lease_expired now a = elim a.lease_expires_at [ none ↦ false | some expires ↦ ltb expires now ]

-- The share is given back unless another task holds it.
unfoldable pub release_share : String → Option GpuShare → Option GpuShare
release_share task_id none = none
release_share task_id (some share) =
    if (elim share.current_task_id [ none ↦ false | some holder ↦ not (holder == task_id) ])
    then some share
    else some (record { state = GpuShareState.idle; current_task_id = none })

unfoldable pub release_gpu_share : NodeTaskAssignment → Tables → Tables
unfolding release_share
release_gpu_share a t = elim a.gpu_share_id [
  | none ↦ t
  | some share_id ↦ elim (release_share a.task_id (lookup share_id t.shares)) [
    | none ↦ t
    | some share ↦ record t { shares = insert share_id share t.shares }
  ]
]

-- The status, the cause and the time of the end.
unfoldable pub end_assignment :
    ℕ → NodeAssignmentStatus → String → Option String → NodeTaskAssignment → NodeTaskAssignment
end_assignment now status reason error a =
    let ended = record a { status = status; terminal_reason = some reason; error = error } in
    if is_completed status
    then record ended { completed_at = some now }
    else if is_cancelled status
    then record ended {
      cancelled_at = some now;
      cancel_requested_at = elim a.cancel_requested_at [ none ↦ some now | some at ↦ some at ];
    }
    else record ended { failed_at = some now }

-- The status that the task gets.
unfoldable pub mapped_status : Option TaskStatus → NodeAssignmentStatus → String → TaskStatus
mapped_status (some given) status reason = given
mapped_status none status reason =
    if is_completed status
    then TaskStatus.completed
    else if is_cancelled status
    then TaskStatus.cancelled
    else if elem reason ("accepted_timeout" ∷ "running_timeout" ∷ "lease_expired" ∷ [])
    then TaskStatus.timeout
    else TaskStatus.failed

-- `d.get(a) or d.get(b) or d.get(c)`
abbrev pub first_truthy : Payload → List String → Json
first_truthy d [] = null
first_truthy d (k ∷ ks) =
    let rest = first_truthy d ks in
    elim (lookup k d) [ none ↦ rest | some v ↦ if truthy v then v else rest ]

-- `isinstance(x, int)`, which holds of Booleans too.
abbrev pub whole_number : Option Json → Option ℤ
whole_number none = none
whole_number (some v) = elim v [
  | num n ↦ some n
  | bool b ↦ some (if b then pos 1 else pos 0)
  | _ ↦ none
]

-- The keyword arguments of `mark_terminal`.
pub record Ending : Type 0 where
  pub status : NodeAssignmentStatus
  pub reason : String
  pub error : Option String
  pub result_metadata : Option Payload
  pub task_status : Option TaskStatus

-- `event_type`
abbrev pub ending_event : NodeAssignmentStatus → String → String
ending_event status reason =
    if is_completed status then "completed" else if is_cancelled status then "cancelled" else reason

module _ (py : Conversions) where
  -- `if result_metadata is not None: …`
  unfoldable pub set_result : Option Payload → TaskRow → TaskRow
  set_result none task = task
  set_result (some meta) task =
      let result_ref = first_truthy meta ("result_ref" ∷ "result_uri" ∷ "storage_ref" ∷ []) in
      record task {
        metadata_json = insert "remote_result" (obj (to_fields meta)) task.metadata_json;
        result_ref = if truthy result_ref then some (to_str py result_ref) else task.result_ref;
        result_size_bytes = elim (whole_number (lookup "result_size_bytes" meta)) [
          | none ↦ task.result_size_bytes
          | some n ↦ some n
        ];
      }

  -- `if task and task.status not in {…}: …`
  unfoldable pub finish_task : ℕ → TaskStatus → Option String → Option Payload → TaskRow → TaskRow
  unfolding set_result
  finish_task now status error result_metadata task =
      if is_finished task.status
      then task
      else set_result result_metadata (record task {
        status = status;
        completed_at = some now;
        error = elim error [ none ↦ task.error | some e ↦ if e == "" then task.error else some e ];
      })

  unfoldable pub finish_task_of :
      ℕ → String → TaskStatus → Option String → Option Payload → Tables → Tables
  unfolding finish_task
  finish_task_of now task_id status error result_metadata t = elim (lookup task_id t.tasks) [
    | none ↦ t
    | some task ↦ record t {
      tasks = insert task_id (finish_task now status error result_metadata task) t.tasks;
    }
  ]

  -- `mark_terminal` on an assignment that has not ended.
  unfoldable pub end_active : ℕ → Ending → NodeTaskAssignment → Tables → Answer × Tables
  unfolding end_assignment mapped_status finish_task_of release_gpu_share record_event
  end_active now e a t =
      let ended = end_assignment now e.status e.reason e.error a in
      let finished =
        finish_task_of now a.task_id (mapped_status e.task_status e.status e.reason) e.error
          e.result_metadata (save ended t) in
      (
        (ended, false),
        record_event now a.id (ending_event e.status e.reason) (release_gpu_share a finished),
      )

  unfoldable pub mark_terminal : ℕ → Ending → NodeTaskAssignment → Tables → Answer × Tables
  unfolding ignore_terminal_conflict end_active
  mark_terminal now e a t =
      if is_terminal a.status then ignore_terminal_conflict now a t else end_active now e a t
