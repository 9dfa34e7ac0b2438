-- ===== src/Leases/Calls.antt =====
-- deepiri_zepgpu/database/repositories/node_task_repository.py: the calls on a row, branch by branch.
use deepiri_zepgpu.Base.Dict.{is_some}
use deepiri_zepgpu.Base.Int.{ℤ}
use deepiri_zepgpu.Base.{
  if◌then◌else◌, ℕ, ◌+◌, String, ◌≡◌, refl, false, ◌||◌, Option, none, some, arith,
}
use deepiri_zepgpu.Ledger.Json.{Payload, Conversions}
use deepiri_zepgpu.Leases.Rows.{
  cancelled, failed, completed, accepted, assigned, NodeAssignmentStatus, running,
  NodeTaskAssignment, Tables, is_terminal, is_running, is_completed, is_failed, is_cancelled,
  is_claimed, is_assigned,
}
use deepiri_zepgpu.Leases.Lifecycle.{
  Durations, save, record_event, ignore_terminal_conflict, lease_expired, at_least, or_number,
}
use deepiri_zepgpu.Leases.Operations.{
  expiring, claim, reclaim, claim_row, start_row, complete_row, fail_row, flag_cancel, request_row,
}
use deepiri_zepgpu.Leases.Advance.{Later, either}
use deepiri_zepgpu.Leases.Rewrites.{
  start_task-shares, start_task-assignments, start-Later, reclaim-Later, claim-Later, request-Later,
}
use deepiri_zepgpu.Leases.Moves.{
  Own, Moves, same-Moves, trans-Moves, save-Moves, ends-Moves, mark_cancelled-Moves,
}

module _ (py : Conversions) (durations : Durations) (now : ℕ) where
  either_claim :
      (lease : ℕ) (a : NodeTaskAssignment)
      → is_terminal a.status ≡ false
      → Later a (
          if is_claimed a.status
          then reclaim py durations now lease a
          else claim py durations now lease a)
  either_claim lease a active =
      either (Later a) (is_claimed a.status) (λ _. reclaim-Later py durations now lease a active)
        (λ unclaimed. claim-Later py durations now lease a unclaimed active)

  pub claim_row-Moves :
      (lease_seconds : Option ℤ) (peer_id : String) (a : NodeTaskAssignment) (t : Tables)
      → Own t a
      → Moves t (claim_row py durations now lease_seconds peer_id a t)
  unfolding claim_row ignore_terminal_conflict record_event
  claim_row-Moves lease_seconds peer_id a t own =
      let lease = at_least 30 (or_number lease_seconds durations.assignment_lease_seconds) in
      let a' =
        if is_claimed a.status
        then reclaim py durations now lease a
        else claim py durations now lease a in
      either (Moves t) (is_terminal a.status) (λ _. same-Moves t _ _ refl refl)
        (λ active.
          either (Moves t) (is_some a.cancel_requested_at)
            (λ _.
              mark_cancelled-Moves py durations now a.id (some peer_id)
                "Cancel requested before claim" t)
            (λ _.
              save-Moves t (record_event now a.id "claimed" (save a' t)) (some (a', false)) a a' own
                (either_claim lease a active) refl refl))

  abbrev started : NodeTaskAssignment → NodeTaskAssignment
  started a = record a {
    status = running;
    started_at = some now;
    lease_expires_at = some (now + at_least 30 durations.assignment_lease_seconds);
  }

  unended :
      (s : NodeAssignmentStatus)
      → (is_running s || is_completed s) ≡ false
      → (is_failed s || is_cancelled s) ≡ false
      → is_terminal s ≡ false
  unended assigned h k = refl
  unended accepted h k = refl
  unended running h k = refl
  unended completed h k = ground arith
  unended failed h k = ground arith
  unended cancelled h k = ground arith

  pub start_row-Moves :
      (peer_id : String) (a : NodeTaskAssignment) (t : Tables)
      → Own t a
      → Moves t (start_row py durations now peer_id a t)
  unfolding start_row ignore_terminal_conflict record_event
  start_row-Moves peer_id a t own =
      either (Moves t) (is_running a.status || is_completed a.status)
        (λ _. same-Moves t _ _ refl refl)
        (λ other.
          either (Moves t) (is_failed a.status || is_cancelled a.status)
            (λ _. same-Moves t _ _ refl refl)
            (λ other'.
              either (Moves t) (is_some a.cancel_requested_at)
                (λ _.
                  mark_cancelled-Moves py durations now a.id (some peer_id)
                    "Cancel requested before start" t)
                (λ _.
                  either (Moves t) (lease_expired now a)
                    (λ _.
                      ends-Moves py durations now (expiring "Lease expired before start") a t refl
                        own)
                    (λ _.
                      save-Moves t _ _ a (started a) own
                        (start-Later a (some now)
                          (some (now + at_least 30 durations.assignment_lease_seconds))
                          (unended a.status other other'))
                        (start_task-assignments py durations now a.task_id (save (started a) t))
                        (start_task-shares py durations now a.task_id (save (started a) t))))))

  pub complete_row-Moves :
      (result : Option Payload) (peer_id : String) (a : NodeTaskAssignment) (t : Tables)
      → Own t a
      → Moves t (complete_row py durations now result peer_id a t)
  unfolding complete_row ignore_terminal_conflict record_event
  complete_row-Moves result peer_id a t own =
      either (Moves t) (is_completed a.status) (λ _. same-Moves t _ _ refl refl)
        (λ _.
          either (Moves t) (is_terminal a.status) (λ _. same-Moves t _ _ refl refl)
            (λ _.
              either (Moves t) (is_some a.cancel_requested_at)
                (λ _.
                  mark_cancelled-Moves py durations now a.id (some peer_id)
                    "Cancel requested; cannot complete" t)
                (λ _.
                  either (Moves t) (lease_expired now a)
                    (λ _.
                      ends-Moves py durations now (expiring "Lease expired; cannot complete") a t
                        refl own)
                    (λ _. ends-Moves py durations now _ a t refl own))))

  pub fail_row-Moves :
      (error reason : String) (a : NodeTaskAssignment) (t : Tables)
      → Own t a
      → Moves t (fail_row py durations now error reason a t)
  unfolding fail_row ignore_terminal_conflict record_event
  fail_row-Moves error reason a t own =
      either (Moves t) (is_failed a.status) (λ _. same-Moves t _ _ refl refl)
        (λ _.
          either (Moves t) (is_terminal a.status) (λ _. same-Moves t _ _ refl refl)
            (λ _. ends-Moves py durations now _ a t refl own))

  flag_cancel-Moves :
      (a : NodeTaskAssignment) (t : Tables)
      → Own t a
      → is_terminal a.status ≡ false
      → Moves t (none, (flag_cancel py durations now a t).1)
  unfolding flag_cancel record_event
  flag_cancel-Moves a t own active =
      either {A = NodeTaskAssignment × Tables} (λ r. Moves t (none, r.1))
        (is_some a.cancel_requested_at) (λ _. same-Moves t _ _ refl refl)
        (λ _.
          save-Moves t _ _ a (record a { cancel_requested_at = some now }) own
            (request-Later now a active) refl refl)

  pub request_row-Moves :
      (reason : String) (a : NodeTaskAssignment) (t : Tables)
      → Own t a
      → Moves t (request_row py durations now reason a t)
  unfolding request_row
  request_row-Moves reason a t own =
      let flagged = flag_cancel py durations now a t in
      either (Moves t) (is_terminal a.status) (λ _. same-Moves t _ _ refl refl)
        (λ active.
          either (Moves t) (is_assigned a.status)
            (λ _.
              trans-Moves t flagged.1 none _ (flag_cancel-Moves a t own active)
                (mark_cancelled-Moves py durations now a.id a.peer_id reason flagged.1))
            (λ _. record { moves = (flag_cancel-Moves a t own active).moves }))
