-- ===== src/Leases/Tests.antt =====
-- The leases of one assignment that is claimed, started and completed, and then failed too late.
use deepiri_zepgpu.Leases.Operations.{cancel_row}
use deepiri_zepgpu.Leases.Operations.{mark_cancelled}
use deepiri_zepgpu.Leases.Sweep.{is_timed_out}
use deepiri_zepgpu.Leases.Sweep.{timed_out_loop}
use deepiri_zepgpu.Leases.Sweep.{list_running_timed_out}
use deepiri_zepgpu.Leases.Sweep.{list_accepted_never_started}
use deepiri_zepgpu.Leases.Sweep.{list_expired_leases}
use deepiri_zepgpu.Leases.Sweep.{end_each_active}
use deepiri_zepgpu.Leases.Sweep.{end_each}
use deepiri_zepgpu.Leases.Rows.{get_for_peer}
use deepiri_zepgpu.Leases.Lifecycle.{ignore_terminal_conflict}
use deepiri_zepgpu.Leases.Lifecycle.{record_event}
use deepiri_zepgpu.Leases.Lifecycle.{release_share}
use deepiri_zepgpu.Leases.Lifecycle.{release_gpu_share}
use deepiri_zepgpu.Leases.Lifecycle.{set_result}
use deepiri_zepgpu.Leases.Lifecycle.{finish_task}
use deepiri_zepgpu.Leases.Lifecycle.{finish_task_of}
use deepiri_zepgpu.Leases.Lifecycle.{mapped_status}
use deepiri_zepgpu.Leases.Lifecycle.{end_assignment}
use deepiri_zepgpu.Leases.Operations.{
  fail_row, mark_failed, complete_row, mark_completed, start_task, start_row, mark_running, reclaim,
  claim, claim_row, mark_claimed,
}
use deepiri_zepgpu.Base.Int.{pos}
use deepiri_zepgpu.Base.{
  string_eq, nat_eq, ◌==◌, eq_of_beq, Bool-cases, ℕ, ◌≡◌, refl, ◌⊎◌, inl, inr, true, none, some,
  List, [], ◌∷◌, arith,
}
use deepiri_zepgpu.Ledger.Json.{Conversions}
use deepiri_zepgpu.Leases.Rows.{
  GpuShareState, GpuShare, NodeTaskAssignment, Tables, NodeAssignmentStatus, get_by_id,
}
use deepiri_zepgpu.Leases.Lifecycle.{end_active, mark_terminal, Durations}
use deepiri_zepgpu.Leases.Serve.{
  serve, Call, claiming, starting, completing, failing, sweeping, serve_calls,
}
use deepiri_zepgpu.Leases.Advance.{Keyed, Later}
use deepiri_zepgpu.Base.{length, ◌≤◌}
use deepiri_zepgpu.Leases.Rows.{is_terminal}
use deepiri_zepgpu.Leases.Lifecycle.{lease_expired}
use deepiri_zepgpu.Leases.Sweep.{sweep_assignment_timeouts}
use deepiri_zepgpu.Leases.Expiry.{overdue, sweep_assignment_timeouts-ends}
use deepiri_zepgpu.Leases.Sequence.{AllGuarded, serve_calls-Later, serve_calls-Frees}
use deepiri_zepgpu.Leases.Goes.{Freed}
use deepiri_zepgpu.Leases.Shares.{idle_share}
use deepiri_zepgpu.Base.Dict.{lookup}

abbrev py : Conversions
py = record { text_of = λ v. "?"; parse_float = λ s. none }

abbrev durations : Durations
durations = record {
  assignment_lease_seconds = pos 60;
  accepted_start_timeout_seconds = pos 20;
  running_timeout_seconds = none;
}

abbrev waiting : NodeTaskAssignment
waiting = record {
  id = "a1";
  vpn_network_id = "room";
  task_id = "t1";
  peer_id = some "peer";
  gpu_share_id = some "gpu";
  status = NodeAssignmentStatus.assigned;
  assigned_at = 100;
  accepted_at = none;
  started_at = none;
  completed_at = none;
  failed_at = none;
  claimed_at = none;
  lease_expires_at = none;
  claim_generation = 0;
  terminal_reason = none;
  cancel_requested_at = none;
  cancelled_at = none;
  error = none;
  retry_count = 0;
}

abbrev busy : GpuShare
busy = record { state = GpuShareState.allocated; current_task_id = some "t1" }

abbrev tables : Tables
tables = record {
  assignments = ("a1", waiting) ∷ [];
  tasks = [];
  shares = ("gpu", busy) ∷ [];
  events = [];
}

abbrev calls : List (ℕ × Call)
calls =
    (110, claiming "a1" "peer" none)
    ∷ (120, starting "a1" "peer")
    ∷ (150, completing "a1" "peer" none)
    ∷ (300, sweeping)
    ∷ (310, failing "a1" "peer" "late" "failed")
    ∷ []

tables-Keyed : Keyed tables.assignments
tables-Keyed id a h = elim (Bool-cases ("a1" == id)) [
  | inl e ↦ ground (arith, eq_of_beq "a1" id e)
  | inr e ↦ ground arith
]

calls-AllGuarded : AllGuarded calls
calls-AllGuarded = (refl, (refl, (refl, (refl, (refl, tt)))))

serve_calls-Later_example :
    (b : NodeTaskAssignment) × (get_by_id "a1" (serve_calls py durations calls tables) ≡ some b)
    × Later waiting b
unfolding get_by_id
serve_calls-Later_example =
    serve_calls-Later py durations calls tables calls-AllGuarded tables-Keyed "a1" waiting refl

-- The same assignment, claimed with a lease until 170.
abbrev held : NodeTaskAssignment
held = record waiting {
  status = NodeAssignmentStatus.accepted;
  accepted_at = some 110;
  claimed_at = some 110;
  lease_expires_at = some 170;
  claim_generation = 1;
}

abbrev held_tables : Tables
held_tables = record tables { assignments = ("a1", held) ∷ [] }

held_tables-Keyed : Keyed held_tables.assignments
held_tables-Keyed id a h = elim (Bool-cases ("a1" == id)) [
  | inl e ↦ ground (arith, eq_of_beq "a1" id e)
  | inr e ↦ ground arith
]

held-few : length (overdue 300 held_tables) ≤ 100
unfolding lease_expired
held-few = omega arith

sweep_assignment_timeouts-ends_example :
    (b : NodeTaskAssignment) × (get_by_id "a1"
        (sweep_assignment_timeouts py durations 300 held_tables).1
      ≡ some b)
    × (is_terminal b.status ≡ true)
unfolding get_by_id lease_expired
sweep_assignment_timeouts-ends_example =
    sweep_assignment_timeouts-ends py durations 300 held_tables held_tables-Keyed held-few "a1" held
      refl refl refl

-- The share of the finished task is idle after the calls.
share_given_back : lookup "gpu" (serve_calls py durations calls tables).shares ≡ some idle_share
unfolding serve_calls serve mark_claimed claim_row claim reclaim mark_running start_row start_task
    mark_completed complete_row mark_failed fail_row mark_terminal end_active end_assignment
    mapped_status finish_task_of finish_task set_result release_gpu_share release_share record_event
    ignore_terminal_conflict get_for_peer get_by_id lease_expired sweep_assignment_timeouts end_each
    end_each_active list_expired_leases list_accepted_never_started list_running_timed_out
    timed_out_loop is_timed_out mark_cancelled cancel_row
share_given_back = refl

serve_calls-Frees_example :
    (lookup "gpu" (serve_calls py durations calls tables).shares ≡ some busy)
    ⊎ (Freed tables.assignments (serve_calls py durations calls tables).assignments "gpu" busy
        × (lookup "gpu" (serve_calls py durations calls tables).shares ≡ some idle_share))
serve_calls-Frees_example =
    serve_calls-Frees py durations calls tables calls-AllGuarded tables-Keyed "gpu" busy refl
