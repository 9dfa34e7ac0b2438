-- ===== src/Leases/Serve.antt =====
-- deepiri_zepgpu/database/repositories/node_task_repository.py and rooms/assignment_sweep.py: the calls
-- that agents, hosts and the sweep make, as data.
use deepiri_zepgpu.Base.Int.{ℤ}
use deepiri_zepgpu.Base.{ℕ, String, Bool, true, false, Option, none, some, List, [], ◌∷◌}
use deepiri_zepgpu.Ledger.Json.{Payload, Conversions}
use deepiri_zepgpu.Leases.Rows.{NodeAssignmentStatus, Tables, get_by_id}
use deepiri_zepgpu.Leases.Lifecycle.{Durations, create_assignment}
use deepiri_zepgpu.Leases.Operations.{
  mark_claimed, mark_running, mark_completed, mark_failed, mark_cancelled, request_cancel,
  update_status, increment_retry_count,
}
use deepiri_zepgpu.Leases.Sweep.{sweep_assignment_timeouts}
use deepiri_zepgpu.Leases.Reconcile.{reconcile_for_peer}

-- A call on the leases; `create` with an id that is taken is refused by the primary key.
pub data Call : Type 0 where
  creating : (id vpn_network_id task_id peer_id gpu_share_id : String) → Call
  claiming : (assignment_id peer_id : String) → Option ℤ → Call
  starting : (assignment_id peer_id : String) → Call
  completing : (assignment_id peer_id : String) → Option Payload → Call
  failing : (assignment_id peer_id error reason : String) → Call
  requesting_cancel : (assignment_id reason : String) → Call
  confirming_cancel : (assignment_id : String) → Option String → String → Call
  sweeping : Call
  reconciling : (vpn_network_id peer_id : String) → List String → Call
  updating_status : (assignment_id : String) → NodeAssignmentStatus → Option String → Call
  counting_retry : (assignment_id : String) → Call

-- All but the two writes that look at no status: `update_status` and `increment_retry_count`, which
-- nothing in the repository calls.
abbrev pub is_guarded : Call → Bool
is_guarded (updating_status assignment_id status error) = false
is_guarded (counting_retry assignment_id) = false
is_guarded _ = true

module _ (py : Conversions) (durations : Durations) where
  unfoldable pub serve : ℕ → Call → Tables → Tables
  serve now (creating id vpn_network_id task_id peer_id gpu_share_id) t = elim (get_by_id id t) [
    | none ↦ (create_assignment now id vpn_network_id task_id peer_id gpu_share_id t).1
    | some a ↦ t
  ]
  serve now (claiming assignment_id peer_id lease_seconds) t =
      (mark_claimed py durations now assignment_id peer_id lease_seconds t).1
  serve now (starting assignment_id peer_id) t =
      (mark_running py durations now assignment_id peer_id t).1
  serve now (completing assignment_id peer_id result) t =
      (mark_completed py durations now assignment_id peer_id result t).1
  serve now (failing assignment_id peer_id error reason) t =
      (mark_failed py durations now assignment_id peer_id error reason t).1
  serve now (requesting_cancel assignment_id reason) t =
      (request_cancel py durations now assignment_id reason t).1
  serve now (confirming_cancel assignment_id peer_id reason) t =
      (mark_cancelled py durations now assignment_id peer_id reason t).1
  serve now sweeping t = (sweep_assignment_timeouts py durations now t).1
  serve now (reconciling vpn_network_id peer_id ids) t =
      (reconcile_for_peer py durations now vpn_network_id peer_id ids t).1
  serve now (updating_status assignment_id status error) t =
      (update_status py durations now assignment_id status error t).1
  serve now (counting_retry assignment_id) t =
      (increment_retry_count py durations now assignment_id t).1

  unfoldable pub serve_calls : List (ℕ × Call) → Tables → Tables
  unfolding serve
  serve_calls [] t = t
  serve_calls ((now, call) ∷ calls) t = serve_calls calls (serve now call t)
