-- ===== src/Leases/Sequence.antt =====
-- deepiri_zepgpu/database/repositories/node_task_repository.py and rooms/assignment_sweep.py: calls in
-- any order, each at a time of its own.
use deepiri_zepgpu.Leases.Loops.{reconcile_loop-Goes, sweep-Goes}
use deepiri_zepgpu.Leases.Shares.{idle_share}
use deepiri_zepgpu.Leases.Goes.{Freed, Goes, Goes-refl, Goes-trans, Advances-Goes}
use deepiri_zepgpu.Leases.Calls.{
  request_row-Moves, fail_row-Moves, complete_row-Moves, start_row-Moves, claim_row-Moves,
}
use deepiri_zepgpu.Leases.Moves.{mark_cancelled-Moves, get_for_peer-row, with_row-Moves}
use deepiri_zepgpu.Base.Dict.{lookup}
use deepiri_zepgpu.Base.{
  string_eq, nat_eq, All, ℕ, String, ◌≡◌, refl, ◌⊎◌, true, Option, none, some, List, [], ◌∷◌,
}
use deepiri_zepgpu.Ledger.Json.{Conversions}
use deepiri_zepgpu.Leases.Rows.{GpuShare, get_for_peer, NodeTaskAssignment, Tables, get_by_id}
use deepiri_zepgpu.Leases.Lifecycle.{record_event, Durations, create_assignment}
use deepiri_zepgpu.Leases.Operations.{
  request_row, fail_row, complete_row, start_row, claim_row, mark_claimed, mark_running,
  mark_completed, mark_failed, request_cancel,
}
use deepiri_zepgpu.Leases.Reconcile.{reconcile_for_peer}
use deepiri_zepgpu.Leases.Advance.{Later-refl, insert-Advances, Later, Keyed, missing-Here}
use deepiri_zepgpu.Leases.Serve.{
  is_guarded, updating_status, counting_retry, Call, creating, claiming, starting, completing,
  failing, requesting_cancel, confirming_cancel, sweeping, reconciling, serve, serve_calls,
}

abbrev pub AllGuarded : List (ℕ × Call) → Type 0
AllGuarded = All λ c. is_guarded c.1 ≡ true

module _ (py : Conversions) (durations : Durations) where
  create-Goes :
      (now : ℕ) (id vpn_network_id task_id peer_id gpu_share_id : String) (t : Tables)
      → Goes t (serve py durations now (creating id vpn_network_id task_id peer_id gpu_share_id) t)
  unfolding serve get_by_id create_assignment record_event
  create-Goes now id vpn_network_id task_id peer_id gpu_share_id t =
      by_row (lookup id t.assignments) refl
    where
      by_row :
          (o : Option NodeTaskAssignment)
          → lookup id t.assignments ≡ o
          → Goes t (elim o as (λ x. Tables) [
            | none ↦ (create_assignment now id vpn_network_id task_id peer_id gpu_share_id t).1
            | some a ↦ t
          ])
      by_row none e =
          let a = (create_assignment now id vpn_network_id task_id peer_id gpu_share_id t).0 in
          Advances-Goes t (create_assignment now id vpn_network_id task_id peer_id gpu_share_id t).1
            (insert-Advances t.assignments a a (missing-Here t.assignments a e) (Later-refl a)) refl
      by_row (some a) e = Goes-refl t

  serve-Goes :
      (now : ℕ) (call : Call) (t : Tables)
      → is_guarded call ≡ true
      → Goes t (serve py durations now call t)
  unfolding serve mark_claimed mark_running mark_completed mark_failed request_cancel get_by_id
      reconcile_for_peer
  serve-Goes now (creating id vpn_network_id task_id peer_id gpu_share_id) t guarded =
      create-Goes now id vpn_network_id task_id peer_id gpu_share_id t
  serve-Goes now (claiming id peer_id lease_seconds) t guarded =
      (with_row-Moves id (get_for_peer id peer_id t) t
        (λ a. claim_row py durations now lease_seconds peer_id a t) (get_for_peer-row id peer_id t)
        (λ a own. claim_row-Moves py durations now lease_seconds peer_id a t own)).moves
  serve-Goes now (starting id peer_id) t guarded =
      (with_row-Moves id (get_for_peer id peer_id t) t (λ a. start_row py durations now peer_id a t)
        (get_for_peer-row id peer_id t)
        (λ a own. start_row-Moves py durations now peer_id a t own)).moves
  serve-Goes now (completing id peer_id result) t guarded =
      (with_row-Moves id (get_for_peer id peer_id t) t
        (λ a. complete_row py durations now result peer_id a t) (get_for_peer-row id peer_id t)
        (λ a own. complete_row-Moves py durations now result peer_id a t own)).moves
  serve-Goes now (failing id peer_id error reason) t guarded =
      (with_row-Moves id (get_for_peer id peer_id t) t
        (λ a. fail_row py durations now error reason a t) (get_for_peer-row id peer_id t)
        (λ a own. fail_row-Moves py durations now error reason a t own)).moves
  serve-Goes now (requesting_cancel id reason) t guarded =
      (with_row-Moves id (get_by_id id t) t (λ a. request_row py durations now reason a t)
        (λ a h. h) (λ a own. request_row-Moves py durations now reason a t own)).moves
  serve-Goes now (confirming_cancel id peer_id reason) t guarded =
      (mark_cancelled-Moves py durations now id peer_id reason t).moves
  serve-Goes now sweeping t guarded = sweep-Goes py durations now t
  serve-Goes now (reconciling vpn_network_id peer_id ids) t guarded =
      reconcile_loop-Goes py durations now vpn_network_id peer_id [] ids t
  serve-Goes now (updating_status id status error) t guarded = cc
  serve-Goes now (counting_retry id) t guarded = cc

  serve_calls-Goes :
      (calls : List (ℕ × Call)) (t : Tables)
      → AllGuarded calls
      → Goes t (serve_calls py durations calls t)
  unfolding serve_calls
  serve_calls-Goes [] t guarded = Goes-refl t
  serve_calls-Goes ((now, call) ∷ calls) t guarded =
      let t1 = serve py durations now call t in
      Goes-trans t t1 (serve_calls py durations calls t1) (serve-Goes now call t guarded.0)
        (serve_calls-Goes calls t1 guarded.1)

-- Whatever calls follow, at whatever times, but `update_status` and `increment_retry_count`, which look
-- at no status: an assignment that is in the table under its own id, as all are, stays there with its id. Its stage (assigned, then accepted, then running, then ended) never
-- falls, its claim generation never falls, a request to cancel is never taken back, and once it has
-- ended the row stays exactly as it is, so that the first end wins.
pub serve_calls-Later :
    (py : Conversions) (durations : Durations) (calls : List (ℕ × Call)) (t : Tables)
    → AllGuarded calls
    → Keyed t.assignments
    → (id : String) (a : NodeTaskAssignment) → get_by_id id t ≡ some a
    → (b : NodeTaskAssignment) × (get_by_id id (serve_calls py durations calls t) ≡ some b)
      × Later a b
unfolding get_by_id
serve_calls-Later py durations calls t guarded keyed id a found =
    (serve_calls-Goes py durations calls t guarded keyed).0.1 id a found

-- Whatever calls follow, at whatever times, but `update_status` and `increment_retry_count`, which look
-- at no status, on assignments that stand under their own ids: a GPU share
-- of the table stays exactly as it is, or it is idle and held by no task, and then an assignment on
-- that share has ended which had not ended before the calls, and the task of which held the share if
-- any task did.
pub serve_calls-Frees :
    (py : Conversions) (durations : Durations) (calls : List (ℕ × Call)) (t : Tables)
    → AllGuarded calls
    → Keyed t.assignments
    → (share_id : String) (share : GpuShare) → lookup share_id t.shares ≡ some share
    → (lookup share_id (serve_calls py durations calls t).shares ≡ some share)
      ⊎ (Freed t.assignments (serve_calls py durations calls t).assignments share_id share
          × (lookup share_id (serve_calls py durations calls t).shares ≡ some idle_share))
serve_calls-Frees py durations calls t guarded keyed =
    (serve_calls-Goes py durations calls t guarded keyed).1
