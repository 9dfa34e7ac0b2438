-- ===== src/Leases/Loops.antt =====
-- deepiri_zepgpu/rooms/assignment_sweep.py and reconcile_for_peer of
-- database/repositories/node_task_repository.py: what their loops leave to the table of assignments.
use deepiri_zepgpu.Leases.Goes.{Goes, Goes-refl, Goes-trans, mark_terminal-Goes}
use deepiri_zepgpu.Leases.Moves.{mark_cancelled-Moves, get_for_peer-row, Own}
use deepiri_zepgpu.Base.Dict.{is_some, lookup}
use deepiri_zepgpu.Base.{
  string_eq, nat_eq, ◌==◌, elem, ℕ, String, ◌≡◌, refl, ap, ◌∙◌, not, Option, none, some, List, [],
  ◌∷◌,
}
use deepiri_zepgpu.Ledger.Json.{Conversions}
use deepiri_zepgpu.Leases.Rows.{get_for_peer, NodeTaskAssignment, Tables, is_terminal, get_by_id}
use deepiri_zepgpu.Leases.Lifecycle.{lease_expired, Durations, Ending, mark_terminal}
use deepiri_zepgpu.Leases.Operations.{expiring}
use deepiri_zepgpu.Leases.Sweep.{
  list_running_timed_out, list_accepted_never_started, timing_out, list_expired_leases, current_row,
  end_each, end_each_active, sweep_assignment_timeouts,
}
use deepiri_zepgpu.Leases.Reconcile.{Outcome, Action, reconcile_loop, reconcile_id, reconcile_row}
use deepiri_zepgpu.Leases.Advance.{Keyed, Here, found-Here, missing-Here, either}
use deepiri_zepgpu.Leases.Rewrites.{IsEnding}

pub current_row-Here :
    (a : NodeTaskAssignment) (t : Tables)
    → Keyed t.assignments
    → Here (current_row a t) t.assignments
unfolding get_by_id
current_row-Here a t keyed = by_row (lookup a.id t.assignments) refl
  where
    by_row :
        (o : Option NodeTaskAssignment)
        → lookup a.id t.assignments ≡ o
        → Here (elim o [ none ↦ a | some b ↦ b ]) t.assignments
    by_row none e = missing-Here t.assignments a e
    by_row (some b) e =
        found-Here t.assignments b (ap (λ x. lookup x t.assignments) (keyed a.id b e) ∙ e)

module _ (py : Conversions) (durations : Durations) (now : ℕ) where
  pub end_current-Goes :
      (e : Ending) (a : NodeTaskAssignment) (t : Tables)
      → IsEnding e
      → Goes t (mark_terminal py now e (current_row a t) t).1
  end_current-Goes e a t ending keyed =
      mark_terminal-Goes py now e (current_row a t) t ending (current_row-Here a t keyed) keyed

  pub end_each-Goes :
      (e : Ending) (rows : List NodeTaskAssignment) (t : Tables)
      → IsEnding e
      → Goes t (end_each py durations now e rows t).1
  unfolding end_each
  end_each-Goes e [] t ending = Goes-refl t
  end_each-Goes e (a ∷ rest) t ending =
      let t1 = (mark_terminal py now e (current_row a t) t).1 in
      Goes-trans t t1 (end_each py durations now e rest t1).1 (end_current-Goes e a t ending)
        (end_each-Goes e rest t1 ending)

  pub end_each_active-Goes :
      (e : Ending) (rows : List NodeTaskAssignment) (t : Tables)
      → IsEnding e
      → Goes t (end_each_active py durations now e rows t).1
  unfolding end_each_active
  end_each_active-Goes e [] t ending = Goes-refl t
  end_each_active-Goes e (a ∷ rest) t ending =
      let t1 = (mark_terminal py now e (current_row a t) t).1 in
      either {A = ℕ × Tables} (λ r. Goes t r.1) (is_terminal (current_row a t).status)
        (λ _. end_each_active-Goes e rest t ending)
        (λ _.
          Goes-trans t t1 (end_each_active py durations now e rest t1).1
            (end_current-Goes e a t ending) (end_each_active-Goes e rest t1 ending))

  pub sweep-Goes : (t : Tables) → Goes t (sweep_assignment_timeouts py durations now t).1
  unfolding sweep_assignment_timeouts
  sweep-Goes t =
      let expired = list_expired_leases now 100 t in
      let t1 = (end_each py durations now (expiring "Assignment lease expired") expired t).1 in
      let late = timing_out "accepted_timeout" "Accepted but never started (timeout)" in
      let waiting = list_accepted_never_started durations none now 100 t1 in
      let t2 = (end_each_active py durations now late waiting t1).1 in
      let slow = timing_out "running_timeout" "Running assignment timed out" in
      Goes-trans t t1 (sweep_assignment_timeouts py durations now t).1
        (end_each-Goes (expiring "Assignment lease expired") expired t refl)
        (Goes-trans t1 t2 (sweep_assignment_timeouts py durations now t).1
          (end_each_active-Goes late waiting t1 refl)
          (end_each_active-Goes slow (list_running_timed_out durations now 100 t2) t2 refl))

module _ (py : Conversions) (durations : Durations) (now : ℕ)
    (vpn_network_id peer_id : String) where
  reconcile_row-Goes :
      (a : NodeTaskAssignment) (t : Tables)
      → Own t a
      → Goes t (reconcile_row py durations now vpn_network_id peer_id a t).1
  unfolding reconcile_row
  reconcile_row-Goes a t own =
      either {A = Action × Tables} onward (not (a.vpn_network_id == vpn_network_id)) (λ _. stay)
        (λ _.
          either {A = Action × Tables} onward (is_terminal a.status) (λ _. stay)
            (λ _.
              either {A = Action × Tables} onward (is_some a.cancel_requested_at)
                (λ _.
                  (mark_cancelled-Moves py durations now a.id (some peer_id)
                    "Reconcile: cancel requested" t).moves)
                (λ _.
                  either {A = Action × Tables} onward (lease_expired now a)
                    (λ _.
                      mark_terminal-Goes py now (expiring "Lease expired during reconcile") a t refl
                        (found-Here t.assignments a own))
                    (λ _. stay))))
    where
      onward : Action × Tables → Type 0
      onward r = Goes t r.1

      stay : Goes t t
      stay = Goes-refl t

  reconcile_id-Goes :
      (id : String) (t : Tables)
      → Goes t (reconcile_id py durations now vpn_network_id peer_id id t).1
  unfolding reconcile_id
  reconcile_id-Goes id t keyed = by_row (get_for_peer id peer_id t) refl keyed
    where
      by_row :
          (o : Option NodeTaskAssignment)
          → get_for_peer id peer_id t ≡ o
          → Goes t
              (elim o as (λ x. Action × Tables) [
                | none ↦ (Action.not_found_or_wrong_peer, t)
                | some a ↦ reconcile_row py durations now vpn_network_id peer_id a t
              ]).1
      by_row none e = Goes-refl t
      by_row (some a) e =
          let row = get_for_peer-row id peer_id t a e in
          reconcile_row-Goes a t (ap (λ x. lookup x t.assignments) (keyed id a row) ∙ row)

  pub reconcile_loop-Goes :
      (seen ids : List String) (t : Tables)
      → Goes t (reconcile_loop py durations now vpn_network_id peer_id seen ids t).2
  unfolding reconcile_loop
  reconcile_loop-Goes seen [] t = Goes-refl t
  reconcile_loop-Goes seen (id ∷ ids) t =
      let t1 = (reconcile_id py durations now vpn_network_id peer_id id t).1 in
      either {A = List String × List Outcome × Tables} (λ r. Goes t r.2) (elem id seen)
        (λ _. reconcile_loop-Goes seen ids t)
        (λ _.
          Goes-trans t t1
            (reconcile_loop py durations now vpn_network_id peer_id (id ∷ seen) ids t1).2
            (reconcile_id-Goes id t) (reconcile_loop-Goes (id ∷ seen) ids t1))
