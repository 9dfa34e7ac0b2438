-- ===== src/Leases/Reconcile.antt =====
-- deepiri_zepgpu/database/repositories/node_task_repository.py: `reconcile_for_peer`, which tells an
-- agent what to do with the assignments it holds and with those it has lost.
use deepiri_zepgpu.Base.Dict.{is_some}
use deepiri_zepgpu.Base.{
  if◌then◌else◌, string_eq, nat_eq, ◌==◌, elem, ℕ, String, Bool, true, false, not, none, some, List,
  [], ◌∷◌, ◌++◌,
}
use deepiri_zepgpu.Ledger.Json.{Conversions}
use deepiri_zepgpu.Leases.Rows.{
  NodeTaskAssignment, Tables, get_for_peer, is_terminal, list_active_for_peer,
}
use deepiri_zepgpu.Leases.Lifecycle.{Durations, lease_expired, mark_terminal}
use deepiri_zepgpu.Leases.Operations.{mark_cancelled, expiring}

-- The entry "action", with the reason of an abandonment; `recovered` of a resumption.
pub data Action : Type 0 where
  not_found_or_wrong_peer cross_room already_terminal : Action
  cancel fail_expired : Action
  resume : (recovered : Bool) → Action

pub record Outcome : Type 0 where
  pub assignment_id : String
  pub action : Action

module _ (py : Conversions) (durations : Durations) (now : ℕ)
    (vpn_network_id peer_id : String) where
  -- The body of the loop on an assignment of the peer.
  unfoldable pub reconcile_row : NodeTaskAssignment → Tables → Action × Tables
  reconcile_row a t =
      if not (a.vpn_network_id == vpn_network_id)
      then (cross_room, t)
      else if is_terminal a.status
      then (already_terminal, t)
      else if is_some a.cancel_requested_at
      then (
        cancel,
        (mark_cancelled py durations now a.id (some peer_id) "Reconcile: cancel requested" t).1,
      )
      else if lease_expired now a
      then (fail_expired, (mark_terminal py now (expiring "Lease expired during reconcile") a t).1)
      else (resume false, t)

  unfoldable pub reconcile_id : String → Tables → Action × Tables
  unfolding reconcile_row
  reconcile_id assignment_id t = elim (get_for_peer assignment_id peer_id t) [
    | none ↦ (not_found_or_wrong_peer, t)
    | some a ↦ reconcile_row a t
  ]

  -- The first loop: `seen`, the outcomes and the tables.
  unfoldable pub reconcile_loop :
      List String → List String → Tables → List String × List Outcome × Tables
  unfolding reconcile_id
  reconcile_loop seen [] t = (seen, [], t)
  reconcile_loop seen (assignment_id ∷ ids) t =
      let (action, t1) = reconcile_id assignment_id t in
      let (seen', outcomes, t2) = reconcile_loop (assignment_id ∷ seen) ids t1 in
      let skip = reconcile_loop seen ids t in
      if elem assignment_id seen
      then skip
      else (seen', record { assignment_id = assignment_id; action = action } ∷ outcomes, t2)

  -- The second loop: active assignments that the agent did not name.
  unfoldable pub recover_loop : List String → List NodeTaskAssignment → List Outcome
  recover_loop seen [] = []
  recover_loop seen (a ∷ rest) =
      let more = recover_loop seen rest in
      if elem a.id seen
      then more
      else if not (a.vpn_network_id == vpn_network_id)
      then more
      else record { assignment_id = a.id; action = resume true } ∷ more

  unfoldable pub reconcile_for_peer : List String → Tables → List Outcome × Tables
  unfolding reconcile_loop recover_loop
  reconcile_for_peer local_assignment_ids t =
      let (seen, outcomes, t') = reconcile_loop [] local_assignment_ids t in
      (outcomes ++ recover_loop seen (list_active_for_peer peer_id t'), t')
