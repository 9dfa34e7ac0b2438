-- ===== src/Leases/Rows.antt =====
-- deepiri_zepgpu/database/models/node_task_assignment.py and vpn_models.py: node task assignments, the
-- shares of GPUs and the audit events, and the queries of
-- database/repositories/node_task_repository.py on them. Times are whole units of the clock; the
-- payloads of events are left out.
use deepiri_zepgpu.Base.Dict.{is_some, values, lookup, Dict}
use deepiri_zepgpu.Base.{
  leb, if◌then◌else◌, string_eq, nat_eq, ◌==◌, ℕ, zero, suc, String, Bool, true, false, not, ◌&&◌,
  Option, none, some, List, [], ◌∷◌,
}
use deepiri_zepgpu.Base.Sorting.{filter, sort_by}
use deepiri_zepgpu.Leases.TaskRow.{TaskRow}

pub data NodeAssignmentStatus : Type 0 where
  assigned accepted running completed failed cancelled : NodeAssignmentStatus

-- `TERMINAL_STATUSES`
abbrev pub is_terminal : NodeAssignmentStatus → Bool
is_terminal assigned = false
is_terminal accepted = false
is_terminal running = false
is_terminal completed = true
is_terminal failed = true
is_terminal cancelled = true

-- `ACTIVE_STATUSES`
abbrev pub is_active : NodeAssignmentStatus → Bool
is_active assigned = true
is_active accepted = true
is_active running = true
is_active completed = false
is_active failed = false
is_active cancelled = false

-- ACCEPTED or RUNNING
abbrev pub is_claimed : NodeAssignmentStatus → Bool
is_claimed assigned = false
is_claimed accepted = true
is_claimed running = true
is_claimed completed = false
is_claimed failed = false
is_claimed cancelled = false

-- `status == ASSIGNED` and so on
abbrev pub is_assigned : NodeAssignmentStatus → Bool
is_assigned s = not (is_claimed s) && is_active s

abbrev pub is_running : NodeAssignmentStatus → Bool
is_running running = true
is_running assigned = false
is_running accepted = false
is_running completed = false
is_running failed = false
is_running cancelled = false

abbrev pub is_accepted : NodeAssignmentStatus → Bool
is_accepted s = is_claimed s && not (is_running s)

abbrev pub is_completed : NodeAssignmentStatus → Bool
is_completed completed = true
is_completed assigned = false
is_completed accepted = false
is_completed running = false
is_completed failed = false
is_completed cancelled = false

abbrev pub is_failed : NodeAssignmentStatus → Bool
is_failed failed = true
is_failed assigned = false
is_failed accepted = false
is_failed running = false
is_failed completed = false
is_failed cancelled = false

abbrev pub is_cancelled : NodeAssignmentStatus → Bool
is_cancelled s = is_terminal s && (not (is_completed s) && not (is_failed s))

pub record NodeTaskAssignment : Type 0 where
  pub id : String
  pub vpn_network_id : String
  pub task_id : String
  pub peer_id : Option String
  pub gpu_share_id : Option String
  pub status : NodeAssignmentStatus
  pub assigned_at : ℕ
  pub accepted_at : Option ℕ
  pub started_at : Option ℕ
  pub completed_at : Option ℕ
  pub failed_at : Option ℕ
  pub claimed_at : Option ℕ
  pub lease_expires_at : Option ℕ
  pub claim_generation : ℕ
  pub terminal_reason : Option String
  pub cancel_requested_at : Option ℕ
  pub cancelled_at : Option ℕ
  pub error : Option String
  pub retry_count : ℕ

pub record NodeTaskEvent : Type 0 where
  pub assignment_id : String
  pub event_type : String
  pub created_at : ℕ

pub data GpuShareState : Type 0 where
  idle allocated unavailable : GpuShareState

pub record GpuShare : Type 0 where
  pub state : GpuShareState
  pub current_task_id : Option String

-- The tables, by primary key.
pub record Tables : Type 0 where
  pub assignments : Dict String NodeTaskAssignment
  pub tasks : Dict String TaskRow
  pub shares : Dict String GpuShare
  pub events : List NodeTaskEvent

abbrev pub take {ℓ} : {A : Type ℓ} → ℕ → List A → List A
take zero xs = []
take (suc n) [] = []
take (suc n) (x ∷ xs) = x ∷ take n xs

-- `.limit(n)` and `.first()`
abbrev pub first_row {ℓ} : {A : Type ℓ} → List A → Option A
first_row [] = none
first_row (x ∷ xs) = some x

abbrev pub is_peer : String → NodeTaskAssignment → Bool
is_peer peer_id a = elim a.peer_id [ none ↦ false | some p ↦ p == peer_id ]

unfoldable pub get_by_id : String → Tables → Option NodeTaskAssignment
get_by_id assignment_id t = lookup assignment_id t.assignments

unfoldable pub get_for_peer : String → String → Tables → Option NodeTaskAssignment
unfolding get_by_id
get_for_peer assignment_id peer_id t = elim (get_by_id assignment_id t) [
  | none ↦ none
  | some a ↦ if is_peer peer_id a then some a else none
]

abbrev pub newest_first : NodeTaskAssignment → NodeTaskAssignment → Bool
newest_first a b = leb b.assigned_at a.assigned_at

abbrev pub oldest_first : NodeTaskAssignment → NodeTaskAssignment → Bool
oldest_first a b = leb a.assigned_at b.assigned_at

unfoldable pub get_by_task_id : String → Tables → Option NodeTaskAssignment
get_by_task_id task_id t =
    first_row (sort_by newest_first (filter (λ a. a.task_id == task_id) (values t.assignments)))

unfoldable pub drop {ℓ} : {A : Type ℓ} → ℕ → List A → List A
drop zero xs = xs
drop (suc n) [] = []
drop (suc n) (x ∷ xs) = drop n xs

unfoldable pub list_by_room : String → ℕ → ℕ → Tables → List NodeTaskAssignment
unfolding drop
list_by_room vpn_network_id limit offset t = take limit (
    drop offset (
      sort_by newest_first
        (filter (λ a. a.vpn_network_id == vpn_network_id) (values t.assignments))))

unfoldable pub list_pending_for_peer : String → String → ℕ → Tables → List NodeTaskAssignment
list_pending_for_peer vpn_network_id peer_id limit t = take limit (
    sort_by oldest_first (
      filter
        (λ a.
          (a.vpn_network_id == vpn_network_id)
          && (is_peer peer_id a && (is_assigned a.status && not (is_some a.cancel_requested_at))))
        (values t.assignments)))

unfoldable pub list_active_for_peer : String → Tables → List NodeTaskAssignment
list_active_for_peer peer_id t =
    filter (λ a. is_peer peer_id a && is_active a.status) (values t.assignments)

unfoldable pub list_cancel_requested_for_peer : String → String → Tables → List NodeTaskAssignment
list_cancel_requested_for_peer vpn_network_id peer_id t =
    filter
      (λ a.
        (a.vpn_network_id == vpn_network_id)
        && (is_peer peer_id a && (is_active a.status && is_some a.cancel_requested_at)))
      (values t.assignments)
