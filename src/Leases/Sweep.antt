-- ===== src/Leases/Sweep.antt =====
-- deepiri_zepgpu/rooms/assignment_sweep.py, and the queries and the reconciliation of
-- database/repositories/node_task_repository.py. Notifications are not modelled; an assignment that a
-- list holds is read again where it is used, since the session keeps one object for each row.
use deepiri_zepgpu.Base.Int.{pos, ℤ}
use deepiri_zepgpu.Base.Dict.{lookup, is_some, values}
use deepiri_zepgpu.Base.{
  ltb, leb, if◌then◌else◌, string_eq, nat_eq, ℕ, ◌+◌, ◌-◌, ◌*◌, String, Bool, true, false, ◌&&◌,
  Option, none, some, List, [], ◌∷◌,
}
use deepiri_zepgpu.Base.Sorting.{filter, sort_by}
use deepiri_zepgpu.Ledger.Json.{Conversions}
use deepiri_zepgpu.Leases.Rows.{
  failed, is_terminal, is_claimed, is_running, is_accepted, NodeTaskAssignment, Tables, get_by_id,
  take,
}
use deepiri_zepgpu.Leases.Lifecycle.{Durations, at_least, or_number, Ending, mark_terminal}
use deepiri_zepgpu.Leases.Operations.{expiring}

-- `sorted` by a nullable time, ascending
abbrev pub earlier : Option ℕ → Option ℕ → Bool
earlier (some a) (some b) = leb a b
earlier (some a) none = true
earlier none (some b) = false
earlier none none = true

-- `time is not None and time < limit`
abbrev pub is_before : ℕ → Option ℕ → Bool
is_before limit none = false
is_before limit (some at) = ltb at limit

unfoldable pub list_expired_leases : ℕ → ℕ → Tables → List NodeTaskAssignment
list_expired_leases current limit t = take limit (
    sort_by (λ a b. earlier a.lease_expires_at b.lease_expires_at)
      (filter (λ a. is_claimed a.status && is_before current a.lease_expires_at)
        (values t.assignments)))

module _ (durations : Durations) where
  unfoldable pub list_accepted_never_started : Option ℤ → ℕ → ℕ → Tables → List NodeTaskAssignment
  list_accepted_never_started timeout_seconds current limit t =
      let timeout = or_number timeout_seconds durations.accepted_start_timeout_seconds in
      let threshold = current - at_least 10 timeout in
      take limit (
        sort_by (λ a b. earlier a.accepted_at b.accepted_at)
          (filter (λ a. is_accepted a.status && is_before threshold a.accepted_at)
            (values t.assignments)))

  -- The seconds that a running assignment may take.
  unfoldable pub running_timeout_of : NodeTaskAssignment → Tables → ℤ
  running_timeout_of a t = elim durations.running_timeout_seconds [
    | some seconds ↦ seconds
    | none ↦ elim (lookup a.task_id t.tasks) [ none ↦ pos 3600 | some task ↦ task.timeout_seconds ]
  ]

  unfoldable pub is_timed_out : ℕ → Tables → NodeTaskAssignment → Bool
  unfolding running_timeout_of
  is_timed_out current t a = elim a.started_at [
    | none ↦ false
    | some started ↦ ltb (started + at_least 10 (running_timeout_of a t)) current
  ]

  -- The loop of `list_running_timed_out`; `count` are found already. It ends once `limit` are.
  unfoldable pub timed_out_loop :
      ℕ → ℕ → ℕ → Tables → List NodeTaskAssignment → List NodeTaskAssignment
  timed_out_loop current limit count t [] = []
  timed_out_loop current limit count t (a ∷ candidates) =
      let next = timed_out_loop current limit (count + 1) t candidates in
      let same = timed_out_loop current limit count t candidates in
      if is_some a.started_at
      then (if is_timed_out current t a
          then a ∷ (if leb limit (count + 1) then [] else next)
          else if leb limit count
          then []
          else same)
      else same

  unfoldable pub list_running_timed_out : ℕ → ℕ → Tables → List NodeTaskAssignment
  unfolding is_timed_out timed_out_loop
  list_running_timed_out current limit t = timed_out_loop current limit 0 t (
      take (limit * 4) (
        sort_by (λ a b. earlier a.started_at b.started_at)
          (filter (λ a. is_running a.status) (values t.assignments))))

abbrev pub timing_out : String → String → Ending
timing_out reason error = record {
  status = failed;
  reason = reason;
  error = some error;
  result_metadata = none;
  task_status = none;
}

-- The object of the row.
abbrev pub current_row : NodeTaskAssignment → Tables → NodeTaskAssignment
current_row a t = elim (get_by_id a.id t) [ none ↦ a | some b ↦ b ]

-- The counts of the sweep.
pub record SweepCounts : Type 0 where
  pub lease_expired_count : ℕ
  pub accepted_timeout_count : ℕ
  pub running_timeout_count : ℕ

module _ (py : Conversions) (durations : Durations) (now : ℕ) where
  -- The first loop, which ends each assignment of the list.
  unfoldable pub end_each : Ending → List NodeTaskAssignment → Tables → ℕ × Tables
  end_each e [] t = (0, t)
  end_each e (a ∷ rest) t =
      let (_, t1) = mark_terminal py now e (current_row a t) t in
      let (count, t2) = end_each e rest t1 in (count + 1, t2)

  -- The other two loops, which pass over assignments that have ended.
  unfoldable pub end_each_active : Ending → List NodeTaskAssignment → Tables → ℕ × Tables
  end_each_active e [] t = (0, t)
  end_each_active e (a ∷ rest) t =
      let (_, t1) = mark_terminal py now e (current_row a t) t in
      let (count, t2) = end_each_active e rest t1 in
      let skip = end_each_active e rest t in
      if is_terminal (current_row a t).status then skip else (count + 1, t2)

  unfoldable pub sweep_assignment_timeouts : Tables → SweepCounts × Tables
  unfolding end_each end_each_active
  sweep_assignment_timeouts t =
      let (expired, t1) =
        end_each (expiring "Assignment lease expired") (list_expired_leases now 100 t) t in
      let (never_started, t2) =
        end_each_active (timing_out "accepted_timeout" "Accepted but never started (timeout)")
          (list_accepted_never_started durations none now 100 t1) t1 in
      let (timed_out, t3) =
        end_each_active (timing_out "running_timeout" "Running assignment timed out")
          (list_running_timed_out durations now 100 t2) t2 in
      (
        record {
          lease_expired_count = expired;
          accepted_timeout_count = never_started;
          running_timeout_count = timed_out;
        },
        t3,
      )
