-- ===== src/Leases/Expiry.antt =====
-- deepiri_zepgpu/rooms/assignment_sweep.py: `sweep_assignment_timeouts` ends the leases that are over.
use deepiri_zepgpu.Leases.Loops.{end_each_active-Goes, end_each-Goes, end_current-Goes}
use deepiri_zepgpu.Leases.Goes.{Goes-trans, Goes-rows}
use deepiri_zepgpu.Base.Sorting.{filter, sort_by}
use deepiri_zepgpu.Base.Search.{any-sort_by, any-filter, any-values, length-sort_by}
use deepiri_zepgpu.Leases.Operations.{expiring}
use deepiri_zepgpu.Leases.Sweep.{
  is_before, earlier, list_running_timed_out, end_each_active, list_accepted_never_started,
  timing_out, sweep_assignment_timeouts, list_expired_leases, current_row, end_each,
}
use deepiri_zepgpu.Base.Dict.{values, lookup-insert_self, insert, lookup}
use deepiri_zepgpu.Base.{
  string_eq, nat_eq, ◌==◌, beq_self, eq_of_beq, Bool-cases, length, any, ℕ, zero, suc, ◌≤◌, String,
  ◌≡◌, refl, sym, ap, subst, ◌∙◌, inl, inr, Bool, true, ◌&&◌, none, some, List, [], ◌∷◌, arith,
}
use deepiri_zepgpu.Ledger.Json.{Conversions}
use deepiri_zepgpu.Leases.Rows.{
  is_claimed, is_cancelled, get_by_id, is_completed, NodeTaskAssignment, Tables, is_terminal, take,
}
use deepiri_zepgpu.Leases.Lifecycle.{
  lease_expired, Answer, Durations, Ending, mark_terminal, end_assignment, ignore_terminal_conflict,
  record_event,
}
use deepiri_zepgpu.Leases.Advance.{Onward, Rows, Keyed, Advances, either}
use deepiri_zepgpu.Leases.Rewrites.{end_active-assignments, IsEnding}

-- The row of the id has ended.
abbrev Ended : String → Rows → Type 0
Ended id r = (b : NodeTaskAssignment) × (lookup id r ≡ some b) × (is_terminal b.status ≡ true)

Ended-Advances : (id : String) (r s : Rows) → Keyed r → Advances r s → Ended id r → Ended id s
Ended-Advances id r s keyed onward (b, found, ended) =
    let (c, found', later) = (onward keyed).1 id b found in
    (
      c,
      found',
      elim later.end [
        | inl active ↦ ground (arith, active, ended)
        | inr same ↦ ap (λ x. is_terminal x.status) same ∙ ended
      ],
    )

take-all : (n : ℕ) (rows : List NodeTaskAssignment) → length rows ≤ n → take n rows ≡ rows
take-all zero [] h = refl
take-all zero (a ∷ rows) h = ground arith
take-all (suc n) [] h = refl
take-all (suc n) (a ∷ rows) h = ap (λ xs. a ∷ xs) (take-all n rows (omega arith))

end_assignment-id :
    (now : ℕ) (e : Ending) (a : NodeTaskAssignment)
    → IsEnding e
    → ((end_assignment now e.status e.reason e.error a).id ≡ a.id)
      × (is_terminal (end_assignment now e.status e.reason e.error a).status ≡ true)
unfolding end_assignment
end_assignment-id now e a ending =
    either kept (is_completed e.status) (λ _. (refl, ending))
      (λ _. either kept (is_cancelled e.status) (λ _. (refl, ending)) (λ _. (refl, ending)))
  where
    kept : NodeTaskAssignment → Type 0
    kept b = (b.id ≡ a.id) × (is_terminal b.status ≡ true)

current_row-found :
    (a b : NodeTaskAssignment) (t : Tables)
    → lookup a.id t.assignments ≡ some b
    → current_row a t ≡ b
unfolding get_by_id
current_row-found a b t found = rw (current_row, found)

-- The assignments whose lease is over.
abbrev pub overdue : ℕ → Tables → List NodeTaskAssignment
overdue now t = filter (λ a. is_claimed a.status && lease_expired now a) (values t.assignments)

list_expired_leases-overdue :
    (now : ℕ) (t : Tables)
    → length (overdue now t) ≤ 100
    → list_expired_leases now 100 t
      ≡ sort_by (λ a b. earlier a.lease_expires_at b.lease_expires_at) (overdue now t)
unfolding list_expired_leases lease_expired
list_expired_leases-overdue now t few =
    ap (λ rows. take 100 (sort_by le rows)) same
    ∙ take-all 100 (sort_by le (overdue now t)) (rw (length-sort_by le (overdue now t)) few)
  where
    le : NodeTaskAssignment → NodeTaskAssignment → Bool
    le a b = earlier a.lease_expires_at b.lease_expires_at

    same :
        filter (λ a. is_claimed a.status && is_before now a.lease_expires_at) (values t.assignments)
        ≡ overdue now t
    same = refl

list_expired_leases-lists :
    (now : ℕ) (t : Tables) (a : NodeTaskAssignment)
    → length (overdue now t) ≤ 100
    → lookup a.id t.assignments ≡ some a
    → is_claimed a.status ≡ true
    → lease_expired now a ≡ true
    → any (λ b. b.id == a.id) (list_expired_leases now 100 t) ≡ true
list_expired_leases-lists now t a few found claimed over =
    ap (any listed) (list_expired_leases-overdue now t few)
    ∙ (any-sort_by listed (λ a b. earlier a.lease_expires_at b.lease_expires_at) (overdue now t)
        ∙ any-filter listed (λ b. is_claimed b.status && lease_expired now b) (values t.assignments)
            (any-values (λ b. (is_claimed b.status && lease_expired now b) && listed b) a.id a
              t.assignments found (rw (claimed, over, beq_self a.id))))
  where
    listed : NodeTaskAssignment → Bool
    listed b = b.id == a.id

module _ (py : Conversions) (durations : Durations) (now : ℕ) where
  mark_terminal-Ended :
      (e : Ending) (a : NodeTaskAssignment) (t : Tables)
      → IsEnding e
      → lookup a.id t.assignments ≡ some a
      → Ended a.id (mark_terminal py now e a t).1.assignments
  unfolding mark_terminal ignore_terminal_conflict record_event
  mark_terminal-Ended e a t ending found =
      either {A = Answer × Tables} (λ r. Ended a.id r.1.assignments) (is_terminal a.status)
        (λ ended. (a, found, ended))
        (λ _. subst (Ended a.id) (sym (end_active-assignments py now e a t)) written)
    where
      ended : NodeTaskAssignment
      ended = end_assignment now e.status e.reason e.error a

      kept : (ended.id ≡ a.id) × (is_terminal ended.status ≡ true)
      kept = end_assignment-id now e a ending

      written : Ended a.id (insert ended.id ended t.assignments)
      written = (
        ended,
        ap (λ k. lookup k (insert ended.id ended t.assignments)) (sym kept.0)
            ∙ lookup-insert_self ended.id ended t.assignments,
        kept.1,
      )

  end_current-Ended :
      (e : Ending) (a b : NodeTaskAssignment) (t : Tables)
      → IsEnding e
      → Keyed t.assignments
      → lookup a.id t.assignments ≡ some b
      → Ended a.id (mark_terminal py now e (current_row a t) t).1.assignments
  end_current-Ended e a b t ending keyed found =
      subst (λ x. Ended a.id (mark_terminal py now e x t).1.assignments)
        (sym (current_row-found a b t found))
        (subst (λ id. Ended id (mark_terminal py now e b t).1.assignments) same
          (mark_terminal-Ended e b t ending (ap (λ id. lookup id t.assignments) same ∙ found)))
    where
      same : b.id ≡ a.id
      same = keyed a.id b found

  -- The loop ends each assignment of its list.
  end_each-Ended :
      (e : Ending) (id : String) (rows : List NodeTaskAssignment) (t : Tables)
      → IsEnding e
      → Keyed t.assignments
      → any (λ a. a.id == id) rows ≡ true
      → (b : NodeTaskAssignment) → lookup id t.assignments ≡ some b
      → Ended id (end_each py durations now e rows t).1.assignments
  unfolding end_each
  end_each-Ended e id [] t ending keyed listed b found = ground (arith, listed)
  end_each-Ended e id (a ∷ rest) t ending keyed listed b found = elim (Bool-cases (a.id == id)) [
    | inl here ↦
        let same = eq_of_beq a.id id here in
        Ended-Advances id t1.assignments _ onward.0
          (Goes-rows t1 (end_each py durations now e rest t1).1
            (end_each-Goes py durations now e rest t1 ending))
          (subst (λ k. Ended k t1.assignments) same
            (end_current-Ended e a b t ending keyed
              (ap (λ k. lookup k t.assignments) same ∙ found)))
    | inr other ↦
        let (c, found', _) = onward.1 id b found in
        end_each-Ended e id rest t1 ending onward.0 (ground (arith, listed, other)) c found'
  ]
    where
      t1 : Tables
      t1 = (mark_terminal py now e (current_row a t) t).1

      onward : Keyed t1.assignments × Onward t.assignments t1.assignments
      onward = (end_current-Goes py durations now e a t ending keyed).0

-- If at most 100 leases are over, the sweep ends every claimed assignment whose lease is over: after it
-- the assignment is there and has ended. Each assignment stands under its own id.
pub sweep_assignment_timeouts-ends :
    (py : Conversions) (durations : Durations) (now : ℕ) (t : Tables)
    → Keyed t.assignments
    → length (overdue now t) ≤ 100
    → (id : String) (a : NodeTaskAssignment) → get_by_id id t ≡ some a
    → is_claimed a.status ≡ true
    → lease_expired now a ≡ true
    → (b : NodeTaskAssignment) × (get_by_id id (sweep_assignment_timeouts py durations now t).1
        ≡ some b)
      × (is_terminal b.status ≡ true)
unfolding get_by_id sweep_assignment_timeouts
sweep_assignment_timeouts-ends py durations now t keyed few id a found claimed over =
    let same : a.id ≡ id = keyed id a found in
    let listed =
      list_expired_leases-lists now t a few (ap (λ k. lookup k t.assignments) same ∙ found) claimed
        over in
    let ended =
      end_each-Ended py durations now (expiring "Assignment lease expired") id expired t refl keyed
        (subst (λ k. any (λ b. b.id == k) expired ≡ true) same listed) a found in
    Ended-Advances id t1.assignments _ (first keyed).0
      (let t3 =
          (end_each_active py durations now slow (list_running_timed_out durations now 100 t2)
            t2).1 in
        Goes-rows t1 t3 (
          Goes-trans t1 t2 t3 (end_each_active-Goes py durations now late waiting t1 refl) (
            end_each_active-Goes py durations now slow (list_running_timed_out durations now 100 t2)
              t2 refl)))
      ended
  where
    expired : List NodeTaskAssignment
    expired = list_expired_leases now 100 t

    t1 : Tables
    t1 = (end_each py durations now (expiring "Assignment lease expired") expired t).1

    first : Advances t.assignments t1.assignments
    first =
        Goes-rows t t1
          (end_each-Goes py durations now (expiring "Assignment lease expired") expired t refl)

    late : Ending
    late = timing_out "accepted_timeout" "Accepted but never started (timeout)"

    waiting : List NodeTaskAssignment
    waiting = list_accepted_never_started durations none now 100 t1

    t2 : Tables
    t2 = (end_each_active py durations now late waiting t1).1

    slow : Ending
    slow = timing_out "running_timeout" "Running assignment timed out"
