-- ===== src/Access/Quotas.antt =====
-- A user who is checked before each start stays within the quota, for security/access_control.py.
use deepiri_zepgpu.Base.{
  string_eq, nat_eq, ◌==◌, eq_of_beq, Bool-cases, Option-cases, ℕ, ◌≤◌, ◌<◌, String, ◌≡◌, refl, sym,
  subst, ◌∙◌, ◌↔◌, inl, inr, true, none, some, arith,
}
use deepiri_zepgpu.Base.Dict.{lookup-insert_self, lookup, insert, lookup-insert}
use deepiri_zepgpu.Access.Control.{
  record_storage, reset_usage, record_task_end, record_task_start, check_task_submission, get_usage,
  set_quota, submission_refusal, ResourceQuota, ResourceUsage, AccessControl, new_usage, reset,
  is_period_expired, current, get_quota, usage_or_new,
}

abbrev pub Within : ResourceQuota → ResourceUsage → Type 0
Within quota usage =
    (usage.tasks_submitted ≤ quota.max_tasks)
    × (usage.concurrent_tasks ≤ quota.max_concurrent_tasks)
    × (usage.peak_gpu_memory_mb ≤ quota.max_gpu_memory_mb)

-- The limits of one quota are at most those of another.
abbrev pub AtMost : ResourceQuota → ResourceQuota → Type 0
AtMost low high =
    (low.max_tasks ≤ high.max_tasks)
    × (low.max_concurrent_tasks ≤ high.max_concurrent_tasks)
    × (low.max_gpu_memory_mb ≤ high.max_gpu_memory_mb)

-- The recorded usage of every user is within what `ceiling` gives the user.
abbrev pub AllWithin : (String → ResourceQuota) → AccessControl → Type 0
AllWithin ceiling control =
    (user : String) (usage : ResourceUsage)
    → lookup user control.usage ≡ some usage
    → Within (ceiling user) usage

-- No user's quota in force is above the user's ceiling.
abbrev pub NoHigher : (String → ResourceQuota) → AccessControl → Type 0
NoHigher ceiling control = (user : String) → AtMost (get_quota control user) (ceiling user)

current-Within :
    (control : AccessControl) (now : ℕ) (quota : ResourceQuota) (usage : ResourceUsage)
    → Within quota usage
    → Within quota (current control now usage)
unfolding current reset
current-Within control now quota usage h = elim (Bool-cases (is_period_expired control now usage)) [
  | inl expired ↦ rw (current, expired) (omega arith, omega arith, h.2)
  | inr runs ↦ rw (current, runs) h
]

-- Writing one user's usage, if it is within the quota.
insert-AllWithin :
    (ceiling : String → ResourceQuota) (control : AccessControl) (user : String)
    (usage : ResourceUsage)
    → Within (ceiling user) usage
    → AllWithin ceiling control
    → AllWithin ceiling (record control { usage = insert user usage control.usage })
insert-AllWithin ceiling control user usage h all_h other u found =
    elim (Bool-cases (user == other)) [
      | inl e ↦
          let stored : lookup other (insert user usage control.usage) ≡ some usage =
            rw (lookup-insert other user usage control.usage, e) refl in
          let written : usage ≡ u = cc in
          subst (λ v. Within (ceiling other) v) written
            (subst (λ k. Within (ceiling k) usage) (eq_of_beq user other e) h)
      | inr e ↦
          let kept : lookup other (insert user usage control.usage) ≡ lookup other control.usage =
            rw (lookup-insert other user usage control.usage, e) refl in
          all_h other u (sym kept ∙ found)
    ]

-- The usage that a check and a start read.
usage_or_new-Within :
    (ceiling : String → ResourceQuota) (control : AccessControl) (now : ℕ) (user : String)
    → AllWithin ceiling control
    → Within (ceiling user) (usage_or_new control now user)
unfolding usage_or_new new_usage
usage_or_new-Within ceiling control now user h = elim (Option-cases (lookup user control.usage)) [
  | inl absent ↦ rw (usage_or_new, absent) (omega arith, omega arith, omega arith)
  | inr (usage, there) ↦ rw (usage_or_new, there) (h user usage there)
]

-- A submission is allowed exactly if a further task stays within the quota and its memory does.
pub submission_refusal_iff :
    (usage : ResourceUsage) (quota : ResourceQuota) (gpu_memory_mb : ℕ)
    → (submission_refusal usage quota gpu_memory_mb ≡ none) ↔ (
        (usage.tasks_submitted < quota.max_tasks)
        × (usage.concurrent_tasks < quota.max_concurrent_tasks)
        × (gpu_memory_mb ≤ quota.max_gpu_memory_mb))
unfolding submission_refusal
submission_refusal_iff usage quota gpu_memory_mb = ground arith

current-new_usage :
    (control : AccessControl) (now : ℕ) → current control now (new_usage now) ≡ new_usage now
unfolding current is_period_expired new_usage
current-new_usage control now = elim (Bool-cases (is_period_expired control now (new_usage now))) [
  | inl expired ↦ absurd (ground (arith, expired))
  | inr runs ↦ rw (current, runs) refl
]

-- What a check reads of a user: the usage, made new or reset where the period is over.
get_usage-current :
    (control : AccessControl) (now : ℕ) (user : String)
    → (get_usage control now user).0 ≡ current control now (usage_or_new control now user)
unfolding get_usage usage_or_new
get_usage-current control now user = elim (Option-cases (lookup user control.usage)) [
  | inl absent ↦ rw (get_usage, usage_or_new, absent) (sym (current-new_usage control now))
  | inr (usage, there) ↦ rw (get_usage, usage_or_new, there) refl
]

record_task_start-AllWithin :
    (ceiling : String → ResourceQuota) (control : AccessControl) (now : ℕ) (user : String)
    (gpu_memory_mb : ℕ)
    → (check_task_submission control now user gpu_memory_mb).0 ≡ none
    → NoHigher ceiling control
    → AllWithin ceiling control
    → AllWithin ceiling (record_task_start control now user gpu_memory_mb)
unfolding check_task_submission record_task_start
record_task_start-AllWithin ceiling control now user gpu_memory_mb granted low h =
    let usage = current control now (usage_or_new control now user) in
    let quota = get_quota control user in
    let read : submission_refusal usage quota gpu_memory_mb ≡ none =
      rw (sym (get_usage-current control now user)) granted in
    let (tasks_left, concurrent_left, memory_left) =
      (submission_refusal_iff usage quota gpu_memory_mb).0 read in
    let before =
      current-Within control now (ceiling user) (usage_or_new control now user)
        (usage_or_new-Within ceiling control now user h) in
    let high = low user in
    insert-AllWithin ceiling control user _
      (
        omega (arith, tasks_left, high.0),
        omega (arith, concurrent_left, high.1),
        omega (arith, memory_left, before.2, high.2),
      )
      h

-- One call after another, at times that need not increase. A task is started only after the check
-- of its submission has allowed it.
pub data Calls : AccessControl → AccessControl → Type 0 where
  none_yet : (control : AccessControl) → Calls control control
  starts :
      (first control : AccessControl) (now : ℕ) (user : String) (gpu_memory_mb : ℕ)
      → Calls first control
      → (check_task_submission control now user gpu_memory_mb).0 ≡ none
      → Calls first (record_task_start control now user gpu_memory_mb)
  ends :
      (first control : AccessControl) (user : String) (seconds : ℕ)
      → Calls first control
      → Calls first (record_task_end control user seconds)
  stores :
      (first control : AccessControl) (now : ℕ) (user : String) (size_gb : ℕ)
      → Calls first control
      → Calls first (record_storage control now user size_gb)
  reads :
      (first control : AccessControl) (now : ℕ) (user : String)
      → Calls first control
      → Calls first (get_usage control now user).1
  resets :
      (first control : AccessControl) (now : ℕ) (user : String)
      → Calls first control
      → Calls first (reset_usage control now user)
  sets_quota :
      (first control : AccessControl) (user : String) (quota : ResourceQuota)
      → Calls first control
      → Calls first (set_quota control user quota)

record_task_end-AllWithin :
    (ceiling : String → ResourceQuota) (control : AccessControl) (user : String) (seconds : ℕ)
    → AllWithin ceiling control
    → AllWithin ceiling (record_task_end control user seconds)
unfolding record_task_end
record_task_end-AllWithin ceiling control user seconds h =
    elim (Option-cases (lookup user control.usage)) [
      | inl absent ↦ rw (record_task_end, absent) h
      | inr (usage, there) ↦
          let fits = h user usage there in
          rw (record_task_end, there)
            (insert-AllWithin ceiling control user _ (fits.0, omega (arith, fits.1), fits.2) h)
    ]

reset_usage-AllWithin :
    (ceiling : String → ResourceQuota) (control : AccessControl) (now : ℕ) (user : String)
    → AllWithin ceiling control
    → AllWithin ceiling (reset_usage control now user)
unfolding reset_usage reset
reset_usage-AllWithin ceiling control now user h = elim (Option-cases (lookup user control.usage)) [
  | inl absent ↦ rw (reset_usage, absent) h
  | inr (usage, there) ↦
      let fits = h user usage there in
      rw (reset_usage, there)
        (insert-AllWithin ceiling control user _ (omega arith, omega arith, fits.2) h)
]

get_usage-AllWithin :
    (ceiling : String → ResourceQuota) (control : AccessControl) (now : ℕ) (user : String)
    → AllWithin ceiling control
    → AllWithin ceiling (get_usage control now user).1
unfolding get_usage
get_usage-AllWithin ceiling control now user h = elim (Option-cases (lookup user control.usage)) [
  | inl absent ↦ rw (get_usage, absent) h
  | inr (usage, there) ↦
      rw (get_usage, there)
        (insert-AllWithin ceiling control user _
          (current-Within control now (ceiling user) usage (h user usage there)) h)
]

-- The quotas that the calls set are at most the caps of their users.
abbrev pub SetsAtMost :
    (String → ResourceQuota) → {first control : AccessControl} → Calls first control → Type 0
SetsAtMost ceiling (none_yet c) = Unit
SetsAtMost ceiling (starts f c now user mb before granted) = SetsAtMost ceiling before
SetsAtMost ceiling (ends f c user seconds before) = SetsAtMost ceiling before
SetsAtMost ceiling (stores f c now user gb before) = SetsAtMost ceiling before
SetsAtMost ceiling (reads f c now user before) = SetsAtMost ceiling before
SetsAtMost ceiling (resets f c now user before) = SetsAtMost ceiling before
SetsAtMost ceiling (sets_quota f c user quota before) =
    AtMost quota (ceiling user) × SetsAtMost ceiling before

set_quota-NoHigher :
    (ceiling : String → ResourceQuota) (control : AccessControl) (user : String)
    (quota : ResourceQuota)
    → AtMost quota (ceiling user)
    → NoHigher ceiling control
    → NoHigher ceiling (set_quota control user quota)
unfolding set_quota get_quota
set_quota-NoHigher ceiling control user quota low all_low other =
    elim (Bool-cases (user == other)) [
      | inl e ↦
          rw (get_quota, lookup-insert other user quota control.quotas, e)
            (subst (λ k. AtMost quota (ceiling k)) (eq_of_beq user other e) low)
      | inr e ↦ rw (get_quota, lookup-insert other user quota control.quotas, e) (all_low other)
    ]

-- The other operations keep the quotas.
record_task_end-NoHigher :
    (ceiling : String → ResourceQuota) (control : AccessControl) (user : String) (seconds : ℕ)
    → NoHigher ceiling control
    → NoHigher ceiling (record_task_end control user seconds)
unfolding record_task_end get_quota
record_task_end-NoHigher ceiling control user seconds low =
    elim (Option-cases (lookup user control.usage)) [
      | inl absent ↦ rw (record_task_end, absent) low
      | inr (usage, there) ↦ rw (record_task_end, there) low
    ]

get_usage-NoHigher :
    (ceiling : String → ResourceQuota) (control : AccessControl) (now : ℕ) (user : String)
    → NoHigher ceiling control
    → NoHigher ceiling (get_usage control now user).1
unfolding get_usage get_quota
get_usage-NoHigher ceiling control now user low = elim (Option-cases (lookup user control.usage)) [
  | inl absent ↦ rw (get_usage, absent) low
  | inr (usage, there) ↦ rw (get_usage, there) low
]

reset_usage-NoHigher :
    (ceiling : String → ResourceQuota) (control : AccessControl) (now : ℕ) (user : String)
    → NoHigher ceiling control
    → NoHigher ceiling (reset_usage control now user)
unfolding reset_usage get_quota
reset_usage-NoHigher ceiling control now user low =
    elim (Option-cases (lookup user control.usage)) [
      | inl absent ↦ rw (reset_usage, absent) low
      | inr (usage, there) ↦ rw (reset_usage, there) low
    ]

Calls-Bounded :
    (ceiling : String → ResourceQuota) (first control : AccessControl) (calls : Calls first control)
    → SetsAtMost ceiling calls
    → NoHigher ceiling first
    → AllWithin ceiling first
    → NoHigher ceiling control × AllWithin ceiling control
unfolding record_storage record_task_start set_quota get_quota
Calls-Bounded ceiling first control (none_yet c) set low h = (low, h)
Calls-Bounded ceiling first control (starts f c now user mb before granted) set low h =
    let (low', h') = Calls-Bounded ceiling first c before set low h in
    (low', record_task_start-AllWithin ceiling c now user mb granted low' h')
Calls-Bounded ceiling first control (ends f c user seconds before) set low h =
    let (low', h') = Calls-Bounded ceiling first c before set low h in
    (
      record_task_end-NoHigher ceiling c user seconds low',
      record_task_end-AllWithin ceiling c user seconds h',
    )
Calls-Bounded ceiling first control (stores f c now user gb before) set low h =
    let (low', h') = Calls-Bounded ceiling first c before set low h in
    (low', insert-AllWithin ceiling c user _ (usage_or_new-Within ceiling c now user h') h')
Calls-Bounded ceiling first control (reads f c now user before) set low h =
    let (low', h') = Calls-Bounded ceiling first c before set low h in
    (get_usage-NoHigher ceiling c now user low', get_usage-AllWithin ceiling c now user h')
Calls-Bounded ceiling first control (resets f c now user before) set low h =
    let (low', h') = Calls-Bounded ceiling first c before set low h in
    (reset_usage-NoHigher ceiling c now user low', reset_usage-AllWithin ceiling c now user h')
Calls-Bounded ceiling first control (sets_quota f c user quota before) set low h =
    let (low', h') = Calls-Bounded ceiling first c before set.1 low h in
    (set_quota-NoHigher ceiling c user quota set.0 low', h')

-- If each start is allowed by the check, then whatever calls are made, `set_quota` among them, no user
-- has more tasks of a period, more tasks at once or a larger memory of a task than the highest quota
-- that was ever in force for the user allows: where `ceiling` is at least every quota at the start and
-- every quota that `set_quota` gives, and the usage at the start is within it, all usage stays within
-- it. Storage and GPU hours, which the check of a submission does not read, are not bounded.
pub Calls-AllWithin :
    (ceiling : String → ResourceQuota) (first control : AccessControl) (calls : Calls first control)
    → SetsAtMost ceiling calls
    → NoHigher ceiling first
    → AllWithin ceiling first
    → AllWithin ceiling control
Calls-AllWithin ceiling first control calls set low h =
    (Calls-Bounded ceiling first control calls set low h).1

-- The first start after the end of a period counts one task at once, however many still run.
pub record_task_start-forgets :
    (control : AccessControl) (now : ℕ) (user : String) (gpu_memory_mb : ℕ) (usage : ResourceUsage)
    → lookup user control.usage ≡ some usage
    → is_period_expired control now usage ≡ true
    → (after : ResourceUsage) × (lookup user
          (record_task_start control now user gpu_memory_mb).usage
        ≡ some after)
      × (after.concurrent_tasks ≡ 1)
unfolding record_task_start usage_or_new current reset
record_task_start-forgets control now user gpu_memory_mb usage there expired =
    rw (record_task_start, usage_or_new, there, current, expired)
      (_, lookup-insert_self user _ control.usage, omega arith)
