-- ===== src/Leases/Goes.antt =====
-- deepiri_zepgpu/database/repositories/node_task_repository.py: how the tables may change: the rows of
-- assignments go on, and a share is taken back only by the end of an assignment on it.
use deepiri_zepgpu.Base.Dict.{lookup-insert_self, lookup}
use deepiri_zepgpu.Base.{
  string_eq, nat_eq, ℕ, String, ◌≡◌, refl, sym, ap, subst, ◌∙◌, ◌⊎◌, inl, inr, true, false, Option,
  some,
}
use deepiri_zepgpu.Ledger.Json.{Conversions}
use deepiri_zepgpu.Leases.Rows.{
  NodeAssignmentStatus, is_completed, is_cancelled, NodeTaskAssignment, Tables, GpuShare,
  is_terminal,
}
use deepiri_zepgpu.Leases.Lifecycle.{
  save, mapped_status, finish_task_of, end_assignment, Answer, Ending, end_active, mark_terminal,
  ignore_terminal_conflict, record_event,
}
use deepiri_zepgpu.Leases.Advance.{
  Rows, Keyed, Onward, Advances, Advances-refl, Advances-trans, Here, either,
}
use deepiri_zepgpu.Leases.Rewrites.{end_active-assignments, IsEnding, mark_terminal-Advances}
use deepiri_zepgpu.Leases.Shares.{
  release_gpu_share-frees, finish_task_of-shares, idle_share, IsHeldBy,
}

-- What took the share back: an assignment on it that ended in between.
pub record Freed (r r' : Rows) (share_id : String) (share : GpuShare) : Type 0 where
  pub row : NodeTaskAssignment
  pub there : lookup row.id r' ≡ some row
  pub ended : is_terminal row.status ≡ true
  pub on_share : row.gpu_share_id ≡ some share_id
  pub held : IsHeldBy row.task_id share
  pub was_active :
      (a : NodeTaskAssignment) → lookup row.id r ≡ some a → is_terminal a.status ≡ false

-- A share stays as it is, or it is idle now and an end took it back.
abbrev pub Frees : Tables → Tables → Type 0
Frees t t' =
    (share_id : String) (share : GpuShare)
    → lookup share_id t.shares ≡ some share
    → (lookup share_id t'.shares ≡ some share)
      ⊎ (Freed t.assignments t'.assignments share_id share
          × (lookup share_id t'.shares ≡ some idle_share))

abbrev pub Goes : Tables → Tables → Type 0
Goes t t' =
    Keyed t.assignments → (Keyed t'.assignments × Onward t.assignments t'.assignments) × Frees t t'

pub Goes-refl : (t : Tables) → Goes t t
Goes-refl t keyed = (Advances-refl t.assignments keyed, λ share_id share h. inl h)

pub Goes-rows : (t t' : Tables) → Goes t t' → Advances t.assignments t'.assignments
Goes-rows t t' goes keyed = (goes keyed).0

-- No share is touched.
pub Advances-Goes :
    (t t' : Tables) → Advances t.assignments t'.assignments → t'.shares ≡ t.shares → Goes t t'
Advances-Goes t t' onward same keyed = (onward keyed, λ share_id share h. inl (rw same h))

-- A row that has ended stays.
Freed-later :
    (r s t : Rows) (share_id : String) (share : GpuShare)
    → Onward s t
    → Freed r s share_id share
    → Freed r t share_id share
Freed-later r s t share_id share onward freed =
    let (b, found, later) = onward freed.row.id freed.row freed.there in
    let same : b ≡ freed.row = elim later.end [
      | inl unended ↦ absurd (cc (unended, freed.ended))
      | inr same ↦ same
    ] in
    record {
      row = freed.row;
      there = found ∙ ap some same;
      ended = freed.ended;
      on_share = freed.on_share;
      held = freed.held;
      was_active = freed.was_active;
    }

-- A row that had not ended later had not ended before.
Freed-earlier :
    (r s t : Rows) (share_id : String) (share : GpuShare)
    → Onward r s
    → Freed s t share_id share
    → Freed r t share_id share
Freed-earlier r s t share_id share onward freed = record {
  row = freed.row;
  there = freed.there;
  ended = freed.ended;
  on_share = freed.on_share;
  held = freed.held;
  was_active = λ a found.
      let (b, found', later) = onward freed.row.id a found in
      elim later.end [
        | inl unended ↦ unended
        | inr same ↦ subst (λ x. is_terminal x.status ≡ false) same (freed.was_active b found')
      ];
}

pub Goes-trans : (r s t : Tables) → Goes r s → Goes s t → Goes r t
Goes-trans r s t p q keyed =
    let ((keyed', rs), frees) = p keyed in
    let ((keyed'', st), frees') = q keyed' in
    (
      Advances-trans r.assignments s.assignments t.assignments (λ k. (p k).0) (λ k. (q k).0) keyed,
      λ share_id share h. elim (frees share_id share h) [
        | inl kept ↦ elim (frees' share_id share kept) [
          | inl kept' ↦ inl kept'
          | inr (freed, idle) ↦ inr (
            Freed-earlier r.assignments s.assignments t.assignments share_id share rs freed,
            idle,
          )
        ]
        | inr (freed, idle) ↦ inr (
          Freed-later r.assignments s.assignments t.assignments share_id share st freed,
          elim (frees' share_id idle_share idle) [
            | inl kept' ↦ kept'
            | inr (freed', idle') ↦ idle'
          ],
        )
      ],
    )

end_assignment-keeps :
    (now : ℕ) (status : NodeAssignmentStatus) (reason : String) (error : Option String)
    (a : NodeTaskAssignment)
    → let b = end_assignment now status reason error a in
      (b.id ≡ a.id)
      × (b.status ≡ status)
      × (b.gpu_share_id ≡ a.gpu_share_id)
      × (b.task_id ≡ a.task_id)
unfolding end_assignment
end_assignment-keeps now status reason error a =
    let ended = record a { status = status; terminal_reason = some reason; error = error } in
    either P (is_completed status) (λ _. (refl, refl, refl, refl))
      (λ _.
        either P (is_cancelled status) (λ _. (refl, refl, refl, refl))
          (λ _. (refl, refl, refl, refl)))
  where
    P : NodeTaskAssignment → Type 0
    P b =
        (b.id ≡ a.id)
        × (b.status ≡ status)
        × (b.gpu_share_id ≡ a.gpu_share_id)
        × (b.task_id ≡ a.task_id)

-- What an end does to the shares.
end_active-Frees :
    (py : Conversions) (now : ℕ) (e : Ending) (a : NodeTaskAssignment) (t : Tables)
    → IsEnding e
    → Here a t.assignments
    → is_terminal a.status ≡ false
    → Frees t (end_active py now e a t).1
unfolding end_active record_event
end_active-Frees py now e a t ending here active share_id share h =
    elim (release_gpu_share-frees a finished share_id share found) [
      | inl kept ↦ inl kept
      | inr (own, held, idle) ↦ inr (freed own held, idle)
    ]
  where
    ended : NodeTaskAssignment
    ended = end_assignment now e.status e.reason e.error a

    finished : Tables
    finished =
        finish_task_of py now a.task_id (mapped_status e.task_status e.status e.reason) e.error
          e.result_metadata (save ended t)

    found : lookup share_id finished.shares ≡ some share
    found =
        ap (λ d. lookup share_id d)
          (finish_task_of-shares py now a.task_id (mapped_status e.task_status e.status e.reason)
            e.error e.result_metadata (save ended t))
        ∙ h

    keeps :
        (ended.id ≡ a.id)
        × (ended.status ≡ e.status)
        × (ended.gpu_share_id ≡ a.gpu_share_id)
        × (ended.task_id ≡ a.task_id)
    keeps = end_assignment-keeps now e.status e.reason e.error a

    rows : Rows
    rows = (end_active py now e a t).1.assignments

    freed :
        a.gpu_share_id ≡ some share_id
        → IsHeldBy a.task_id share
        → Freed t.assignments rows share_id share
    freed own held = record {
      row = ended;
      there =
          ap (λ d. lookup ended.id d) (end_active-assignments py now e a t)
          ∙ lookup-insert_self ended.id ended t.assignments;
      ended = ap is_terminal keeps.1 ∙ ending;
      on_share = keeps.2 ∙ own;
      held = subst (λ task. IsHeldBy task share) (sym keeps.3) held;
      was_active = λ b there.
          ap (λ x. is_terminal x.status)
            (here b (ap (λ i. lookup i t.assignments) (sym keeps.0) ∙ there))
          ∙ active;
    }

pub mark_terminal-Goes :
    (py : Conversions) (now : ℕ) (e : Ending) (a : NodeTaskAssignment) (t : Tables)
    → IsEnding e
    → Here a t.assignments
    → Goes t (mark_terminal py now e a t).1
unfolding mark_terminal ignore_terminal_conflict record_event
mark_terminal-Goes py now e a t ending here keyed = (
  mark_terminal-Advances py now e a t ending here keyed,
  either {A = Answer × Tables} (λ r. Frees t r.1) (is_terminal a.status)
      (λ h share_id share there. inl there)
      (λ active. end_active-Frees py now e a t ending here active),
)
