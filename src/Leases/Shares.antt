-- ===== src/Leases/Shares.antt =====
-- deepiri_zepgpu/database/repositories/node_task_repository.py: `_release_gpu_share`, and what an end
-- does to the shares of GPUs.
use deepiri_zepgpu.Base.Dict.{lookup-insert, lookup}
use deepiri_zepgpu.Base.{
  if◌then◌else◌, string_eq, nat_eq, ◌==◌, eq_of_beq, Bool-cases, Option-cases, ℕ, String, ◌≡◌, ap,
  ◌∙◌, ◌⊎◌, inl, inr, true, Option, none, some, arith,
}
use deepiri_zepgpu.Ledger.Json.{Payload, Conversions}
use deepiri_zepgpu.Leases.TaskRow.{TaskStatus}
use deepiri_zepgpu.Leases.Rows.{NodeTaskAssignment, Tables, GpuShare, GpuShareState}
use deepiri_zepgpu.Leases.Lifecycle.{release_share, release_gpu_share, finish_task_of}

abbrev pub idle_share : GpuShare
idle_share = record { state = GpuShareState.idle; current_task_id = none }

-- The share is held by no task, or by this one.
abbrev pub IsHeldBy : String → GpuShare → Type 0
IsHeldBy task_id share = (share.current_task_id ≡ none) ⊎ (share.current_task_id ≡ some task_id)

release_share-IsHeldBy :
    (task_id : String) (share after : GpuShare)
    → release_share task_id (some share) ≡ some after
    → (after ≡ share) ⊎ (IsHeldBy task_id share × (after ≡ idle_share))
unfolding release_share
release_share-IsHeldBy task_id share after h = elim (Option-cases share.current_task_id) [
  | inl unheld ↦ inr (inl unheld, ground (arith, h, unheld))
  | inr (holder, held) ↦ elim (Bool-cases (holder == task_id)) [
    | inl same ↦
        inr (inr (held ∙ ap some (eq_of_beq holder task_id same)), ground (arith, h, held, same))
    | inr other ↦ inl (ground (arith, h, held, other))
  ]
]

-- A release keeps a share, or it is the assignment's own, which its task may hold, and becomes idle.
pub release_gpu_share-frees :
    (a : NodeTaskAssignment) (t : Tables) (share_id : String) (share : GpuShare)
    → lookup share_id t.shares ≡ some share
    → (lookup share_id (release_gpu_share a t).shares ≡ some share)
      ⊎ ((a.gpu_share_id ≡ some share_id)
          × IsHeldBy a.task_id share
          × (lookup share_id (release_gpu_share a t).shares ≡ some idle_share))
unfolding release_gpu_share
release_gpu_share-frees a t share_id share there = by_share a.gpu_share_id
  where
    Kept : Option String → Type 0
    Kept o =
        (lookup share_id (release_gpu_share (record a { gpu_share_id = o }) t).shares ≡ some share)
        ⊎ ((o ≡ some share_id)
            × IsHeldBy a.task_id share
            × (lookup share_id (release_gpu_share (record a { gpu_share_id = o }) t).shares
                ≡ some idle_share))

    stored :
        (own : String) (after : GpuShare)
        → release_share a.task_id (lookup own t.shares) ≡ some after
        → lookup share_id (release_gpu_share (record a { gpu_share_id = some own }) t).shares
          ≡ (if own == share_id then some after else lookup share_id t.shares)
    stored own after e = rw (release_gpu_share, e) (lookup-insert share_id own after t.shares)

    released :
        (own : String) (after : GpuShare)
        → release_share a.task_id (lookup own t.shares) ≡ some after
        → (own == share_id) ≡ true
        → Kept (some own)
    released own after e same =
        let found : lookup own t.shares ≡ some share =
          ap (λ k. lookup k t.shares) (eq_of_beq own share_id same) ∙ there in
        let now_there = stored own after e in
        elim (release_share-IsHeldBy a.task_id share after (rw found at e)) [
          | inl kept ↦ inl (ground (arith, now_there, same, kept))
          | inr (held, idle) ↦
              inr
                (ap some (eq_of_beq own share_id same), held, ground (arith, now_there, same, idle))
        ]

    by_share : (o : Option String) → Kept o
    by_share none = inl there
    by_share (some own) = elim (Option-cases (release_share a.task_id (lookup own t.shares))) [
      | inl e ↦ inl (rw (release_gpu_share, e) there)
      | inr (after, e) ↦ elim (Bool-cases (own == share_id)) [
        | inl same ↦ released own after e same
        | inr other ↦ inl (stored own after e ∙ (rw other there))
      ]
    ]

pub finish_task_of-shares :
    (py : Conversions) (now : ℕ) (task_id : String) (status : TaskStatus) (error : Option String)
    (result : Option Payload) (t : Tables)
    → (finish_task_of py now task_id status error result t).shares ≡ t.shares
unfolding finish_task_of
finish_task_of-shares py now task_id status error result t =
    elim (Option-cases (lookup task_id t.tasks)) [
      | inl e ↦ rw (finish_task_of, e)
      | inr (task, e) ↦ rw (finish_task_of, e)
    ]
