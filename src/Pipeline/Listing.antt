-- ===== src/Pipeline/Listing.antt =====
-- deepiri_zepgpu/core/pipeline_manager.py: list_pipelines.
use deepiri_zepgpu.Base.Dict.{values}
use deepiri_zepgpu.Base.Sorting.{filter, sort_by, SortedBy, sort_by_sorts}
use deepiri_zepgpu.Base.{
  leb, string_eq, nat_eq, ◌==◌, String, Bool, true, false, ◌||◌, Option, none, some, List, arith,
}
use deepiri_zepgpu.Pipeline.Stage.{
  PipelineStageStatus, pending, waiting, running, completed, failed, skipped,
}
use deepiri_zepgpu.Pipeline.Registry.{Pipeline, PipelineManager}

-- `status.value`
abbrev pub stage_status_value : PipelineStageStatus → String
stage_status_value pending = "pending"
stage_status_value waiting = "waiting"
stage_status_value running = "running"
stage_status_value completed = "completed"
stage_status_value failed = "failed"
stage_status_value skipped = "skipped"

module _ {V : Type 0} where
  -- `if user_id: …`; None and "" select every pipeline.
  abbrev pub is_of_user : Option String → Pipeline V → Bool
  is_of_user none p = true
  is_of_user (some user_id) p =
      user_id == "" || elim p.user_id [ none ↦ false | some user ↦ user == user_id ]

  abbrev pub is_in_status : Option PipelineStageStatus → Pipeline V → Bool
  is_in_status none p = true
  is_in_status (some status) p = stage_status_value p.status == stage_status_value status

  -- `sorted(…, key=created_at, reverse=True)`, which keeps the order of equals.
  abbrev pub not_older : Pipeline V → Pipeline V → Bool
  not_older p q = leb q.created_at p.created_at

  unfoldable pub list_pipelines :
      PipelineManager V → Option String → Option PipelineStageStatus → List (Pipeline V)
  list_pipelines manager user_id status =
      sort_by not_older
        (filter (is_in_status status) (filter (is_of_user user_id) (values manager.pipelines)))

  -- The newest pipelines stand first.
  pub list_pipelines-SortedBy :
      (manager : PipelineManager V) (user_id : Option String) (status : Option PipelineStageStatus)
      → SortedBy not_older (list_pipelines manager user_id status)
  unfolding list_pipelines
  list_pipelines-SortedBy manager user_id status =
      sort_by_sorts not_older
        (filter (is_in_status status) (filter (is_of_user user_id) (values manager.pipelines)))
        (λ x y h. ground arith, λ x y z h k. ground arith)
