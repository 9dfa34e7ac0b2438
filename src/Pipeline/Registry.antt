-- ===== src/Pipeline/Registry.antt =====
-- deepiri_zepgpu/core/pipeline_manager.py: the pipelines that a PipelineManager holds.
use deepiri_zepgpu.Base.{
  string_eq, nat_eq, Option-cases, Outcome, ok-injective, ok, raise, ℕ, String, ◌≡◌, refl, sym, ap,
  ◌∙◌, inl, inr, Bool, false, Option, none, some, List, [], ◌∷◌,
}
use deepiri_zepgpu.Base.Dict.{Dict, lookup, insert, contains}
use deepiri_zepgpu.Pipeline.Stage.{PipelineStage, PipelineStageStatus, pending}
use deepiri_zepgpu.Pipeline.Rounds.{LoopEnd, run_pipeline}

pub record Pipeline (V : Type 0) : Type 0 where
  pub name : String
  pub stages : List (PipelineStage V)
  pub pipeline_id : String
  pub user_id : Option String
  pub created_at : ℕ
  pub status : PipelineStageStatus
  pub stage_statuses : Dict String PipelineStageStatus

-- `_pipelines` and `_running_pipelines`; an asyncio task is known by a number.
pub record PipelineManager (V : Type 0) : Type 0 where
  pub enable_retry : Bool
  pub max_concurrent_stages : ℕ
  pub pipelines : Dict String (Pipeline V)
  pub running_pipelines : Dict String ℕ

pub data PipelineError : Type 0 where
  not_found : PipelineError

module _ {V : Type 0} where
  -- `__post_init__`
  unfoldable pub all_pending :
      List (PipelineStage V) → Dict String PipelineStageStatus → Dict String PipelineStageStatus
  all_pending [] statuses = statuses
  all_pending (stage ∷ stages) statuses = all_pending stages (insert stage.name pending statuses)

  unfoldable pub new_manager : ℕ → Bool → PipelineManager V
  new_manager max_concurrent_stages enable_retry = record {
    enable_retry = enable_retry;
    max_concurrent_stages = max_concurrent_stages;
    pipelines = [];
    running_pipelines = [];
  }

  -- The id is a fresh UUID and `now` the time.
  unfoldable pub create_pipeline :
      PipelineManager V
      → String
      → List (PipelineStage V)
      → Option String
      → String
      → ℕ
      → String × PipelineManager V
  unfolding all_pending
  create_pipeline manager name stages user_id id now =
      let pipeline : Pipeline V = record {
        name = name;
        stages = stages;
        pipeline_id = id;
        user_id = user_id;
        created_at = now;
        status = pending;
        stage_statuses = all_pending stages [];
      } in
      (id, record manager { pipelines = insert id pipeline manager.pipelines })

  unfoldable pub get_pipeline : PipelineManager V → String → Option (Pipeline V)
  get_pipeline manager pipeline_id = lookup pipeline_id manager.pipelines

  -- `run_pipeline` with its lookup: the status is written to the pipeline.
  unfoldable pub run_by_id :
      PipelineManager V
      → String
      → List (List (ℕ × Outcome String V))
      → Dict String V
      → Outcome PipelineError (Outcome String (LoopEnd V) × PipelineManager V)
  run_by_id manager pipeline_id rounds initial_inputs =
      elim (lookup pipeline_id manager.pipelines) [
        | none ↦ raise not_found
        | some pipeline ↦
            let (status, outcome) =
              run_pipeline manager.enable_retry manager.max_concurrent_stages pipeline.stages rounds
                initial_inputs in
            ok (
              outcome,
              record manager {
                pipelines =
                    insert pipeline_id (record pipeline { status = status }) manager.pipelines;
              },
            )
      ]

  unfoldable pub cancel_pipeline : PipelineManager V → String → Bool
  cancel_pipeline manager pipeline_id = contains pipeline_id manager.running_pipelines

  -- The managers that calls lead to.
  pub data Used : PipelineManager V → Type 0 where
    is_new :
        (max_concurrent_stages : ℕ) (enable_retry : Bool)
        → Used (new_manager max_concurrent_stages enable_retry)
    creates :
        (manager : PipelineManager V) (name : String) (stages : List (PipelineStage V))
        (user_id : Option String) (id : String) (now : ℕ)
        → Used manager
        → Used (create_pipeline manager name stages user_id id now).1
    runs :
        (manager after : PipelineManager V) (pipeline_id : String)
        (rounds : List (List (ℕ × Outcome String V))) (inputs : Dict String V)
        (outcome : Outcome String (LoopEnd V))
        → run_by_id manager pipeline_id rounds inputs ≡ ok (outcome, after)
        → Used manager
        → Used after

  run_by_id-keeps :
      (manager after : PipelineManager V) (id : String)
      (rounds : List (List (ℕ × Outcome String V))) (inputs : Dict String V)
      (outcome : Outcome String (LoopEnd V))
      → run_by_id manager id rounds inputs ≡ ok (outcome, after)
      → after.running_pipelines ≡ manager.running_pipelines
  unfolding run_by_id
  run_by_id-keeps manager after id rounds inputs outcome h =
      elim (Option-cases (lookup id manager.pipelines)) [
        | inl absent ↦
            let missing : run_by_id manager id rounds inputs ≡ raise not_found =
              rw (run_by_id, absent) refl in
            absurd cc
        | inr (pipeline, there) ↦
            let result =
              run_pipeline manager.enable_retry manager.max_concurrent_stages pipeline.stages rounds
                inputs in
            let found : run_by_id manager id rounds inputs
                ≡ ok (
                  result.1,
                  record manager {
                    pipelines = insert id (record pipeline { status = result.0 }) manager.pipelines;
                  },
                ) =
              rw (run_by_id, there) refl in
            sym (ap (λ r. r.1.running_pipelines) (ok-injective (sym found ∙ h)))
      ]

  nothing_running : (manager : PipelineManager V) → Used manager → manager.running_pipelines ≡ []
  unfolding new_manager create_pipeline
  nothing_running manager (is_new most retry) = refl
  nothing_running manager (creates m name stages user id now used) = nothing_running m used
  nothing_running manager (runs m after id rounds inputs outcome h used) =
      run_by_id-keeps m manager id rounds inputs outcome h ∙ nothing_running m used

  -- No pipeline is ever cancelled: whatever was created and run, `cancel_pipeline` answers False.
  pub cancel_pipeline-never :
      (manager : PipelineManager V) (pipeline_id : String)
      → Used manager
      → cancel_pipeline manager pipeline_id ≡ false
  unfolding cancel_pipeline
  cancel_pipeline-never manager pipeline_id used = rw (nothing_running manager used) refl
