-- ===== src/Pipeline/Tests.antt =====
-- Pipelines on concrete stages.
use mathlib.Core.List.{Memᴰ}
use deepiri_zepgpu.Pipeline.Listing.{list_pipelines}
use deepiri_zepgpu.Pipeline.Relaunch.{launch-again, HasNew}
use deepiri_zepgpu.Base.{
  string_eq, nat_eq, Outcome, ok, raise, ℕ, zero, suc, String, ◌≡◌, refl, ◌≢◌, ◌⊎◌, true, false,
  none, some, List, [], ◌∷◌, map, arith,
}
use deepiri_zepgpu.Base.Dict.{Dict}
use deepiri_zepgpu.Pipeline.Stage.{pending, PipelineStage, execute_stage}
use deepiri_zepgpu.Pipeline.Registry.{Pipeline, PipelineManager, new_manager, create_pipeline}
use deepiri_zepgpu.Pipeline.Retry.{Returns, GivesUp, execute_stage-ends}
use deepiri_zepgpu.Pipeline.Rounds.{
  Run, waits, goes_on, execute_stages, start_run, is_ready, name_of_task, launch, finish_task,
  ready_stages,
}
use deepiri_zepgpu.Pipeline.Depends.{EndInOrder, execute_stages-InOrder}

-- The first call fails, the others return.
abbrev flaky : ℕ → Outcome String ℕ
flaky zero = raise "busy"
flaky (suc n) = ok 7

abbrev stage_of : String → List String → PipelineStage ℕ
stage_of name deps = record {
  name = name;
  func = λ args n. flaky n;
  args_template = [];
  depends_on = deps;
  retry_count = 0;
  max_retries = 3;
  on_error = none;
}

abbrev no_context : ℕ → Dict String ℕ
no_context n = []

abbrev load : PipelineStage ℕ
load = stage_of "load" []

abbrev train : PipelineStage ℕ
train = stage_of "train" ("load" ∷ [])

abbrev other : PipelineStage ℕ
other = stage_of "other" []

retries_once : (execute_stage load no_context).calls ≡ 2
unfolding execute_stage
retries_once = refl

execute_stage-ends_example :
    Returns load no_context 0 3 (execute_stage load no_context)
    ⊎ GivesUp load no_context 0 3 (execute_stage load no_context)
execute_stage-ends_example = execute_stage-ends load no_context

-- After "load" is done, "train" is started.
abbrev after_load : Run ℕ
after_load = record {
  context = ("load", 7) ∷ [];
  completed_names = "load" ∷ [];
  failed_names = [];
  stage_tasks = ("train", 1) ∷ [];
  launched = "train" ∷ "load" ∷ [];
  errors = [];
  completed_stages = 1;
}

runs_train :
    execute_stages true 4 (train ∷ load ∷ []) (((0, ok 7) ∷ []) ∷ []) (start_run [])
    ≡ ok (waits after_load)
unfolding execute_stages start_run is_ready name_of_task
runs_train = refl

execute_stages-InOrder_example : EndInOrder (train ∷ load ∷ []) (waits after_load)
execute_stages-InOrder_example =
    execute_stages-InOrder (train ∷ load ∷ []) true 4 (((0, ok 7) ∷ []) ∷ []) [] (waits after_load)
      runs_train

goes_on_first : goes_on (train ∷ load ∷ []) (start_run []) ≡ true
unfolding goes_on start_run is_ready
goes_on_first = refl

differ : load.name ≢ other.name
differ h = let clash : false ≡ true = (string_eq.same_iff load.name other.name).0 h in cc

abbrev one_pipeline : PipelineManager ℕ
one_pipeline = (create_pipeline (new_manager 4 true) "nightly" (load ∷ []) none "p1" 100).1

abbrev two_pipelines : PipelineManager ℕ
two_pipelines = (create_pipeline one_pipeline "hourly" (load ∷ []) (some "ann") "p2" 200).1

newest_named_first :
    map (λ (p : Pipeline ℕ). p.pipeline_id) (list_pipelines two_pipelines none none)
    ≡ "p2" ∷ "p1" ∷ []
unfolding list_pipelines create_pipeline new_manager
newest_named_first = refl

only_of_ann :
    map
      (λ (p : Pipeline ℕ). p.pipeline_id)
      (list_pipelines two_pipelines (some "ann") (some pending))
    ≡ "p2" ∷ []
unfolding list_pipelines create_pipeline new_manager
only_of_ann = refl

-- "other" is done, "load" still runs as task 0.
abbrev load_runs : Run ℕ
load_runs = record {
  context = ("other", 7) ∷ [];
  completed_names = "other" ∷ [];
  failed_names = [];
  stage_tasks = ("load", 0) ∷ [];
  launched = "other" ∷ "load" ∷ [];
  errors = [];
  completed_stages = 1;
}

launch-again_example :
    let after = launch 4 (load ∷ other ∷ []) load_runs in
    HasNew "load" 2 after.stage_tasks × (finish_task true after (0, ok 7) ≡ ok after)
unfolding is_ready ready_stages name_of_task
launch-again_example =
    launch-again true 4 (load ∷ other ∷ []) load_runs load 0 (ok 7) (Memᴰ.head refl) refl refl refl
      (omega arith) (omega arith)
