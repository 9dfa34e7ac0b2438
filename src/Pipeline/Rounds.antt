-- ===== src/Pipeline/Rounds.antt =====
-- deepiri_zepgpu/core/pipeline_manager.py: the loop of `_execute_stages`, and `run_pipeline`. A raise
-- drops the locals and the errors noted so far.
use deepiri_zepgpu.Base.{
  ltb, if◌then◌else◌, string_eq, nat_eq, ◌==◌, length, all, elem, Outcome, ◌>>=◌, ok, raise, ℕ,
  zero, suc, ◌+◌, ◌-◌, String, Bool, false, not, ◌&&◌, ◌||◌, Option, none, some, List, [], ◌∷◌,
}
use deepiri_zepgpu.Base.Dict.{Dict, insert, erase}
use deepiri_zepgpu.Pipeline.Stage.{failed, running, completed, PipelineStageStatus, PipelineStage}

-- The locals of `_execute_stages`. A task has the number of its creation; `launched` has the stages
-- of the tasks, the last first.
pub record Run (V : Type 0) : Type 0 where
  pub context : Dict String V
  pub completed_names : List String
  pub failed_names : List String
  pub stage_tasks : Dict String ℕ
  pub launched : List String
  pub errors : Dict String String
  pub completed_stages : ℕ

-- `seen.add(name)`
unfoldable pub add_name : String → List String → List String
add_name name names = if elem name names then names else name ∷ names

-- The first n entries.
abbrev pub take {ℓ} : {A : Type ℓ} → ℕ → List A → List A
take zero xs = []
take (suc n) [] = []
take (suc n) (x ∷ xs) = x ∷ take n xs

-- The name under which a task stands.
unfoldable pub name_of_task : ℕ → Dict String ℕ → Option String
name_of_task task [] = none
name_of_task task ((name, t) ∷ tasks) = if t == task then some name else name_of_task task tasks

module _ {V : Type 0} where
  unfoldable pub is_ready : Run V → PipelineStage V → Bool
  is_ready run stage =
      if elem stage.name run.completed_names || elem stage.name run.failed_names
      then false
      else all (λ dep. elem dep run.completed_names) stage.depends_on

  unfoldable pub ready_stages : List (PipelineStage V) → Run V → List (PipelineStage V)
  ready_stages [] run = []
  ready_stages (stage ∷ stages) run =
      if is_ready run stage then stage ∷ ready_stages stages run else ready_stages stages run

  -- `stage_tasks[stage.name] = asyncio.create_task(…)`
  unfoldable pub create_task : PipelineStage V → Run V → Run V
  create_task stage run = record run {
    stage_tasks = insert stage.name (length run.launched) run.stage_tasks;
    launched = stage.name ∷ run.launched;
  }

  unfoldable pub create_tasks : List (PipelineStage V) → Run V → Run V
  unfolding create_task
  create_tasks [] run = run
  create_tasks (stage ∷ stages) run = create_tasks stages (create_task stage run)

  -- At most `max_concurrent_stages` tasks, so the difference is not negative.
  unfoldable pub launch : ℕ → List (PipelineStage V) → Run V → Run V
  unfolding create_tasks ready_stages
  launch max_concurrent_stages stages run =
      create_tasks (take (max_concurrent_stages - length run.stage_tasks) (ready_stages stages run))
        run

  unfoldable pub record_result : Bool → Run V → String → Outcome String V → Outcome String (Run V)
  unfolding add_name
  record_result enable_retry run name (ok v) = ok (record run {
    stage_tasks = erase name run.stage_tasks;
    context = insert name v run.context;
    completed_names = add_name name run.completed_names;
    completed_stages = run.completed_stages + 1;
  })
  record_result enable_retry run name (raise e) =
      if not enable_retry
      then raise e
      else ok (record run {
        stage_tasks = erase name run.stage_tasks;
        failed_names = add_name name run.failed_names;
        errors = insert name e run.errors;
      })

  unfoldable pub finish_task : Bool → Run V → ℕ × Outcome String V → Outcome String (Run V)
  unfolding record_result
  finish_task enable_retry run done = elim (name_of_task done.0 run.stage_tasks) [
    | none ↦ ok run
    | some name ↦ record_result enable_retry run name done.1
  ]

  unfoldable pub finish_tasks : Bool → Run V → List (ℕ × Outcome String V) → Outcome String (Run V)
  unfolding finish_task
  finish_tasks enable_retry run [] = ok run
  finish_tasks enable_retry run (done ∷ rest) =
      finish_task enable_retry run done >>= λ next. finish_tasks enable_retry next rest

  -- Whether the `while` loop goes on: its condition, and the `break`.
  unfoldable pub goes_on : List (PipelineStage V) → Run V → Bool
  unfolding ready_stages
  goes_on stages run =
      ltb (length run.completed_names + length run.failed_names) (length stages)
      && not (length (ready_stages stages run) == 0 && length run.stage_tasks == 0)

-- The state in which the loop ends, or waits for the tasks of `stage_tasks`.
pub data LoopEnd (V : Type 0) : Type 0 where
  finished waits : Run V → LoopEnd V

module _ {V : Type 0} where
  -- One list of finished tasks for each `asyncio.wait`; without a further one the loop still waits.
  unfoldable pub execute_stages :
      Bool
      → ℕ
      → List (PipelineStage V)
      → List (List (ℕ × Outcome String V))
      → Run V
      → Outcome String (LoopEnd V)
  unfolding goes_on launch finish_tasks
  execute_stages enable_retry max_concurrent_stages stages [] run =
      if goes_on stages run
      then ok (waits (launch max_concurrent_stages stages run))
      else ok (finished run)
  execute_stages enable_retry max_concurrent_stages stages (done ∷ rounds) run =
      if goes_on stages run
      then (finish_tasks enable_retry (launch max_concurrent_stages stages run) done >>= λ next.
          execute_stages enable_retry max_concurrent_stages stages rounds next)
      else ok (finished run)

  unfoldable pub start_run : Dict String V → Run V
  start_run initial_inputs = record {
    context = initial_inputs;
    completed_names = [];
    failed_names = [];
    stage_tasks = [];
    launched = [];
    errors = [];
    completed_stages = 0;
  }

  -- The status that `run_pipeline` leaves.
  unfoldable pub pipeline_status : Outcome String (LoopEnd V) → PipelineStageStatus
  pipeline_status (ok (finished run)) = completed
  pipeline_status (ok (waits run)) = running
  pipeline_status (raise e) = failed

  unfoldable pub run_pipeline :
      Bool
      → ℕ
      → List (PipelineStage V)
      → List (List (ℕ × Outcome String V))
      → Dict String V
      → PipelineStageStatus × Outcome String (LoopEnd V)
  unfolding pipeline_status execute_stages start_run
  run_pipeline enable_retry max_concurrent_stages stages rounds initial_inputs =
      let outcome =
        execute_stages enable_retry max_concurrent_stages stages rounds
          (start_run initial_inputs) in
      (pipeline_status outcome, outcome)
