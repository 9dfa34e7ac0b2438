-- ===== src/Pipeline/Progress.antt =====
-- The loop of core/pipeline_manager.py waits only for tasks that there are, and what it does with
-- stages that run or fail.
use deepiri_zepgpu.Base.{
  string_eq, nat_eq, ◌==◌, beq_self, Bool-cases, length, ok, raise, ℕ, zero, suc, ◌+◌, ◌-◌, ◌<◌,
  String, ◌≡◌, refl, inl, inr, true, List, [], ◌∷◌, arith,
}
use deepiri_zepgpu.Base.Dict.{Dict}
use deepiri_zepgpu.Base.DictSize.{length-insert_pos}
use deepiri_zepgpu.Pipeline.Stage.{PipelineStage, completed}
use deepiri_zepgpu.Pipeline.Rounds.{
  Run, finished, add_name, take, is_ready, ready_stages, create_task, create_tasks, launch,
  name_of_task, record_result, finish_task, finish_tasks, goes_on, execute_stages, start_run,
  pipeline_status, run_pipeline,
}

take-pos : {A : Type 0} (n : ℕ) (xs : List A) → 0 < n → 0 < length xs → 0 < length (take n xs)
take-pos zero xs h g = absurd (omega (arith, h))
take-pos (suc n) [] h g = absurd (omega (arith, g))
take-pos (suc n) (x ∷ xs) h g = omega arith

module _ {V : Type 0} where
  create_tasks-pos :
      (new : List (PipelineStage V)) (run : Run V)
      → 0 < length new + length run.stage_tasks
      → 0 < length (create_tasks new run).stage_tasks
  unfolding create_tasks create_task
  create_tasks-pos [] run h = omega (arith, h)
  create_tasks-pos (s ∷ new) run h =
      create_tasks-pos new (create_task s run)
        (omega (arith, length-insert_pos s.name (length run.launched) run.stage_tasks))

  -- With at least one slot, a round that does not end the loop has a task to wait for.
  pub launch-pos :
      (slots : ℕ) (stages : List (PipelineStage V)) (run : Run V)
      → 0 < slots
      → goes_on stages run ≡ true
      → 0 < length (launch slots stages run).stage_tasks
  unfolding launch goes_on
  launch-pos slots stages run room going =
      create_tasks-pos (take (slots - length run.stage_tasks) (ready_stages stages run)) run
        (elim (Bool-cases (length run.stage_tasks == 0)) [
          | inl idle ↦
              let waiting : 0 < length (ready_stages stages run) = ground (arith, going, idle) in
              let free : 0 < slots - length run.stage_tasks = ground (arith, room, idle) in
              omega (
                arith,
                take-pos (slots - length run.stage_tasks) (ready_stages stages run) free waiting,
              )
          | inr busy ↦ ground (arith, busy)
        ])

  -- With retries enabled, a pipeline whose only stage fails for good ends as COMPLETED.
  pub run_pipeline-failed_stage :
      (stage : PipelineStage V) (e : String) (inputs : Dict String V)
      → stage.depends_on ≡ []
      → (run : Run V) × (run_pipeline true 4 (stage ∷ []) (((0, raise e) ∷ []) ∷ []) inputs
          ≡ (completed, ok (finished run)))
        × (run.failed_names ≡ stage.name ∷ [])
  unfolding run_pipeline execute_stages start_run goes_on launch ready_stages is_ready create_tasks
      create_task finish_tasks finish_task name_of_task record_result add_name pipeline_status
  run_pipeline-failed_stage stage e inputs free = (
    record {
      context = inputs;
      completed_names = [];
      failed_names = stage.name ∷ [];
      stage_tasks = [];
      launched = stage.name ∷ [];
      errors = (stage.name, e) ∷ [];
      completed_stages = 0;
    },
    simp (free, beq_self) refl,
    refl,
  )
