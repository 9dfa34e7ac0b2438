-- ===== src/Pipeline/Depends.antt =====
-- `_execute_stages` of core/pipeline_manager.py starts a stage after those that it depends on.
use mathlib.Core.List.{Memᴰ}
use deepiri_zepgpu.Base.{
  string_eq, nat_eq, Bool-cases, Option-cases, length, All, all, elem, Outcome, ◌>>=◌, >>=-eq-ok,
  ok-injective, ok, raise, ℕ, ◌-◌, String, ◌≡◌, refl, sym, subst, ◌∙◌, inl, inr, Bool, true, false,
  List, [], ◌∷◌, arith,
}
use deepiri_zepgpu.Base.Dict.{Dict}
use deepiri_zepgpu.Pipeline.Keys.{
  All-map, All-take, Keys, Keys-map, Keys-insert, Keys-erase, Keys-name_of_task, members,
}
use deepiri_zepgpu.Pipeline.Stage.{PipelineStage}
use deepiri_zepgpu.Pipeline.Rounds.{
  goes_on, start_run, execute_stages, LoopEnd, finish_tasks, finish_task, record_result, launch,
  ready_stages, is_ready, Run, add_name, take, create_task, create_tasks, name_of_task, finished,
  waits,
}

elem-add_name :
    (name : String) (names : List String) (x : String)
    → elem x names ≡ true
    → elem x (add_name name names) ≡ true
unfolding add_name
elem-add_name name names x h = ground arith

module _ {V : Type 0} (stages : List (PipelineStage V)) where
  -- The name of a stage whose dependencies are all completed.
  abbrev pub Started : List String → String → Type 0
  Started completed name =
      (stage : PipelineStage V) × Memᴰ stage stages
      × (stage.name ≡ name)
      × (all (λ dep. elem dep completed) stage.depends_on ≡ true)

  pub record InOrder (run : Run V) : Type 0 where
    pub of_launched : All (Started run.completed_names) run.launched
    pub of_tasks : Keys (Started run.completed_names) run.stage_tasks
    pub of_completed : All (Started run.completed_names) run.completed_names

  create_tasks-InOrder :
      (new : List (PipelineStage V)) (run : Run V)
      → All (λ s. Started run.completed_names s.name) new
      → InOrder run
      → InOrder (create_tasks new run)
  unfolding create_tasks create_task
  create_tasks-InOrder [] run h o = o
  create_tasks-InOrder (s ∷ new) run h o =
      create_tasks-InOrder new (create_task s run) h.1 (record {
        of_launched = (h.0, o.of_launched);
        of_tasks =
            Keys-insert (Started run.completed_names) s.name (length run.launched) run.stage_tasks
              h.0 o.of_tasks;
        of_completed = o.of_completed;
      })

  is_ready-Started :
      (run : Run V) (s : PipelineStage V)
      → Memᴰ s stages
      → is_ready run s ≡ true
      → Started run.completed_names s.name
  unfolding is_ready
  is_ready-Started run s there h = (s, there, refl, ground arith)

  ready_stages-Started :
      (run : Run V) (ss : List (PipelineStage V))
      → All (λ s. Memᴰ s stages) ss
      → All (λ s. Started run.completed_names s.name) (ready_stages ss run)
  unfolding ready_stages
  ready_stages-Started run [] h = tt
  ready_stages-Started run (s ∷ ss) h = elim (Bool-cases (is_ready run s)) [
    | inl ready ↦ rw ready (is_ready-Started run s h.0 ready, ready_stages-Started run ss h.1)
    | inr blocked ↦ rw blocked (ready_stages-Started run ss h.1)
  ]

  launch-InOrder : (slots : ℕ) (run : Run V) → InOrder run → InOrder (launch slots stages run)
  unfolding launch
  launch-InOrder slots run o =
      create_tasks-InOrder (take (slots - length run.stage_tasks) (ready_stages stages run)) run
        (All-take (λ s. Started run.completed_names s.name) (slots - length run.stage_tasks)
          (ready_stages stages run) (ready_stages-Started run stages (members stages)))
        o

  all-grows :
      (names more deps : List String)
      → ((x : String) → elem x names ≡ true → elem x more ≡ true)
      → all (λ dep. elem dep names) deps ≡ true
      → all (λ dep. elem dep more) deps ≡ true
  all-grows names more [] f h = refl
  all-grows names more (d ∷ deps) f h = elim (Bool-cases (elem d names)) [
    | inl there ↦
        let rest : all (λ dep. elem dep names) deps ≡ true = sym (rw there refl) ∙ h in
        rw (f d there, all-grows names more deps f rest) refl
    | inr missing ↦ let clash : false ≡ true = sym (rw missing refl) ∙ h in absurd cc
  ]

  Started-grows :
      (name : String) (names : List String) (x : String)
      → Started names x
      → Started (add_name name names) x
  Started-grows name names x (s, there, named, deps) = (
    s,
    there,
    named,
    all-grows names (add_name name names) s.depends_on (elem-add_name name names) deps,
  )

  add_name-All :
      (P : String → Type 0) (name : String) (names : List String)
      → P name
      → All P names
      → All P (add_name name names)
  unfolding add_name
  add_name-All P name names p h = elim (Bool-cases (elem name names)) [
    | inl there ↦ rw there h
    | inr absent ↦ rw absent (p, h)
  ]

  record_result-InOrder :
      (enable_retry : Bool) (run next : Run V) (name : String) (r : Outcome String V)
      → Started run.completed_names name
      → record_result enable_retry run name r ≡ ok next
      → InOrder run
      → InOrder next
  unfolding record_result
  record_result-InOrder enable_retry run next name (ok v) started done o =
      let grow = Started-grows name run.completed_names in
      subst InOrder (ok-injective done) (record {
        of_launched = All-map grow run.launched o.of_launched;
        of_tasks =
            Keys-erase (Started (add_name name run.completed_names)) name run.stage_tasks
              (Keys-map grow run.stage_tasks o.of_tasks);
        of_completed =
            add_name-All (Started (add_name name run.completed_names)) name run.completed_names
              (grow name started) (All-map grow run.completed_names o.of_completed);
      })
  record_result-InOrder true run next name (raise e) started done o =
      subst InOrder (ok-injective done) (record {
        of_launched = o.of_launched;
        of_tasks = Keys-erase (Started run.completed_names) name run.stage_tasks o.of_tasks;
        of_completed = o.of_completed;
      })
  record_result-InOrder false run next name (raise e) started done o = absurd cc

  finish_task-InOrder :
      (enable_retry : Bool) (run next : Run V) (done : ℕ × Outcome String V)
      → finish_task enable_retry run done ≡ ok next
      → InOrder run
      → InOrder next
  unfolding finish_task
  finish_task-InOrder enable_retry run next done h o =
      elim (Option-cases (name_of_task done.0 run.stage_tasks)) [
        | inl unknown ↦
            let kept : finish_task enable_retry run done ≡ ok run =
              rw (finish_task, unknown) refl in
            subst InOrder (ok-injective (sym kept ∙ h)) o
        | inr (name, known) ↦
            let taken : finish_task enable_retry run done
                ≡ record_result enable_retry run name done.1 =
              rw (finish_task, known) refl in
            record_result-InOrder enable_retry run next name done.1
              (Keys-name_of_task (Started run.completed_names) done.0 run.stage_tasks name
                o.of_tasks known)
              (sym taken ∙ h) o
      ]

  finish_tasks-InOrder :
      (enable_retry : Bool) (done : List (ℕ × Outcome String V)) (run next : Run V)
      → finish_tasks enable_retry run done ≡ ok next
      → InOrder run
      → InOrder next
  unfolding finish_tasks
  finish_tasks-InOrder enable_retry [] run next h o = subst InOrder (ok-injective h) o
  finish_tasks-InOrder enable_retry (d ∷ done) run next h o =
      let (mid, first, rest) = >>=-eq-ok (finish_task enable_retry run d) _ h in
      finish_tasks-InOrder enable_retry done mid next rest
        (finish_task-InOrder enable_retry run mid d first o)

  abbrev pub EndInOrder : LoopEnd V → Type 0
  EndInOrder (finished run) = InOrder run
  EndInOrder (waits run) = InOrder run

  execute_from-InOrder :
      (enable_retry : Bool) (slots : ℕ) (rounds : List (List (ℕ × Outcome String V))) (run : Run V)
      (end : LoopEnd V)
      → execute_stages enable_retry slots stages rounds run ≡ ok end
      → InOrder run
      → EndInOrder end
  unfolding execute_stages
  execute_from-InOrder enable_retry slots [] run end h o = elim (Bool-cases (goes_on stages run)) [
    | inl going ↦
        let paused : execute_stages enable_retry slots stages [] run
            ≡ ok (waits (launch slots stages run)) =
          rw (execute_stages, going) refl in
        subst EndInOrder (ok-injective (sym paused ∙ h)) (launch-InOrder slots run o)
    | inr over ↦
        let ended : execute_stages enable_retry slots stages [] run ≡ ok (finished run) =
          rw (execute_stages, over) refl in
        subst EndInOrder (ok-injective (sym ended ∙ h)) o
  ]
  execute_from-InOrder enable_retry slots (done ∷ rounds) run end h o =
      elim (Bool-cases (goes_on stages run)) [
        | inl going ↦
            let round : execute_stages enable_retry slots stages (done ∷ rounds) run ≡ (
                finish_tasks enable_retry (launch slots stages run) done >>= λ next.
                execute_stages enable_retry slots stages rounds next) =
              rw (execute_stages, going) refl in
            let (next, first, rest) =
              >>=-eq-ok (finish_tasks enable_retry (launch slots stages run) done) _
                (sym round ∙ h) in
            execute_from-InOrder enable_retry slots rounds next end rest (
              finish_tasks-InOrder enable_retry done (launch slots stages run) next first
                (launch-InOrder slots run o))
        | inr over ↦
            let ended : execute_stages enable_retry slots stages (done ∷ rounds) run
                ≡ ok (finished run) =
              rw (execute_stages, over) refl in
            subst EndInOrder (ok-injective (sym ended ∙ h)) o
      ]

  -- Whatever the tasks return and in whatever order they end, in the state in which the loop ends or
  -- waits every stage that was ever started, that runs or that is completed has all the stages it
  -- depends on completed.
  pub execute_stages-InOrder :
      (enable_retry : Bool) (slots : ℕ) (rounds : List (List (ℕ × Outcome String V)))
      (initial_inputs : Dict String V) (end : LoopEnd V)
      → execute_stages enable_retry slots stages rounds (start_run initial_inputs) ≡ ok end
      → EndInOrder end
  unfolding start_run
  execute_stages-InOrder enable_retry slots rounds initial_inputs end h =
      execute_from-InOrder enable_retry slots rounds (start_run initial_inputs) end h
        (record { of_launched = tt; of_tasks = tt; of_completed = tt })
