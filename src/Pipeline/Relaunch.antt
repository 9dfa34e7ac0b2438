-- ===== src/Pipeline/Relaunch.antt =====
-- What the loop of core/pipeline_manager.py does with a stage that is ready and has a task already:
-- `_get_ready_stages` leaves out the completed and the failed stages, not those that run.
use mathlib.Core.List.{Memᴰ}
use mathlib.Core.List.Memᴰ
use deepiri_zepgpu.Base.{
  string_eq, nat_eq, ◌==◌, eq_of_beq, Bool-cases, length, Outcome, ok, ℕ, zero, suc, ◌+◌, ◌-◌, ◌≤◌,
  ◌<◌, String, ◌≡◌, refl, sym, ◌∙◌, ◌≢◌, inl, inr, Bool, true, none, some, List, [], ◌∷◌, arith,
}
use deepiri_zepgpu.Base.Dict.{Dict, lookup, insert, erase, lookup-insert_self, lookup-insert_ne}
use deepiri_zepgpu.Pipeline.Stage.{PipelineStage}
use deepiri_zepgpu.Pipeline.Rounds.{
  Run, take, is_ready, ready_stages, create_task, create_tasks, launch, name_of_task, finish_task,
}

-- The name has a task numbered n or higher.
abbrev pub HasNew : String → ℕ → Dict String ℕ → Type 0
HasNew name n tasks = (t : ℕ) × (lookup name tasks ≡ some t) × (n ≤ t)

HasNew-insert :
    (name k : String) (n v : ℕ) (d : Dict String ℕ)
    → n ≤ v
    → HasNew name n d
    → HasNew name n (insert k v d)
HasNew-insert name k n v d low (t, there, high) = elim (Bool-cases (name == k)) [
  | inl same ↦ let q = eq_of_beq name k same in (v, rw q (lookup-insert_self k v d), low)
  | inr other ↦
      let ne : k ≢ name = λ q. cc ((string_eq.same_iff name k).0 (sym q)) in
      (t, lookup-insert_ne name k v d ne ∙ there, high)
]

module _ (t : ℕ) where
  name_of_task-insert :
      (k : String) (v : ℕ) (d : Dict String ℕ)
      → t < v
      → name_of_task t d ≡ none
      → name_of_task t (insert k v d) ≡ none
  unfolding name_of_task
  name_of_task-insert k v [] low h = ground arith
  name_of_task-insert k v ((j, w) ∷ d) low h =
      let rest = name_of_task-insert k v d low in ground (arith, rest)

  name_of_task-replace :
      (k : String) (v : ℕ) (d : Dict String ℕ)
      → t < v
      → name_of_task t (erase k d) ≡ none
      → name_of_task t (insert k v d) ≡ none
  unfolding name_of_task
  name_of_task-replace k v [] low h = ground arith
  name_of_task-replace k v ((j, w) ∷ d) low h =
      let rest = name_of_task-replace k v d low in ground (arith, rest)

  name_of_task-erase-insert :
      (k j : String) (v : ℕ) (d : Dict String ℕ)
      → t < v
      → name_of_task t (erase k d) ≡ none
      → name_of_task t (erase k (insert j v d)) ≡ none
  unfolding name_of_task
  name_of_task-erase-insert k j v [] low h = ground arith
  name_of_task-erase-insert k j v ((i, w) ∷ d) low h =
      let rest = name_of_task-erase-insert k j v d low in
      let kept = name_of_task-insert j v d low in ground (arith, rest, kept)

take-all : {A : Type 0} (n : ℕ) (xs : List A) → length xs ≤ n → take n xs ≡ xs
take-all zero [] h = refl
take-all (suc n) [] h = refl
take-all zero (x ∷ xs) h = absurd (omega (arith, h))
take-all (suc n) (x ∷ xs) h = rw (take-all n xs (omega (arith, h))) refl

module _ {V : Type 0} where
  create_tasks-HasNew_kept :
      (name : String) (n : ℕ) (new : List (PipelineStage V)) (run : Run V)
      → n ≤ length run.launched
      → HasNew name n run.stage_tasks
      → HasNew name n (create_tasks new run).stage_tasks
  unfolding create_tasks create_task
  create_tasks-HasNew_kept name n [] run low h = h
  create_tasks-HasNew_kept name n (s ∷ new) run low h =
      create_tasks-HasNew_kept name n new (create_task s run) (omega (arith, low))
        (HasNew-insert name s.name n (length run.launched) run.stage_tasks low h)

  create_tasks-HasNew :
      (stage : PipelineStage V) (n : ℕ) (new : List (PipelineStage V)) (run : Run V)
      → Memᴰ stage new
      → n ≤ length run.launched
      → HasNew stage.name n (create_tasks new run).stage_tasks
  unfolding create_tasks create_task
  create_tasks-HasNew stage n [] run there low = absurd (Memᴰ.not-nil there)
  create_tasks-HasNew stage n (s ∷ new) run there low = elim (Memᴰ.cases_cons there) [
    | inl here ↦
        create_tasks-HasNew_kept stage.name n new (create_task s run) (omega (arith, low)) (
          length run.launched,
          rw here (lookup-insert_self s.name (length run.launched) run.stage_tasks),
          low,
        )
    | inr further ↦ create_tasks-HasNew stage n new (create_task s run) further (omega (arith, low))
  ]

  create_tasks-gone_kept :
      (name : String) (t : ℕ) (new : List (PipelineStage V)) (run : Run V)
      → t < length run.launched
      → name_of_task t run.stage_tasks ≡ none
      → name_of_task t (create_tasks new run).stage_tasks ≡ none
  unfolding create_tasks create_task
  create_tasks-gone_kept name t [] run low h = h
  create_tasks-gone_kept name t (s ∷ new) run low h =
      create_tasks-gone_kept name t new (create_task s run) (omega (arith, low))
        (name_of_task-insert t s.name (length run.launched) run.stage_tasks low h)

  create_tasks-gone :
      (stage : PipelineStage V) (t : ℕ) (new : List (PipelineStage V)) (run : Run V)
      → Memᴰ stage new
      → t < length run.launched
      → name_of_task t (erase stage.name run.stage_tasks) ≡ none
      → name_of_task t (create_tasks new run).stage_tasks ≡ none
  unfolding create_tasks create_task
  create_tasks-gone stage t [] run there low h = absurd (Memᴰ.not-nil there)
  create_tasks-gone stage t (s ∷ new) run there low h =
      let n = length run.launched in
      elim (Memᴰ.cases_cons there) [
        | inl here ↦
            create_tasks-gone_kept stage.name t new (create_task s run) (omega (arith, low))
              (name_of_task-replace t s.name n run.stage_tasks low (rw here at h))
        | inr further ↦
            create_tasks-gone stage t new (create_task s run) further (omega (arith, low))
              (name_of_task-erase-insert t stage.name s.name n run.stage_tasks low h)
      ]

  ready_stages-Mem :
      (stage : PipelineStage V) (stages : List (PipelineStage V)) (run : Run V)
      → Memᴰ stage stages
      → is_ready run stage ≡ true
      → Memᴰ stage (ready_stages stages run)
  unfolding ready_stages
  ready_stages-Mem stage [] run there ready = absurd (Memᴰ.not-nil there)
  ready_stages-Mem stage (s ∷ stages) run there ready = elim (Memᴰ.cases_cons there) [
    | inl here ↦ let first : is_ready run s ≡ true = cc in rw first (Memᴰ.head here)
    | inr further ↦ elim (Bool-cases (is_ready run s)) [
      | inl also ↦ rw also (Memᴰ.tail (ready_stages-Mem stage stages run further ready))
      | inr blocked ↦ rw blocked (ready_stages-Mem stage stages run further ready)
    ]
  ]

  -- Where there is a slot for every ready stage, each gets a new task, also one whose task t has
  -- not ended: t is then forgotten, and when it ends its result or its error changes nothing.
  pub launch-again :
      (enable_retry : Bool) (slots : ℕ) (stages : List (PipelineStage V)) (run : Run V)
      (stage : PipelineStage V) (t : ℕ) (outcome : Outcome String V)
      → Memᴰ stage stages
      → is_ready run stage ≡ true
      → lookup stage.name run.stage_tasks ≡ some t
      → name_of_task t (erase stage.name run.stage_tasks) ≡ none
      → t < length run.launched
      → length (ready_stages stages run) + length run.stage_tasks ≤ slots
      → let after = launch slots stages run in
        HasNew stage.name (length run.launched) after.stage_tasks
        × (finish_task enable_retry after (t, outcome) ≡ ok after)
  unfolding launch finish_task
  launch-again enable_retry slots stages run stage t outcome there ready runs alone low room =
      let new = ready_stages stages run in
      let listed = ready_stages-Mem stage stages run there ready in
      let gone = create_tasks-gone stage t new run listed low alone in
      rw (take-all (slots - length run.stage_tasks) new (omega (arith, room))) (
        create_tasks-HasNew stage (length run.launched) new run listed (omega arith),
        rw (finish_task, gone) refl,
      )
