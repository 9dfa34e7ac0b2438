-- ===== src/Pipeline/Stage.antt =====
-- deepiri_zepgpu/core/pipeline_manager.py: a stage, and its execution with retries.
use deepiri_zepgpu.Base.{
  string_eq, nat_eq, Outcome, ok, raise, ℕ, zero, suc, ◌+◌, ◌-◌, String, Option, none, some, List,
  [], ◌∷◌,
}
use deepiri_zepgpu.Base.Dict.{Dict, lookup}

pub data PipelineStageStatus : Type 0 where
  pending waiting running completed failed skipped : PipelineStageStatus

-- An entry of an argument template: a text "$name", which stands for a value of the context, or any
-- other value.
pub data TemplateValue (V : Type 0) : Type 0 where
  from_context : String → TemplateValue V
  literal : V → TemplateValue V

-- `func` is the user's code: what its call number n returns or raises on the arguments. A value of
-- None is for a name that the context does not have.
pub record PipelineStage (V : Type 0) : Type 0 where
  pub name : String
  pub func : Dict String (Option V) → ℕ → Outcome String V
  pub args_template : Dict String (TemplateValue V)
  pub depends_on : List String
  pub retry_count : ℕ
  pub max_retries : ℕ
  pub on_error : Option (String → Outcome String V)

-- What an execution leaves: the result or the exception, the stage's status and retry count, and
-- how often the user's code was called.
pub record StageRun (V : Type 0) : Type 0 where
  pub outcome : Outcome String V
  pub status : PipelineStageStatus
  pub retry_count : ℕ
  pub calls : ℕ

module _ {V : Type 0} where
  unfoldable pub resolve_value : Dict String V → TemplateValue V → Option V
  resolve_value context (from_context name) = lookup name context
  resolve_value context (literal value) = some value

  unfoldable pub resolve_args :
      Dict String (TemplateValue V) → Dict String V → Dict String (Option V)
  unfolding resolve_value
  resolve_args [] context = []
  resolve_args ((key, value) ∷ template) context =
      (key, resolve_value context value) ∷ resolve_args template context

  -- The end of `_execute_stage` when no retry is left.
  unfoldable pub give_up : PipelineStage V → String → Outcome String V
  give_up stage e = elim stage.on_error [ none ↦ raise e | some handler ↦ handler e ]

  -- Call number n reads the context as it is then. `left` is max_retries - retry_count.
  unfoldable pub execute_from :
      PipelineStage V → (ℕ → Dict String V) → (left : ℕ) (n : ℕ) → StageRun V
  unfolding resolve_args give_up
  execute_from stage contexts zero n =
      elim (stage.func (resolve_args stage.args_template (contexts n)) n) [
        | ok v ↦ record {
          outcome = ok v;
          status = completed;
          retry_count = stage.retry_count + n;
          calls = suc n;
        }
        | raise e ↦ record {
          outcome = give_up stage e;
          status = failed;
          retry_count = stage.retry_count + n;
          calls = suc n;
        }
      ]
  execute_from stage contexts (suc left) n =
      let again = execute_from stage contexts left (suc n) in
      elim (stage.func (resolve_args stage.args_template (contexts n)) n) [
        | ok v ↦ record {
          outcome = ok v;
          status = completed;
          retry_count = stage.retry_count + n;
          calls = suc n;
        }
        | raise e ↦ again
      ]

  unfoldable pub execute_stage : PipelineStage V → (ℕ → Dict String V) → StageRun V
  unfolding execute_from
  execute_stage stage contexts =
      execute_from stage contexts (stage.max_retries - stage.retry_count) 0
