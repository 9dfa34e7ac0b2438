-- ===== src/Pipeline/Retry.antt =====
-- How often `_execute_stage` of core/pipeline_manager.py calls the user's code, and what it returns.
use deepiri_zepgpu.Base.{
  string_eq, nat_eq, ◌==◌, eq_of_beq, Bool-cases, Outcome, ok, raise, ℕ, zero, suc, ◌+◌, ◌-◌, ◌≤◌,
  ◌<◌, String, ◌≡◌, refl, sym, ap, subst, ◌⊎◌, inl, inr, arith,
}
use deepiri_zepgpu.Base.Dict.{Dict}
use deepiri_zepgpu.Pipeline.Stage.{
  execute_stage, PipelineStage, StageRun, completed, failed, resolve_args, give_up, execute_from,
}

Outcome-cases :
    {V : Type 0} (r : Outcome String V) → ((v : V) × (r ≡ ok v)) ⊎ ((e : String) × (r ≡ raise e))
Outcome-cases (ok v) = inl (v, refl)
Outcome-cases (raise e) = inr (e, refl)

module _ {V : Type 0} (stage : PipelineStage V) (contexts : ℕ → Dict String V) where
  -- What call number n of the user's code does.
  abbrev pub call : ℕ → Outcome String V
  call n = stage.func (resolve_args stage.args_template (contexts n)) n

  abbrev pub Raises : ℕ → Type 0
  Raises n = (e : String) × (call n ≡ raise e)

  -- Of the calls from `n` to `last`, the first that returns gives the result.
  abbrev pub Returns : ℕ → ℕ → StageRun V → Type 0
  Returns n last r =
      (j : ℕ) × (n ≤ j)
      × (j ≤ last)
      × ((k : ℕ) → n ≤ k → k < j → Raises k)
      × ((v : V) × (call j ≡ ok v) × (r.outcome ≡ ok v))
      × (r.status ≡ completed)
      × (r.calls ≡ suc j)
      × (r.retry_count ≡ stage.retry_count + j)

  -- All of them raise, and the last exception goes to the handler, if there is one.
  abbrev pub GivesUp : ℕ → ℕ → StageRun V → Type 0
  GivesUp n last r =
      ((k : ℕ) → n ≤ k → k ≤ last → Raises k)
      × ((e : String) × (call last ≡ raise e) × (r.outcome ≡ give_up stage e))
      × (r.status ≡ failed)
      × (r.calls ≡ suc last)
      × (r.retry_count ≡ stage.retry_count + last)

  Raises-from : (n k : ℕ) → Raises n → (suc n ≤ k → Raises k) → n ≤ k → Raises k
  Raises-from n k first later le = elim (Bool-cases (k == n)) [
    | inl e ↦ subst Raises (sym (eq_of_beq k n e)) first
    | inr e ↦ later (ground (arith, e, le))
  ]

  Returns-later :
      (n last : ℕ) (r : StageRun V) → Raises n → Returns (suc n) last r → Returns n last r
  Returns-later n last r first (j, from, to, raises, value, status, calls, count) = (
    j,
    omega (arith, from),
    to,
    λ k le lt. Raises-from n k first (λ more. raises k more lt) le,
    value,
    status,
    calls,
    count,
  )

  GivesUp-later :
      (n last : ℕ) (r : StageRun V) → Raises n → GivesUp (suc n) last r → GivesUp n last r
  GivesUp-later n last r first (raises, value, status, calls, count) =
      (λ k le to. Raises-from n k first (λ more. raises k more to) le, value, status, calls, count)

  execute_from-ends :
      (left n last : ℕ)
      → n + left ≡ last
      → Returns n last (execute_from stage contexts left n)
        ⊎ GivesUp n last (execute_from stage contexts left n)
  unfolding execute_from
  execute_from-ends zero n last e = elim (Outcome-cases (call n)) [
    | inl (v, returns) ↦
        rw (execute_from, returns)
          (inl (
            n,
            omega arith,
            omega (arith, e),
            λ k le lt. absurd (omega (arith, le, lt)),
            (v, returns, refl),
            refl,
            refl,
            refl,
          ))
    | inr (x, raises) ↦
        let only : n ≡ last = omega (arith, e) in
        rw (execute_from, raises)
          (inr (
            λ k le to. subst Raises (omega (arith, le, to, only)) (x, raises),
            (x, subst (λ m. call m ≡ raise x) only raises, refl),
            refl,
            ap suc only,
            ap (λ m. stage.retry_count + m) only,
          ))
  ]
  execute_from-ends (suc left) n last e = elim (Outcome-cases (call n)) [
    | inl (v, returns) ↦
        rw (execute_from, returns)
          (inl (
            n,
            omega arith,
            omega (arith, e),
            λ k le lt. absurd (omega (arith, le, lt)),
            (v, returns, refl),
            refl,
            refl,
            refl,
          ))
    | inr (x, raises) ↦
        rw (execute_from, raises)
          (elim (execute_from-ends left (suc n) last (omega (arith, e))) [
            | inl h ↦
                inl (Returns-later n last (execute_from stage contexts left (suc n)) (x, raises) h)
            | inr h ↦
                inr (GivesUp-later n last (execute_from stage contexts left (suc n)) (x, raises) h)
          ])
  ]

  -- A stage's code is called until it returns, at most once more than there are retries left: the
  -- first call that returns gives the result and the status COMPLETED; if all of them raise, the
  -- status is FAILED and the last exception goes to the error handler, or on if there is none.
  pub execute_stage-ends :
      Returns 0 (stage.max_retries - stage.retry_count) (execute_stage stage contexts)
      ⊎ GivesUp 0 (stage.max_retries - stage.retry_count) (execute_stage stage contexts)
  unfolding execute_stage
  execute_stage-ends =
      execute_from-ends (stage.max_retries - stage.retry_count) 0
        (stage.max_retries - stage.retry_count) (omega arith)
