-- ===== src/Pipelines/Steps.antt =====
-- apps/api/pipelines/base.py: what one round of the loop over the stages does.
use kra_analysis.Prelude.{
  ℕ, suc, String, Option, some, List, [], ◌∷◌, ◌++◌, Bool, true, false, ◌≡◌, refl, ap, ◌∙◌, ◌⊎◌,
  inl, inr,
}
use kra_analysis.Prelude.Dict.{get-put_self}
use kra_analysis.Prelude.Value.{ℤ}
use kra_analysis.Prelude.Result.{Result, ok, err}
use kra_analysis.Prelude.Exec.{Exec, ◌>>=◌}
use kra_analysis.Prelude.Exec.Runs.{Runs, Runs-bind, Runs-then, Runs-modify, Runs-raise}
use kra_analysis.Pipelines.Context.{
  elapsed, StageResult, PipelineContext, add_stage_result, get_stage_result, is_failure,
}
use kra_analysis.Pipelines.Stage.{
  Stage, Machine, Run, Failure, execution_error, call, on_context, now, reject, failed_result,
  error_text, failure_text,
}

-- What counts as executed after a stage that was skipped, or was not.
abbrev pub after_stage : Bool → Stage → List Stage → List Stage
after_stage true stage before = before
after_stage false stage before = before ++ stage ∷ []

-- The stage counts as executed exactly if it was not skipped; its result is recorded and is no failure.
pub record Passed (skipped : Bool) (stage : Stage) (m m' : Machine) : Type 0 where
  pub executed : m'.executed ≡ after_stage skipped stage m.executed
  pub result : StageResult
  pub recorded : get_stage_result m'.context stage.name ≡ some result
  pub not_failed : is_failure result ≡ false

-- A failure with the text of the exception is recorded under the stage's name.
pub record Recorded (stage : Stage) (e : Failure) (m' : Machine) : Type 0 where
  pub text : String
  pub raised : e ≡ execution_error text
  pub result : StageResult
  pub found : get_stage_result m'.context stage.name ≡ some result
  pub failed : is_failure result ≡ true
  pub error : result.error ≡ some text

-- The stage does not count as executed. Its failure is recorded, unless its `should_skip` or its
-- `validate_prerequisites` raised.
pub record Broke (stage : Stage) (m : Machine) (e : Failure) (m' : Machine) : Type 0 where
  pub executed : m'.executed ≡ m.executed
  pub cause :
      Recorded stage e m'
      ⊎ ((c : PipelineContext) × ((stage.should_skip c).0 ≡ err e))
      ⊎ ((c : PipelineContext) × ((stage.validate_prerequisites c).0 ≡ err e))

-- The rest of the round of a stage that is not skipped.
abbrev pub Ended : Stage → Run Unit → Machine → Type 0
Ended stage body m =
    ((m' : Machine) × Runs body m (ok tt) m' × Passed false stage m m')
    ⊎ ((e : Failure) × (m' : Machine) × Runs body m (err e) m' × Broke stage m e m')

-- `should_skip` is asked of the context in which the stage is the current one.
abbrev pub asked : Stage → Machine → Result Failure Bool
asked stage m = (stage.should_skip (record m.context { current_stage = some stage.name })).0

-- One round: the stage passed, skipped or not as `should_skip` answered, or broke off.
abbrev pub RoundEnded : Stage → Run Unit → Machine → Type 0
RoundEnded stage body m =
    ((skipped : Bool) × (m' : Machine) × (asked stage m ≡ ok skipped)
      × Runs body m (ok tt) m'
      × Passed skipped stage m m')
    ⊎ ((e : Failure) × (m' : Machine) × Runs body m (err e) m' × Broke stage m e m')

pub Result-cases :
    {A : Type 0} (r : Result Failure A) → ((a : A) × (r ≡ ok a)) ⊎ ((e : Failure) × (r ≡ err e))
Result-cases (ok a) = inl (a, refl)
Result-cases (err e) = inr (e, refl)

-- A call of a method of a stage.
module _ {A : Type 0} (method : Exec PipelineContext Failure A) (m : Machine) {r : Result Failure A}
    (answered : (method m.context).0 ≡ r) where
  pub Runs-call : Runs (call method) m r (on_context (λ c. (method c).1) m)
  unfolding call
  Runs-call = record { path = ap (λ x. (x, on_context (λ c. (method c).1) m)) answered }

pub get-add_stage_result :
    (name : String) (result : StageResult) (context : PipelineContext)
    → get_stage_result (add_stage_result name result context) name
      ≡ some (record result { stage_name = some name })
unfolding get_stage_result add_stage_result
get-add_stage_result name result context = get-put_self context.stage_results name _

module _ (clock : ℕ → ℕ) where
  pub Runs-now :
      (m : Machine)
      → Runs (now clock) m (ok (clock m.readings)) (record m { readings = suc m.readings })
  unfolding now
  Runs-now m = record { path = refl }

-- What holds after an action that leaves the list of executed stages.
pub Ended-after :
    {A : Type 0} {stage : Stage} (first : Run A) {a : A} (rest : A → Run Unit) (m m' : Machine)
    → m'.executed ≡ m.executed
    → Runs first m (ok a) m'
    → Ended stage (rest a) m'
    → Ended stage (first >>= rest) m
Ended-after {stage = stage} first rest m m' same run (inl (m'', then_run, p)) = inl (
  m'',
  Runs-bind rest run then_run,
  record {
    executed = p.executed ∙ ap (λ xs. xs ++ stage ∷ []) same;
    result = p.result;
    recorded = p.recorded;
    not_failed = p.not_failed;
  },
)
Ended-after first rest m m' same run (inr (e, m'', then_run, b)) =
    inr (
      e,
      m'',
      Runs-bind rest run then_run,
      record { executed = b.executed ∙ same; cause = b.cause },
    )

module _ (clock : ℕ → ℕ) (stage : Stage) where
  abbrev pub failure_of : ℕ → Failure → Machine → StageResult
  failure_of start_time e m =
      failed_result (error_text stage.name (failure_text e))
        (some (elapsed start_time (clock m.readings)))

  abbrev pub rejected : ℕ → Failure → Machine → Machine
  rejected start_time e m =
      on_context (add_stage_result stage.name (failure_of start_time e m))
        (record m { readings = suc m.readings })

  pub Runs-reject :
      (start_time : ℕ) (e : Failure) (m : Machine)
      → Runs
          (reject clock stage start_time e)
          m
          (err (execution_error (error_text stage.name (failure_text e))))
          (rejected start_time e m)
  Runs-reject start_time e m =
      Runs-bind _ (Runs-now clock m) (Runs-then _ (Runs-modify _ _) (Runs-raise _ _))

  pub Broke-failed :
      (text : String) (time : Option ℤ) (m m' : Machine)
      → m'.executed ≡ m.executed
      → Broke stage m
          (execution_error text)
          (on_context (add_stage_result stage.name (failed_result text time)) m')
  Broke-failed text time m m' same = record {
    executed = same;
    cause = inl (record {
      text = text;
      raised = refl;
      result = _;
      found = get-add_stage_result stage.name _ m'.context;
      failed = refl;
      error = refl;
    });
  }
