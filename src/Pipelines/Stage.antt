-- ===== src/Pipelines/Stage.antt =====
-- apps/api/pipelines/base.py: a stage, the state of one execution, and the steps of the loop.
use kra_analysis.Prelude.{
  ℕ, suc, String, Option, none, some, List, [], ◌∷◌, ◌++◌, Bool, if◌then◌else◌,
}
use kra_analysis.Prelude.Result.{ok}
use kra_analysis.Prelude.Exec.{Exec, pure, raise, modify, ◌>>=◌, ◌>>◌, try_except}
use kra_analysis.Prelude.Text.{◌+++◌}
use kra_analysis.Prelude.Value.{ℤ, obj, field, end, str}
use kra_analysis.Pipelines.Context.{
  StageStatus, PipelineStatus, StageResult, PipelineContext, add_stage_result, is_failure, elapsed,
}

-- A `PipelineExecutionError`, or another exception by its text.
pub data Failure : Type 0 where
  execution_error other_error : String → Failure

abbrev pub failure_text : Failure → String
failure_text (execution_error text) = text
failure_text (other_error text) = text

-- The four methods that a `PipelineStage` supplies. Each may change the context and may raise.
pub record Stage : Type 0 where
  pub name : String
  pub should_skip : Exec PipelineContext Failure Bool
  pub validate_prerequisites : Exec PipelineContext Failure Bool
  pub execute : Exec PipelineContext Failure StageResult
  pub rollback : Exec PipelineContext Failure Unit

-- One execution: the context, the pipeline's status, the list `executed_stages`, and how often the
-- clock was read.
pub record Machine : Type 0 where
  pub context : PipelineContext
  pub status : PipelineStatus
  pub executed : List Stage
  pub readings : ℕ

abbrev pub Run : Type 0 → Type 0
Run A = Exec Machine Failure A

-- A call of a method of a stage.
unfoldable pub call : {A : Type 0} → Exec PipelineContext Failure A → Run A
call method m = let (r, context) = method m.context in (r, record m { context = context })

abbrev pub on_context : (PipelineContext → PipelineContext) → Machine → Machine
on_context change m = record m { context = change m.context }

abbrev pub skipped_result : StageResult
skipped_result = record {
  status = StageStatus.skipped;
  data_ = none;
  error = none;
  metadata = obj (field "reason" (str "stage_skip_condition_met") end);
  execution_time_ms = none;
  stage_name = none;
}

abbrev pub failed_result : String → Option ℤ → StageResult
failed_result error execution_time_ms = record {
  status = StageStatus.failed;
  data_ = none;
  error = some error;
  metadata = obj end;
  execution_time_ms = execution_time_ms;
  stage_name = none;
}

-- A dataclass field formatted in a message.
abbrev pub shown : Option String → String
shown none = "None"
shown (some text) = text

abbrev pub unmet_text : String → String
unmet_text name = "Prerequisites not met for stage: " +++ name

abbrev pub failed_text : String → Option String → String
failed_text name error = "Stage " +++ name +++ " failed: " +++ shown error

abbrev pub error_text : String → String → String
error_text name text = "Stage " +++ name +++ " execution error: " +++ text

abbrev pub push : Stage → Machine → Machine
push stage m = record m { executed = m.executed ++ stage ∷ [] }

-- `clock n` is the n-th reading of `datetime.now(UTC)`.
module _ (clock : ℕ → ℕ) where
  unfoldable pub now : Run ℕ
  now m = (ok (clock m.readings), record m { readings = suc m.readings })

  -- A result that is no failure is recorded and its stage counts as executed.
  abbrev pub accept : Stage → StageResult → Run Unit
  accept stage result =
      if is_failure result
      then raise (execution_error (failed_text stage.name result.error))
      else do modify (on_context (add_stage_result stage.name result)); modify (push stage)

  abbrev pub timed : ℕ → ℕ → StageResult → StageResult
  timed start_time end_time result = record result {
    execution_time_ms = some (elapsed start_time end_time);
  }

  abbrev pub run_timed : Stage → ℕ → Run Unit
  run_timed stage start_time = do
    returned ← call stage.execute
    end_time ← now
    accept stage (timed start_time end_time returned)

  -- The inner handler: what went wrong is recorded and raised.
  abbrev pub reject : Stage → ℕ → Failure → Run Unit
  reject stage start_time e = do
    let error_msg = error_text stage.name (failure_text e)
    end_time ← now
    modify (
        on_context (
          add_stage_result stage.name
            (failed_result error_msg (some (elapsed start_time end_time)))))
    raise (execution_error error_msg)

  unfoldable pub execute_stage : Stage → Run Unit
  execute_stage stage = do
    start_time ← now
    try_except (run_timed stage start_time) (reject stage start_time)

  abbrev pub refuse : Stage → Run Unit
  refuse stage = do
    modify (on_context (add_stage_result stage.name (failed_result (unmet_text stage.name) none)))
    raise (execution_error (unmet_text stage.name))

  abbrev pub checked_stage : Stage → Run Unit
  checked_stage stage = do
    ready ← call stage.validate_prerequisites
    if ready then execute_stage stage else refuse stage

  -- The body of the loop over the stages.
  unfoldable pub run_stage : Stage → Run Unit
  run_stage stage = do
    modify (on_context (λ c. record c { current_stage = some stage.name }))
    skip ← call stage.should_skip
    if skip
        then modify (on_context (add_stage_result stage.name skipped_result))
        else checked_stage stage

  unfoldable pub run_stages : List Stage → Run Unit
  run_stages [] = pure tt
  run_stages (stage ∷ stages) = do run_stage stage; run_stages stages

-- The loop of the handler: an exception of a rollback is logged and the next stage's turn comes.
unfoldable pub roll_back : List Stage → Run Unit
roll_back [] = pure tt
roll_back (stage ∷ stages) = do try_except (call stage.rollback) (λ _. pure tt); roll_back stages
